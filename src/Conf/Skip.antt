-- ===== src/Conf/Skip.antt =====
-- src/conf.cc, `skip`: where it stops.
use ndppd.Base.{
  ℕ, zero, suc, ◌≤◌, ◌<◌, ◌≡◌, ◌≢◌, refl, ◌∙◌, ap, sym, subst, ◌-◌, Option, none, some, ◌⊎◌, inl,
  inr, Bool, true, false, ◌&&◌, ◌||◌, [], ◌∷◌, ◌==◌, if◌then◌else◌, length, arith, Bool-cases,
  Bytes,
}
use ndppd.Tables.{is_space, is_between}
use ndppd.Conf.{
  is_blank, skip_blanks, skip_line, skip_comment, Comment, no_comment, to_line_end, to_comment_end,
  comment_at, skip_on, skip,
}
use ndppd.Conf.Shorter.{length-skip_blanks, skip_line-shorter, skip_comment-shorter}

-- A byte that the parser knows what to do with.
abbrev pub is_printable : ℕ → Bool
is_printable c = is_space c || is_between 33 126 c

-- At most `n` bytes, all of them printable.
abbrev pub Within : ℕ → Bytes → Type 0
Within n [] = Unit {0}
Within zero (c ∷ str) = ⊥
Within (suc n) (c ∷ str) = (is_printable c ≡ true) × Within n str

pub Within-weaken : (m n : ℕ) (str : Bytes) → m ≤ n → Within m str → Within n str
Within-weaken m n [] le h = tt
Within-weaken zero n (c ∷ str) le h = absurd h
Within-weaken (suc m) zero (c ∷ str) le h = absurd (omega arith)
Within-weaken (suc m) (suc n) (c ∷ str) le h = (h.0, Within-weaken m n str (omega arith) h.1)

pub Within-length : (n : ℕ) (str : Bytes) → Within n str → length str ≤ n
Within-length n [] h = omega arith
Within-length zero (c ∷ str) h = absurd h
Within-length (suc n) (c ∷ str) h = omega (arith, Within-length n str h.1)

pub Within-suc : (n : ℕ) (str : Bytes) → Within n str → Within (suc n) str
Within-suc n str h = Within-weaken n (suc n) str (omega arith) h

Within-if :
    (n : ℕ) (b : Bool) (s t : Bytes) → Within n s → Within n t → Within n (if b then s else t)
Within-if n true s t h k = h
Within-if n false s t h k = k

pub skip_blanks-Within :
    (newlines : Bool) (n : ℕ) (str : Bytes) → Within n str → Within n (skip_blanks newlines str)
unfolding skip_blanks
skip_blanks-Within newlines n [] h = tt
skip_blanks-Within newlines zero (c ∷ str) h = absurd h
skip_blanks-Within newlines (suc n) (c ∷ str) h =
    Within-if (suc n) (is_blank newlines c) _ (c ∷ str)
      (Within-suc n _ (skip_blanks-Within newlines n str h.1)) h

skip_line-Within : (n : ℕ) (str : Bytes) → Within n str → Within n (skip_line str)
unfolding skip_line
skip_line-Within n [] h = tt
skip_line-Within zero (c ∷ str) h = absurd h
skip_line-Within (suc n) (c ∷ str) h =
    Within-if (suc n) (c == 10) (c ∷ str) _ h (Within-suc n _ (skip_line-Within n str h.1))

skip_comment-Within : (n : ℕ) (str : Bytes) → Within n str → Within n (skip_comment str)
unfolding skip_comment
skip_comment-Within n [] h = tt
skip_comment-Within n (a ∷ []) h = tt
skip_comment-Within zero (a ∷ b ∷ str) h = absurd h
skip_comment-Within (suc zero) (a ∷ b ∷ str) h = absurd h.1
skip_comment-Within (suc (suc n)) (a ∷ b ∷ str) h =
    Within-if (suc (suc n)) ((a == 42) && (b == 47)) str _
      (Within-suc (suc n) str (Within-suc n str h.1.1))
      (Within-suc (suc n) _ (skip_comment-Within (suc n) (b ∷ str) h.1))

-- Whether a blank comes first.
abbrev pub blank_first : Bool → Bytes → Bool
blank_first newlines [] = false
blank_first newlines (c ∷ str) = is_blank newlines c

skip_blanks-blank_first :
    (newlines : Bool) (str : Bytes) → blank_first newlines (skip_blanks newlines str) ≡ false
unfolding skip_blanks
skip_blanks-blank_first newlines [] = refl
skip_blanks-blank_first newlines (c ∷ str) = elim (Bool-cases (is_blank newlines c)) [
  | inl blank ↦ rw blank (skip_blanks-blank_first newlines str)
  | inr other ↦ rw other other
]

-- Neither a blank nor a comment comes next.
abbrev pub IsSkipped : Bool → Bytes → Type 0
IsSkipped newlines r = (comment_at r ≡ no_comment) × (blank_first newlines r ≡ false)

Comment-cases : (c : Comment) → (c ≡ no_comment) ⊎ ((c ≡ to_line_end) ⊎ (c ≡ to_comment_end))
Comment-cases no_comment = inl refl
Comment-cases to_line_end = inr (inl refl)
Comment-cases to_comment_end = inr (inr refl)

skip_on-zero : (newlines : Bool) (str : Bytes) → skip_on 0 newlines str ≡ none
unfolding skip_on
skip_on-zero newlines str = refl

-- The rounds of the outer loop.
module _ (fuel : ℕ) (newlines : Bool) (str : Bytes) where
  skip_on-plain :
      comment_at (skip_blanks newlines str) ≡ no_comment
      → skip_on (suc fuel) newlines str ≡ some (skip_blanks newlines str)
  unfolding skip_on
  skip_on-plain e = rw (skip_on, e) refl

  skip_on-line :
      comment_at (skip_blanks newlines str) ≡ to_line_end
      → skip_on (suc fuel) newlines str
        ≡ skip_on fuel newlines (skip_line (skip_blanks newlines str))
  unfolding skip_on
  skip_on-line e = rw (skip_on, e) refl

  skip_on-block :
      comment_at (skip_blanks newlines str) ≡ to_comment_end
      → skip_on (suc fuel) newlines str
        ≡ skip_on fuel newlines (skip_comment (skip_blanks newlines str))
  unfolding skip_on
  skip_on-block e = rw (skip_on, e) refl

skip_blanks-same :
    (newlines : Bool) (s : Bytes) → blank_first newlines s ≡ false → skip_blanks newlines s ≡ s
unfolding skip_blanks
skip_blanks-same newlines [] h = refl
skip_blanks-same newlines (c ∷ s) h = rw h refl

-- Where a comment starts there is a byte.
commented : (s : Bytes) (c : Comment) → comment_at s ≡ c → c ≢ no_comment → 1 ≤ length s
unfolding comment_at
commented [] c e ne = absurd (ne (sym e))
commented (b ∷ s) c e ne = omega arith

-- On any text, one round more than its bytes is enough, and neither a blank nor a comment is next.
skip_on-IsSkipped :
    (fuel : ℕ) (newlines : Bool) (n : ℕ) (str : Bytes)
    → length str ≤ n
    → n < fuel
    → (rest : Bytes) × (skip_on fuel newlines str ≡ some rest) × IsSkipped newlines rest
skip_on-IsSkipped zero newlines n str h lt = absurd (omega arith)
skip_on-IsSkipped (suc fuel) newlines n str h lt =
    let s = skip_blanks newlines str in
    let shorter = length-skip_blanks newlines str in
    elim (Comment-cases (comment_at (skip_blanks newlines str))) [
      | inl plain ↦
          (s, skip_on-plain fuel newlines str plain, (plain, skip_blanks-blank_first newlines str))
      | inr (inl line) ↦
          let le = skip_line-shorter (n - 1) s line (omega arith) in
          let some_byte = commented s to_line_end line (λ e. cc) in
          let (rest, e, skipped) =
            skip_on-IsSkipped fuel newlines (n - 1) (skip_line s) le (omega arith) in
          (rest, skip_on-line fuel newlines str line ∙ e, skipped)
      | inr (inr block) ↦
          let le = skip_comment-shorter (n - 1) s block (omega arith) in
          let some_byte = commented s to_comment_end block (λ e. cc) in
          let (rest, e, skipped) =
            skip_on-IsSkipped fuel newlines (n - 1) (skip_comment s) le (omega arith) in
          (rest, skip_on-block fuel newlines str block ∙ e, skipped)
    ]

-- What is left holds what the text held.
abbrev Kept : ℕ → Option Bytes → Type 0
Kept n none = Unit {0}
Kept n (some rest) = Within n rest

skip_on-Kept :
    (fuel : ℕ) (newlines : Bool) (n : ℕ) (str : Bytes)
    → Within n str
    → Kept n (skip_on fuel newlines str)
skip_on-Kept zero newlines n str h = rw (skip_on-zero newlines str) tt
skip_on-Kept (suc fuel) newlines n str h =
    let s = skip_blanks newlines str in
    let within = skip_blanks-Within newlines n str h in
    elim (Comment-cases (comment_at (skip_blanks newlines str))) [
      | inl plain ↦ rw (skip_on-plain fuel newlines str plain) within
      | inr (inl line) ↦
          rw (skip_on-line fuel newlines str line)
            (skip_on-Kept fuel newlines n (skip_line s) (skip_line-Within n s within))
      | inr (inr block) ↦
          rw (skip_on-block fuel newlines str block)
            (skip_on-Kept fuel newlines n (skip_comment s) (skip_comment-Within n s within))
    ]

skip_at :
    (newlines : Bool) (str rest : Bytes)
    → skip_on (suc (length str)) newlines str ≡ some rest
    → skip newlines str ≡ rest
unfolding skip
skip_at newlines str rest e = ap (λ (o : Option Bytes). elim o [ none ↦ [] | some r ↦ r ]) e

-- The rounds of `skip` do not run out, on any text.
pub skip_on-skip :
    (newlines : Bool) (str : Bytes)
    → (skip_on (suc (length str)) newlines str ≡ some (skip newlines str))
      × IsSkipped newlines (skip newlines str)
skip_on-skip newlines str =
    let (rest, e, skipped) =
      skip_on-IsSkipped (suc (length str)) newlines (length str) str (omega arith) (omega arith) in
    let same : rest ≡ skip newlines str = sym (skip_at newlines str rest e) in
    (e ∙ ap some same, subst (IsSkipped newlines) same skipped)

-- `skip` of a printable text is a text with neither a blank nor a comment in front.
pub skip-lem :
    (newlines : Bool) (n : ℕ) (str : Bytes)
    → Within n str
    → IsSkipped newlines (skip newlines str) × Within n (skip newlines str)
skip-lem newlines n str h =
    let (e, skipped) = skip_on-skip newlines str in
    (skipped, subst (Kept n) e (skip_on-Kept (suc (length str)) newlines n str h))

-- What is skipped already stays as it is.
pub skip-IsSkipped :
    (newlines : Bool) (str : Bytes) → IsSkipped newlines str → skip newlines str ≡ str
skip-IsSkipped newlines str (plain, first) =
    let same = skip_blanks-same newlines str first in
    let e : skip_on (suc (length str)) newlines str ≡ some str =
      skip_on-plain (length str) newlines str (ap comment_at same ∙ plain) ∙ ap some same in
    skip_at newlines str str e
