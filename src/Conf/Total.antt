-- ===== src/Conf/Total.antt =====
-- src/conf.cc: `parse` and `parse_block` on a printable text.
use ndppd.Base.{
  ℕ, zero, suc, ◌+◌, ◌*◌, ◌≤◌, ◌≡◌, ◌≢◌, refl, inl, inr, Bool, true, false, ◌&&◌, [], ◌∷◌, none,
  some, ◌==◌, length, arith, Bool-cases, Option-cases, Bytes,
}
use ndppd.Conf.{
  Entries, end, skip_on, skip, is_name, after, skip_equals, Outcome, parsed, refused, out_of_fuel,
  and_then, at_end, close, parse_block, parse, load,
}
use ndppd.Conf.Skip.{is_printable, Within, skip-lem, skip-IsSkipped, skip_on-skip, IsSkipped}
use ndppd.Conf.Ends.{
  Ends, Ends-weaken, Ends-and_then, skip-Within, take_while-shorter, take_while-stop, after-shorter,
  skip_equals-Within, close-Ends,
}
use ndppd.Conf.Rounds.{
  front_value, behind_value, parse-plain, parse-braces, entry_text, parse_block-end,
  parse_block-entry, IsStart, not_blank, behind_value-Within, behind_value-shorter,
  behind_value-brace,
}

-- What is proved of the two functions at an amount of fuel, together.
abbrev BlockEnds : ℕ → Type 0
BlockEnds fuel =
    (n : ℕ) (es : Entries) (str : Bytes)
    → Within n str
    → 2 * n + 2 ≤ fuel
    → Ends n (parse_block fuel es str)

abbrev ParseEnds : ℕ → Type 0
ParseEnds fuel = (n : ℕ) (str : Bytes) → Within n str → 2 * n + 1 ≤ fuel → Ends n (parse fuel str)

-- Where an entry starts, at least one byte is consumed.
abbrev StartEnds : ℕ → Type 0
StartEnds fuel =
    (n : ℕ) (p : Bytes) → IsStart p → Within (suc n) p → 2 * n + 3 ≤ fuel → Ends n (parse fuel p)

not_empty : IsStart [] → ⊥
unfolding at_end
not_empty start = ground (arith, start.1)

after-nothing : (b : ℕ) (str rest : Bytes) → after b str ≡ some rest → Within 0 str → ⊥
unfolding after
after-nothing b [] rest e h = cc
after-nothing b (c ∷ str) rest e h = h

pub skip_equals-none : (p : Bytes) → after 61 p ≡ none → skip_equals p ≡ p
unfolding skip_equals
skip_equals-none p e = rw (skip_equals, e) refl

skip_equals-some : (p q : Bytes) → after 61 p ≡ some q → skip_equals p ≡ skip false q
unfolding skip_equals
skip_equals-some p q e = rw (skip_equals, e) refl

module _ (fuel : ℕ) (block : BlockEnds fuel) where
  braces-Ends :
      (n : ℕ) (str inside : Bytes)
      → Within n inside
      → 2 * n + 2 ≤ fuel
      → Ends n (and_then (parse_block fuel end inside) (close (front_value str)))
  braces-Ends n str inside h le =
      Ends-and_then n n (parse_block fuel end inside) (close (front_value str))
        (block n end inside h le) (λ es rest k. close-Ends n (front_value str) es rest k)

  -- With the value read, and at most `n` bytes behind it.
  parse_tail-Ends :
      (n : ℕ) (str : Bytes)
      → Within n (behind_value str)
      → 2 * n ≤ fuel
      → Ends n (parse (suc fuel) str)
  parse_tail-Ends n str h le = elim (Option-cases (after 123 (behind_value str))) [
    | inl e ↦ rw (parse-plain fuel str e) h
    | inr (inside, e) ↦ rw (parse-braces fuel str inside e) (inner n inside e h le)
  ]
    where
      inner :
          (n : ℕ) (inside : Bytes)
          → after 123 (behind_value str) ≡ some inside
          → Within n (behind_value str)
          → 2 * n ≤ fuel
          → Ends n (and_then (parse_block fuel end inside) (close (front_value str)))
      inner zero inside e h le = absurd (after-nothing 123 (behind_value str) inside e h)
      inner (suc n) inside e h le = Ends-weaken n (suc n) _ (omega arith) (
          braces-Ends n str inside (after-shorter 123 n (behind_value str) inside e h)
            (omega arith))

  parse-Ends : ParseEnds (suc fuel)
  parse-Ends n str h le = parse_tail-Ends n str (behind_value-Within n str h) (omega arith)

  parse-Ends_start : StartEnds (suc fuel)
  parse-Ends_start n [] start h le = absurd (not_empty start)
  parse-Ends_start n (c ∷ p) start h le = elim (Bool-cases (c == 123)) [
    | inr other ↦ parse_tail-Ends n (c ∷ p) (behind_value-shorter n c p start other h) (omega arith)
    | inl brace ↦
        let same : c ≡ 123 = ground arith in
        let start' : IsStart (123 ∷ p) = rw (← same) start in
        rw (same, parse-braces fuel (123 ∷ p) p (behind_value-brace p start'))
          (braces-Ends n (123 ∷ p) p h.1 (omega arith))
  ]

parse_block-nil : (fuel : ℕ) (es : Entries) → parse_block (suc fuel) es [] ≡ parsed es []
unfolding parse_block
parse_block-nil fuel es = refl

module _ (fuel : ℕ) (block : BlockEnds fuel) (entry : ParseEnds fuel)
    (start_entry : StartEnds fuel) where
  entry_text-Ends :
      (n : ℕ) (p : Bytes)
      → IsStart p
      → Within (suc n) p
      → 2 * n + 3 ≤ fuel
      → Ends n (parse fuel (entry_text p))
  entry_text-Ends n [] start h le = absurd (not_empty start)
  entry_text-Ends n (c ∷ p) start h le = elim (Bool-cases (is_name c)) [
    | inl named ↦
        entry n (entry_text (c ∷ p))
          (skip_equals-Within n _
            (skip-Within false n _ (take_while-shorter is_name n c p named h.1)))
          (omega arith)
    | inr other ↦
        rw
          (
            take_while-stop is_name c p other,
            skip-IsSkipped false (c ∷ p) (not_blank (c ∷ p) start.0),
          )
          (elim (Option-cases (after 61 (c ∷ p))) [
            | inl e ↦ rw (skip_equals-none (c ∷ p) e) (start_entry n (c ∷ p) start h le)
            | inr (q, e) ↦ rw (skip_equals-some (c ∷ p) q e) (
                entry n (skip false q) (skip-Within false n q (after-shorter 61 n (c ∷ p) q e h))
                  (omega arith))
          ])
  ]

  block-Ends : BlockEnds (suc fuel)
  block-Ends n es [] h le = rw (parse_block-nil fuel es) tt
  block-Ends zero es (c ∷ str) h le = absurd h
  block-Ends (suc n) es (c ∷ str) h le = elim (Bool-cases (at_end (skip true (c ∷ str)))) [
    | inl done ↦ rw (parse_block-end fuel c es str done) (skip-Within true (suc n) (c ∷ str) h)
    | inr more ↦ rw (parse_block-entry fuel c es str more) (
        Ends-and_then n (suc n) (parse fuel (entry_text (skip true (c ∷ str)))) _
          (entry_text-Ends n (skip true (c ∷ str)) ((skip-lem true (suc n) (c ∷ str) h).0, more)
            (skip-Within true (suc n) (c ∷ str) h) (omega arith))
          (λ cf rest k. Ends-weaken n (suc n) _ (omega arith) (block n _ rest k (omega arith))))
  ]

all-Ends : (fuel : ℕ) → BlockEnds fuel × (ParseEnds fuel × StartEnds fuel)
all-Ends zero = (
  (λ n es str h le. absurd (omega arith)),
  ((λ n str h le. absurd (omega arith)), λ n p start h le. absurd (omega arith)),
)
all-Ends (suc fuel) =
    let ih = all-Ends fuel in
    (block-Ends fuel ih.0 ih.1.0 ih.1.1, (parse-Ends fuel ih.0, parse-Ends_start fuel ih.0))

-- All bytes of the text.
abbrev pub all_printable : Bytes → Bool
all_printable [] = true
all_printable (c ∷ str) = is_printable c && all_printable str

printable-Within : (str : Bytes) → all_printable str ≡ true → Within (length str) str
printable-Within [] h = tt
printable-Within (c ∷ str) h =
    let first : is_printable c ≡ true = ground arith in (first, printable-Within str (ground arith))

Ends-≢ : {A : Type 0} (n : ℕ) (o : Outcome A) → Ends n o → o ≢ out_of_fuel
Ends-≢ n (parsed a rest) h = λ e. cc
Ends-≢ n refused h = λ e. cc
Ends-≢ n out_of_fuel h = absurd h

-- A text of blanks and visible bytes is parsed or refused: fuel of twice its length and two more
-- is enough for `parse_block` and `parse`. On such a text, with either value of `newlines`, the
-- rounds of `skip` do not run out, and it stops where neither a blank nor a comment is next.
pub load-all_printable :
    (fuel : ℕ) (text : Bytes) (newlines : Bool)
    → all_printable text ≡ true
    → 2 * length text + 2 ≤ fuel
    → (load fuel text ≢ out_of_fuel)
      × ((skip_on (suc (length text)) newlines text ≡ some (skip newlines text))
          × IsSkipped newlines (skip newlines text))
unfolding load
load-all_printable fuel text newlines h le = (
  Ends-≢ (length text) _ (
      Ends-and_then (length text) (length text) (parse_block fuel end text) _
        ((all-Ends fuel).0 (length text) end text (printable-Within text h) le) (λ es rest k. k)),
  skip_on-skip newlines text,
)
