-- ===== src/Conf/Ends.antt =====
-- src/conf.cc, `parse` and `parse_block`: what a call leaves of the text.
use ndppd.Base.{
  ℕ, zero, suc, ◌≤◌, ◌≡◌, refl, ◌⊎◌, inl, inr, Bool, true, false, ◌||◌, [], ◌∷◌, some, ◌==◌, arith,
  Bool-cases, Option-cases, Bytes,
}
use ndppd.Conf.{
  Entries, skip, is_plain, is_quoted, take_while, read_value, after, skip_equals, Outcome, parsed,
  refused, out_of_fuel, and_then, close,
}
use ndppd.Conf.Skip.{Within, Within-weaken, Within-suc, skip-lem}

-- The call ends, and leaves at most `n` bytes.
abbrev pub Ends : {A : Type 0} → ℕ → Outcome A → Type 0
Ends n (parsed a rest) = Within n rest
Ends n refused = Unit {0}
Ends n out_of_fuel = ⊥

pub Ends-weaken : {A : Type 0} (m n : ℕ) (o : Outcome A) → m ≤ n → Ends m o → Ends n o
Ends-weaken m n (parsed a rest) le h = Within-weaken m n rest le h
Ends-weaken m n refused le h = tt
Ends-weaken m n out_of_fuel le h = h

pub Ends-and_then :
    {A B : Type 0} (m n : ℕ) (o : Outcome A) (f : A → Bytes → Outcome B)
    → Ends m o
    → ((a : A) (rest : Bytes) → Within m rest → Ends n (f a rest))
    → Ends n (and_then o f)
Ends-and_then m n (parsed a rest) f h k = k a rest h
Ends-and_then m n refused f h k = tt
Ends-and_then m n out_of_fuel f h k = h

pub skip-Within :
    (newlines : Bool) (n : ℕ) (str : Bytes) → Within n str → Within n (skip newlines str)
skip-Within newlines n str h = (skip-lem newlines n str h).1

pub take_while-Within :
    (test : ℕ → Bool) (n : ℕ) (str : Bytes) → Within n str → Within n (take_while test str).1
unfolding take_while
take_while-Within test n [] h = tt
take_while-Within test zero (c ∷ str) h = absurd h
take_while-Within test (suc n) (c ∷ str) h = elim (Bool-cases (test c)) [
  | inl pass ↦ rw pass (Within-suc n _ (take_while-Within test n str h.1))
  | inr stop ↦ rw stop h
]

pub take_while-shorter :
    (test : ℕ → Bool) (n c : ℕ) (str : Bytes)
    → test c ≡ true
    → Within n str
    → Within n (take_while test (c ∷ str)).1
unfolding take_while
take_while-shorter test n c str pass h = rw pass (take_while-Within test n str h)

pub take_while-stop :
    (test : ℕ → Bool) (c : ℕ) (str : Bytes)
    → test c ≡ false
    → take_while test (c ∷ str) ≡ ([], c ∷ str)
unfolding take_while
take_while-stop test c str stop = rw stop refl

pub read_value-shorter :
    (n c : ℕ) (str : Bytes)
    → (((c == 39) || (c == 34)) ≡ true) ⊎ (is_plain c ≡ true)
    → Within n str
    → Within n (read_value (c ∷ str)).1
unfolding read_value
read_value-shorter n c str first h = elim (Bool-cases ((c == 39) || (c == 34))) [
  | inl quote ↦ rw quote (skip-Within false n _ (take_while-Within (is_quoted c) n str h))
  | inr other ↦ rw other (take_while-shorter is_plain n c str (ground arith) h)
]

pub read_value-Within : (n : ℕ) (str : Bytes) → Within n str → Within n (read_value str).1
unfolding read_value
read_value-Within n [] h = tt
read_value-Within zero (c ∷ str) h = absurd h
read_value-Within (suc n) (c ∷ str) h = elim (Bool-cases ((c == 39) || (c == 34))) [
  | inl quote ↦
      rw quote (Within-suc n _ (skip-Within false n _ (take_while-Within (is_quoted c) n str h.1)))
  | inr other ↦ rw other (take_while-Within is_plain (suc n) (c ∷ str) h)
]

pub after-shorter :
    (b n : ℕ) (str rest : Bytes) → after b str ≡ some rest → Within (suc n) str → Within n rest
unfolding after
after-shorter b n [] rest e h = cc
after-shorter b n (c ∷ str) rest e h = let same : str ≡ rest = ground arith in rw (← same) h.1

pub after-Within :
    (b n : ℕ) (str rest : Bytes) → after b str ≡ some rest → Within n str → Within n rest
unfolding after
after-Within b n [] rest e h = cc
after-Within b zero (c ∷ str) rest e h = absurd h
after-Within b (suc n) (c ∷ str) rest e h =
    let same : str ≡ rest = ground arith in rw (← same) (Within-suc n str h.1)

pub skip_equals-Within : (n : ℕ) (p : Bytes) → Within n p → Within n (skip_equals p)
unfolding skip_equals
skip_equals-Within n p h = elim (Option-cases (after 61 p)) [
  | inl e ↦ rw (skip_equals, e) h
  | inr (q, e) ↦ rw (skip_equals, e) (skip-Within false n q (after-Within 61 n p q e h))
]

pub close-Ends :
    (n : ℕ) (value : Bytes) (es : Entries) (rest : Bytes)
    → Within n rest
    → Ends n (close value es rest)
unfolding close
close-Ends n value es rest h = elim (Option-cases (after 125 rest)) [
  | inl e ↦ rw (close, e) tt
  | inr (q, e) ↦ rw (close, e) (after-Within 125 n rest q e h)
]
