-- ===== src/Base/Bits.antt =====
-- The binary digits of a number, and the bit operations read digit by digit.
use Prim.Native.Nat.{min, max, differ, digits, bitwise}
use Prim.Native.Nat.{bit_and, bit_or, bit_xor, bit_and-bitwise, bit_or-bitwise, bit_xor-bitwise}
use Prim.Native.Nat.{ℕ, zero, suc, ◌+◌, ◌*◌, ◌/◌, ◌%◌, ◌^◌, ◌≤◌, ◌<◌}
use mathlib.Core.Path.{◌≡◌, refl, ap, ◌∙◌}
use mathlib.Core.Logic.{◌↔◌, ◌⊎◌, ◌≢◌, inl, inr}
use mathlib.Core.WellFounded
use native.Mathlib.Nat.{pow-suc}
use native.Mathlib.Omega.{arith}
use ndppd.Base.Order.{lt_wf}
use ndppd.Base.Tests.{leb, leb→le, Bool-cases}

-- The meaning of the native operations has fuel; any amount that is enough gives the same.
module _ (pad : ℕ → ℕ) (op : ℕ → ℕ → ℕ) where
  spare_fuel : (fuel x y : ℕ) → x ≤ fuel → digits pad op (suc fuel) x y ≡ digits pad op fuel x y
  spare_fuel zero zero y le = refl
  spare_fuel (suc fuel) zero y le = refl
  spare_fuel (suc fuel) (suc x) y le = rw (spare_fuel fuel (suc x / 2) (y / 2) (omega arith))
  spare_fuel zero (suc x) y le = absurd (omega arith)

  enough_fuel : (fuel x y : ℕ) → x ≤ fuel → digits pad op fuel x y ≡ bitwise pad op x y
  enough_fuel zero zero y le = refl
  enough_fuel zero (suc x) y le = absurd (omega arith)
  enough_fuel (suc fuel) x y le = elim (Bool-cases (leb x fuel)) [
    | inl more ↦ let le' = leb→le x fuel more in spare_fuel fuel x y le' ∙ enough_fuel fuel x y le'
    | inr exact ↦ let same : suc fuel ≡ x = ground arith in ap (λ n. digits pad op n x y) same
  ]

  -- The lowest digit, and the rest.
  lowest :
      (x y : ℕ)
      → bitwise pad op (suc x) y ≡ bitwise pad op (suc x / 2) (y / 2) * 2 + op (suc x % 2) (y % 2)
  lowest x y = omega (arith, enough_fuel x (suc x / 2) (y / 2) (omega arith))

pub lowest_xor : (x y : ℕ) → bit_xor x y ≡ bit_xor (x / 2) (y / 2) * 2 + differ (x % 2) (y % 2)
lowest_xor (suc x) y = simp bit_xor-bitwise (lowest (λ d. d) differ x y)
lowest_xor zero y = simp bit_xor-bitwise (omega arith)

pub lowest_and : (x y : ℕ) → bit_and x y ≡ bit_and (x / 2) (y / 2) * 2 + min (x % 2) (y % 2)
lowest_and (suc x) y = simp bit_and-bitwise (lowest (λ _. 0) min x y)
lowest_and zero y = simp bit_and-bitwise (omega arith)

pub lowest_or : (x y : ℕ) → bit_or x y ≡ bit_or (x / 2) (y / 2) * 2 + max (x % 2) (y % 2)
lowest_or (suc x) y = simp bit_or-bitwise (lowest (λ d. d) max x y)
lowest_or zero y = simp bit_or-bitwise (omega arith)

no_common : (k x : ℕ) → x < 2 ^ k → bit_and x 0 ≡ 0
no_common zero x lt =
    let none_set : x ≡ 0 = omega arith in rw none_set (simp bit_and-bitwise (omega arith))
no_common (suc k) x lt =
    omega (arith, lowest_and x 0, no_common k (x / 2) (omega (arith, pow-suc 2 k)))

pub exceeds : (x : ℕ) → x < 2 ^ x
exceeds zero = omega arith
exceeds (suc x) = omega (arith, exceeds x, pow-suc 2 x)

bit_and-zero : (x : ℕ) → bit_and x 0 ≡ 0
bit_and-zero x = no_common x x (exceeds x)

-- Digit `j` of `x`, the lowest first.
abbrev pub digit : ℕ → ℕ → ℕ
digit x zero = x % 2
digit x (suc j) = digit (x / 2) j

pub digit_bit : (x j : ℕ) → digit x j ≤ 1
digit_bit x zero = omega arith
digit_bit x (suc j) = digit_bit (x / 2) j

pub digit-zero : (j : ℕ) → digit 0 j ≡ 0
digit-zero zero = refl
digit-zero (suc j) = digit-zero j

mul_two : (j x : ℕ) → digit (x / 2) j * (2 ^ suc j) ≡ digit (x / 2) j * 2 ^ j * 2
mul_two j x = grind (arith, pow-suc 2 j)

-- `x & (1 << j)` selects digit `j`.
pub bit_and_two_pow : (j x : ℕ) → bit_and x (2 ^ j) ≡ digit x j * 2 ^ j
bit_and_two_pow zero x = omega (arith, lowest_and x 1, bit_and-zero (x / 2))
bit_and_two_pow (suc j) x =
    ground (arith, pow-suc 2 j, lowest_and x (2 ^ suc j), bit_and_two_pow j (x / 2), mul_two j x)

pub bit_or-zero_iff : (a b : ℕ) → (bit_or a b ≡ 0) ↔ ((a ≡ 0) × (b ≡ 0))
bit_or-zero_iff a =
    WellFounded.induction lt_wf {C = λ a. (b : ℕ) → (bit_or a b ≡ 0) ↔ ((a ≡ 0) × (b ≡ 0))} a step
  where
    step :
        (n : ℕ)
        → ((m : ℕ) → m < n → (b : ℕ) → (bit_or m b ≡ 0) ↔ ((m ≡ 0) × (b ≡ 0)))
        → (b : ℕ) → (bit_or n b ≡ 0) ↔ ((n ≡ 0) × (b ≡ 0))
    step zero ih b = simp bit_or-bitwise (ground arith)
    step (suc n) ih b = ground (arith, lowest_or (suc n) b, ih (suc n / 2) (omega arith) (b / 2))

differ_cases :
    (p q : ℕ) → p < 2 → q < 2 → ((differ p q ≡ 0) × (p ≡ q)) ⊎ ((differ p q ≡ 1) × (p ≢ q))
differ_cases zero zero _ _ = inl (refl, refl)
differ_cases zero (suc zero) _ _ = inr (refl, omega arith)
differ_cases (suc zero) zero _ _ = inr (refl, omega arith)
differ_cases (suc zero) (suc zero) _ _ = inl (refl, refl)
differ_cases (suc (suc p)) q h _ = absurd (omega arith)
differ_cases p (suc (suc q)) _ h = absurd (omega arith)

masked_step :
    (x y m : ℕ)
    → (bit_and (bit_xor x y) m ≡ 0)
      ↔ ((m % 2 ≡ 1 → x % 2 ≡ y % 2) × (bit_and (bit_xor (x / 2) (y / 2)) (m / 2) ≡ 0))
masked_step x y m =
    let n = bit_xor x y in
    let cases : ((differ (x % 2) (y % 2) ≡ 0) × (x % 2 ≡ y % 2))
        ⊎ ((differ (x % 2) (y % 2) ≡ 1) × (x % 2 ≢ y % 2)) =
      differ_cases (x % 2) (y % 2) (omega arith) (omega arith) in
    let low : n % 2 ≡ differ (x % 2) (y % 2) = ground (arith, lowest_xor x y) in
    let high : n / 2 ≡ bit_xor (x / 2) (y / 2) = ground (arith, lowest_xor x y) in
    rw (lowest_and n m, high, low) (ground arith)

-- `(x ^ y) & m` is zero exactly when `x` and `y` have the same digits where `m` has a one.
pub masked-zero_iff :
    (k x y m : ℕ)
    → m < 2 ^ k
    → (bit_and (bit_xor x y) m ≡ 0) ↔ ((j : ℕ) → digit m j ≡ 1 → digit x j ≡ digit y j)
masked-zero_iff zero x y m h =
    rw none_set ((λ z j e. absurd (omega (arith, digit-zero j))), λ all. bit_and-zero _)
  where
    none_set : m ≡ 0
    none_set = omega arith
masked-zero_iff (suc k) x y m h =
    let rest = masked-zero_iff k (x / 2) (y / 2) (m / 2) (omega (arith, pow-suc 2 k)) in
    (
      (λ z. both ((masked_step x y m).0 z).0 (rest.0 ((masked_step x y m).0 z).1)),
      λ all. (masked_step x y m).1 (all 0, rest.1 (λ j. all (suc j))),
    )
  where
    both :
        (m % 2 ≡ 1 → x % 2 ≡ y % 2)
        → ((j : ℕ) → digit (m / 2) j ≡ 1 → digit (x / 2) j ≡ digit (y / 2) j)
        → (j : ℕ) → digit m j ≡ 1
        → digit x j ≡ digit y j
    both low high zero = low
    both low high (suc j) = high j

pub digit_large : (k x j : ℕ) → x < 2 ^ k → k ≤ j → digit x j ≡ 0
digit_large zero x j h le = rw (zero_of_lt x h) (digit-zero j)
  where
    zero_of_lt : (x : ℕ) → x < 1 → x ≡ 0
    zero_of_lt x h = omega arith
digit_large (suc k) x zero h le = absurd (omega arith)
digit_large (suc k) x (suc j) h le =
    digit_large k (x / 2) j (omega (arith, pow-suc 2 k)) (omega arith)

-- Numbers of `k` digits with the same digits are equal.
pub digits_ext :
    (k x y : ℕ) → x < 2 ^ k → y < 2 ^ k → ((j : ℕ) → j < k → digit x j ≡ digit y j) → x ≡ y
digits_ext zero x y hx hy same = omega arith
digits_ext (suc k) x y hx hy same = omega (
  arith,
  same 0 (omega arith),
  digits_ext k (x / 2) (y / 2) (omega (arith, pow-suc 2 k)) (omega (arith, pow-suc 2 k))
      (λ j h. same (suc j) (omega arith)),
)
