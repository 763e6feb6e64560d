-- ===== src/Address/Match.antt =====
-- src/address.cc: what `operator==` decides, bit by bit. Bit 0 is the first bit on the wire.
use Prim.Native.Nat.{bit_and, bit_xor}
use ndppd.Base.{
  ℕ, zero, suc, ◌+◌, ◌-◌, ◌*◌, ◌/◌, ◌%◌, ◌<◌, ◌≡◌, refl, ◌∙◌, ◌↔◌, true, not, List, [], ◌∷◌, length,
  get_or, arith,
}
use native.Mathlib.Decide.{dec_lt}
use ndppd.Base.Bits.{digit, digit_large, masked-zero_iff}
use ndppd.Address.{Address, equal, not_equal}
use ndppd.Address.Words.{agree, equal-agree}

-- Sixteen bytes.
pub record IsIn6 (bytes : List ℕ) : Type 0 where
  pub sized : length bytes ≡ 16
  pub byte : (i : ℕ) → get_or bytes i 0 < 256

pub record IsAddress (a : Address) : Type 0 where
  pub addr_in6 : IsIn6 a.addr
  pub mask_in6 : IsIn6 a.mask

-- Bit `p` of an address, the most significant bit of its first byte being bit 0.
abbrev pub bit : List ℕ → ℕ → ℕ
bit bytes p = digit (get_or bytes (p / 8) 0) (7 - p % 8)

pub bit_index :
    (bytes : List ℕ) (i j : ℕ) → j < 8 → bit bytes (8 * i + (7 - j)) ≡ digit (get_or bytes i 0) j
bit_index bytes i j h =
    let quotient : (8 * i + (7 - j)) / 8 ≡ i = omega arith in
    let place : 7 - (8 * i + (7 - j)) % 8 ≡ j = omega arith in rw (quotient, place)

AgreeAt : List ℕ → List ℕ → List ℕ → ℕ → Type 0
AgreeAt xs ys ms i = bit_and (bit_xor (get_or xs i 0) (get_or ys i 0)) (get_or ms i 0) ≡ 0

agree_iff_bytes :
    (n : ℕ) (xs ys ms : List ℕ)
    → length xs ≡ n
    → length ys ≡ n
    → length ms ≡ n
    → (agree xs ys ms ≡ true) ↔ ((i : ℕ) → i < n → AgreeAt xs ys ms i)
unfolding AgreeAt
agree_iff_bytes n (x ∷ xs) [] ms p q r = absurd (omega arith)
agree_iff_bytes n (x ∷ xs) (y ∷ ys) [] p q r = absurd (omega arith)
agree_iff_bytes zero [] ys ms p q r = ((λ e i h. absurd (omega arith)), λ _. refl)
agree_iff_bytes (suc n) [] ys ms p q r = absurd (omega arith)
agree_iff_bytes zero (x ∷ xs) (y ∷ ys) (m ∷ ms) p q r = absurd (omega arith)
agree_iff_bytes (suc n) (x ∷ xs) (y ∷ ys) (m ∷ ms) p q r =
    let rest = agree_iff_bytes n xs ys ms (omega arith) (omega arith) (omega arith) in
    (
      (λ e. spread (ground arith) (rest.0 (ground arith))),
      λ all. ground (arith, all 0 (omega arith), rest.1 (λ i h. all (suc i) (omega arith))),
    )
  where
    spread :
        bit_and (bit_xor x y) m ≡ 0
        → ((i : ℕ) → i < n → AgreeAt xs ys ms i)
        → (i : ℕ) → i < suc n
        → AgreeAt (x ∷ xs) (y ∷ ys) (m ∷ ms) i
    spread first later zero h = first
    spread first later (suc i) h = later i (omega arith)

module _ (a b : Address) (va : IsAddress a) (vb : IsIn6 b.addr) where
  -- The bits that the left mask selects are the same.
  abbrev SameBits : Type 0
  SameBits = (p : ℕ) → p < 128 → bit a.mask p ≡ 1 → bit a.addr p ≡ bit b.addr p

  AgreeAt-SameBits : ((i : ℕ) → i < 16 → AgreeAt a.addr b.addr a.mask i) → SameBits
  unfolding AgreeAt
  AgreeAt-SameBits all p h =
      (masked-zero_iff 8 _ _ _ (va.mask_in6.byte (p / 8))).0 (all (p / 8) (omega arith)) (7 - p % 8)

  SameBits-AgreeAt : SameBits → (i : ℕ) → i < 16 → AgreeAt a.addr b.addr a.mask i
  unfolding AgreeAt
  SameBits-AgreeAt same i h = (masked-zero_iff 8 _ _ _ (va.mask_in6.byte i)).1 λ j e.
      let j_lt : j < 8 = below j e in
      rw (← bit_index a.addr i j j_lt, ← bit_index b.addr i j j_lt)
        (same (8 * i + (7 - j)) (omega arith) (bit_index a.mask i j j_lt ∙ e))
    where
      below : (j : ℕ) → digit (get_or a.mask i 0) j ≡ 1 → j < 8
      below j e = elim (dec_lt j 8) [
        | yes lt ↦ lt
        | no ge ↦ absurd (omega (arith, digit_large 8 _ j (va.mask_in6.byte i) (omega arith)))
      ]

  -- For addresses of 16 bytes, `a == b` holds exactly when every bit that the mask of `a`
  -- selects is the same in both.
  pub equal_iff :
      (equal a b ≡ true) ↔ ((p : ℕ) → p < 128 → bit a.mask p ≡ 1 → bit a.addr p ≡ bit b.addr p)
  equal_iff =
      let bytes =
        agree_iff_bytes 16 a.addr b.addr a.mask va.addr_in6.sized vb.sized va.mask_in6.sized in
      rw (equal-agree a b va.addr_in6.sized vb.sized va.mask_in6.sized)
        ((λ e. AgreeAt-SameBits (bytes.0 e)), λ same. bytes.1 (SameBits-AgreeAt same))

pub not_equal-equal : (a b : Address) → not_equal a b ≡ not (equal a b)
unfolding equal not_equal
not_equal-equal a b = refl
