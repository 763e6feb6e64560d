-- ===== src/Address/Prefix.antt =====
-- src/address.cc: the mask that `prefix(int)` writes and the length that `prefix()` reads.
use Prim.Native.Nat.{min}
use native.Mathlib.Decide.{dec_lt}
use native.Mathlib.Nat.{one-le-pow}
use ndppd.Base.{
  ℕ, zero, suc, ◌+◌, ◌-◌, ◌*◌, ◌/◌, ◌%◌, ◌^◌, ◌≤◌, ◌<◌, ◌≡◌, refl, ap, ◌∙◌, ◌≢◌, ◌⊎◌, inl, inr,
  true, List, ltb, ◌==◌, ==_iff, if◌then◌else◌, length, get_or, set, arith, Bool-cases, length-set,
  get_or-set_self, get_or-set_ne, get_or-replicate_self, get_or-replicate, Bool, holds_from,
  holds_from-at,
}
use ndppd.Base.Int.{ℤ, pos_part, pos, negsuc}
use ndppd.Base.Bits.{digit, digit_bit, digit-zero, bit_and_two_pow}
use ndppd.Address.{
  Address, test_bit, prefix_from, prefix, maskbit, fill_ones, prefix_mask, set_prefix, zero_bytes,
  one_bytes,
}
use ndppd.Address.Match.{bit}

pub length-fill_ones :
    (rounds n : ℕ) (mask : List ℕ) → length (fill_ones rounds n mask) ≡ length mask
unfolding fill_ones
length-fill_ones zero n mask = refl
length-fill_ones (suc rounds) n mask =
    length-fill_ones rounds (n + 1) (set mask n 0xff) ∙ length-set mask n 0xff

fill_ones_outside :
    (rounds n : ℕ) (mask : List ℕ) (j : ℕ)
    → (j < n) ⊎ (n + rounds ≤ j)
    → get_or (fill_ones rounds n mask) j 0 ≡ get_or mask j 0
unfolding fill_ones
fill_ones_outside zero n mask j h = refl
fill_ones_outside (suc rounds) n mask j h =
    fill_ones_outside rounds (n + 1) (set mask n 0xff) j (omega arith)
    ∙ get_or-set_ne mask n j 0xff 0 (omega arith)

fill_ones_inside :
    (rounds n : ℕ) (mask : List ℕ) (j : ℕ)
    → n + rounds ≤ length mask
    → n ≤ j
    → j < n + rounds
    → get_or (fill_ones rounds n mask) j 0 ≡ 255
unfolding fill_ones
fill_ones_inside zero n mask j h le lt = absurd (omega arith)
fill_ones_inside (suc rounds) n mask j h le lt = elim (Bool-cases (j == n)) [
  | inl e ↦ rw ((==_iff j n).0 e) (
      fill_ones_outside rounds (n + 1) (set mask n 0xff) n (omega arith)
      ∙ get_or-set_self mask n 0xff 0 (omega arith))
  | inr e ↦
      fill_ones_inside rounds (n + 1) (set mask n 0xff) j (omega (arith, length-set mask n 0xff))
        (ground arith) (omega arith)
]

abbrev maskbit_at : ℕ → ℕ → Bool
maskbit_at r s = digit (get_or maskbit r 0) (7 - s) == (if ltb s r then 1 else 0)

-- The table of partly filled bytes: the first `r` bits are set.
maskbit_table : holds_from (λ r. holds_from (maskbit_at r) 0 8) 0 9 ≡ true
unfolding holds_from
maskbit_table = refl

digit-maskbit :
    (r s : ℕ) → r < 9 → s < 8 → digit (get_or maskbit r 0) (7 - s) ≡ (if ltb s r then 1 else 0)
digit-maskbit r s hr hs =
    let row =
      holds_from-at (λ n. holds_from (maskbit_at n) 0 8) 0 9 r maskbit_table (omega arith) hr in
    (==_iff _ _).0 (holds_from-at (maskbit_at r) 0 8 s row (omega arith) hs)

-- The byte of a mask of `pf` leading ones at index `j`: how many of its bits are set.
abbrev ones_in_byte : ℕ → ℕ → ℕ
ones_in_byte pf j = if ltb j (pf / 8) then 8 else if j == pf / 8 then pf % 8 else 0

partial : ℕ → List ℕ
partial pf = set (fill_ones (pf / 8) 0 zero_bytes) (pf / 8) (get_or maskbit (pf % 8) 0)

partial_byte :
    (pf j : ℕ) → pf < 128 → j < 16 → get_or (partial pf) j 0 ≡ get_or maskbit (ones_in_byte pf j) 0
unfolding partial
partial_byte pf j hp hj =
    let filled = fill_ones (pf / 8) 0 zero_bytes in
    let v = get_or maskbit (pf % 8) 0 in
    elim (Bool-cases (j == pf / 8)) [
      | inl e ↦
          let same : j ≡ pf / 8 = (==_iff j (pf / 8)).0 e in
          ground (
            arith,
            ap (λ k. get_or (set filled (pf / 8) v) k 0) same,
            get_or-set_self filled (pf / 8) v 0
                (omega (arith, length-fill_ones (pf / 8) 0 zero_bytes)),
          )
      | inr e ↦
          get_or-set_ne filled (pf / 8) j v 0 (ground arith)
          ∙ ground (
            arith,
            fill_ones_inside (pf / 8) 0 zero_bytes j,
            fill_ones_outside (pf / 8) 0 zero_bytes j,
            get_or-replicate_self {A = ℕ} 16 j 0,
          )
    ]

prefix_mask-partial : (pf : ℕ) → pf < 128 → pf ≢ 0 → prefix_mask (pos pf) ≡ partial pf
unfolding prefix_mask partial
prefix_mask-partial pf h ne = ground arith

prefix_mask_byte :
    (pf j : ℕ)
    → pf < 128
    → j < 16
    → get_or (prefix_mask (pos pf)) j 0 ≡ get_or maskbit (ones_in_byte pf j) 0
prefix_mask_byte pf j hp hj = elim (Bool-cases (pf == 0)) [
  | inl e ↦
      rw ((==_iff pf 0).0 e) (unfold prefix_mask in get_or-replicate_self 16 j 0 ∙ ground arith)
  | inr e ↦ rw (prefix_mask-partial pf hp (ground arith)) (partial_byte pf j hp hj)
]

prefix_mask_big : (pf : ℕ) → 128 ≤ pf → prefix_mask (pos pf) ≡ one_bytes
unfolding prefix_mask
prefix_mask_big pf h = ground arith

-- The mask for a length `pf` has exactly its first `pf` bits set.
pub bit-prefix_mask :
    (pf p : ℕ) → p < 128 → bit (prefix_mask (pos pf)) p ≡ (if ltb p pf then 1 else 0)
bit-prefix_mask pf p hp = elim (dec_lt pf 128) [
  | yes lt ↦
      rw (prefix_mask_byte pf (p / 8) lt (omega arith))
        (ground (arith, digit-maskbit (ones_in_byte pf (p / 8)) (p % 8)))
  | no ge ↦
      rw (prefix_mask_big pf (omega arith), get_or-replicate {A = ℕ} 16 (p / 8) 255 0 (omega arith))
        (ground (arith, digit-maskbit 8 (p % 8)))
]

-- `n` is the number of ones that a mask begins with.
pub record IsLeading (mask : List ℕ) (n : ℕ) : Type 0 where
  pub at_most : n ≤ 128
  pub ones : (p : ℕ) → p < n → bit mask p ≡ 1
  pub stop : n < 128 → bit mask n ≡ 0

test_bit-bit : (mask : List ℕ) (p : ℕ) → test_bit mask p ≡ bit mask p * 2 ^ (7 - p % 8)
unfolding test_bit
test_bit-bit mask p = bit_and_two_pow (7 - p % 8) _

test_bit-zero : (mask : List ℕ) (p : ℕ) → test_bit mask p ≡ 0 → bit mask p ≡ 0
test_bit-zero mask p e = grind (arith, test_bit-bit mask p, one-le-pow (7 - p % 8) 2)

test_bit-one : (mask : List ℕ) (p : ℕ) → test_bit mask p ≢ 0 → bit mask p ≡ 1
test_bit-one mask p ne =
    grind (arith, test_bit-bit mask p, digit_bit (get_or mask (p / 8) 0) (7 - p % 8))

prefix_from-IsLeading :
    (mask : List ℕ) (rounds p : ℕ)
    → p + rounds ≡ 128
    → ((q : ℕ) → q < p → bit mask q ≡ 1)
    → IsLeading mask (prefix_from mask rounds p)
unfolding prefix_from
prefix_from-IsLeading mask zero p e ones = record {
  at_most = omega arith;
  ones = λ q h. ones q (omega arith);
  stop = λ h. absurd (omega arith);
}
prefix_from-IsLeading mask (suc rounds) p e ones = elim (Bool-cases (test_bit mask p == 0)) [
  | inl unset ↦ rw unset (record {
    at_most = omega arith;
    ones = ones;
    stop = λ h. test_bit-zero mask p ((==_iff _ 0).0 unset);
  })
  | inr is_set ↦ rw is_set (
      prefix_from-IsLeading mask rounds (p + 1) (omega arith)
        (λ q h. extend q (test_bit-one mask p (ground arith)) h))
]
  where
    extend : (q : ℕ) → bit mask p ≡ 1 → q < p + 1 → bit mask q ≡ 1
    extend q here h = elim (dec_lt q p) [
      | yes lt ↦ ones q lt
      | no ge ↦ let e' : q ≡ p = omega arith in rw e' here
    ]

-- The prefix length of an address is the number of ones that its mask begins with, whatever the
-- mask.
pub prefix-IsLeading : (a : Address) → IsLeading a.mask (prefix a)
unfolding prefix
prefix-IsLeading a = elim (Bool-cases (get_or a.mask 0 0 == 0)) [
  | inl none_set ↦ rw none_set (record {
    at_most = omega arith;
    ones = λ q h. absurd (omega arith);
    stop = λ h. rw ((==_iff _ 0).0 none_set) (digit-zero 7);
  })
  | inr some_set ↦
      rw some_set (prefix_from-IsLeading a.mask 128 0 refl (λ q h. absurd (omega arith)))
]

IsLeading-unique : {mask : List ℕ} {m n : ℕ} → IsLeading mask m → IsLeading mask n → m ≡ n
IsLeading-unique {m} {n} u v = grind (arith, u.ones n, v.ones m)

prefix_mask-IsLeading : (pf : ℤ) → IsLeading (prefix_mask pf) (min (pos_part pf) 128)
prefix_mask-IsLeading (pos n) = record {
  at_most = omega arith;
  ones = λ p h. ground (arith, bit-prefix_mask n p);
  stop = λ h. ground (arith, bit-prefix_mask n (min n 128));
}
prefix_mask-IsLeading (negsuc n) = record {
  at_most = omega arith;
  ones = λ p h. absurd (omega arith);
  stop = λ h. unfold prefix_mask in refl;
}

-- Reading back the prefix length that was set gives it, cut to the range from 0 to 128.
pub prefix-set_prefix : (pf : ℤ) (a : Address) → prefix (set_prefix pf a) ≡ min (pos_part pf) 128
prefix-set_prefix pf a =
    IsLeading-unique (prefix-IsLeading (set_prefix pf a))
      (unfold set_prefix in prefix_mask-IsLeading pf)
