-- ===== src/Address/Subnet.antt =====
-- src/address.cc: an address with a prefix length, against the addresses of its subnet.
use ndppd.Base.{
  ℕ, zero, suc, ◌+◌, ◌-◌, ◌/◌, ◌%◌, ◌<◌, ◌≡◌, refl, ap, ◌∙◌, ◌↔◌, true, List, [], ◌∷◌, leb, ◌==◌,
  length, get_or, set, length-set, get_or_ext, ◌*◌, arith, Bool-cases, inl, inr,
  get_or-replicate_self,
}
use ndppd.Base.Int.{ℤ, pos, negsuc, pos_part}
use ndppd.Base.Bits.{digit-zero, digits_ext}
use ndppd.Address.{
  Address, equal, maskbit, fill_ones, prefix_mask, set_prefix, zero_bytes, one_bytes, of_in6,
}
use ndppd.Address.Match.{IsIn6, IsAddress, bit, bit_index, equal_iff}
use ndppd.Address.Prefix.{length-fill_ones, bit-prefix_mask}

abbrev pub AllBytes : List ℕ → Type 0
AllBytes [] = Unit {0}
AllBytes (x ∷ xs) = (x < 256) × AllBytes xs

AllBytes-get_or : (xs : List ℕ) (i : ℕ) → AllBytes xs → get_or xs i 0 < 256
AllBytes-get_or [] i h = omega arith
AllBytes-get_or (x ∷ xs) zero h = h.0
AllBytes-get_or (x ∷ xs) (suc i) h = AllBytes-get_or xs i h.1

AllBytes-set : (xs : List ℕ) (i v : ℕ) → v < 256 → AllBytes xs → AllBytes (set xs i v)
AllBytes-set [] i v lt h = tt
AllBytes-set (x ∷ xs) zero v lt h = (lt, h.1)
AllBytes-set (x ∷ xs) (suc i) v lt h = (h.0, AllBytes-set xs i v lt h.1)

AllBytes-fill_ones :
    (rounds n : ℕ) (mask : List ℕ) → AllBytes mask → AllBytes (fill_ones rounds n mask)
unfolding fill_ones
AllBytes-fill_ones zero n mask h = h
AllBytes-fill_ones (suc rounds) n mask h =
    AllBytes-fill_ones rounds (n + 1) (set mask n 0xff) (AllBytes-set mask n 0xff (omega arith) h)

maskbit-AllBytes : AllBytes maskbit
maskbit-AllBytes = omega arith

pub IsIn6-of_AllBytes : (xs : List ℕ) → length xs ≡ 16 → AllBytes xs → IsIn6 xs
IsIn6-of_AllBytes xs e h = record { sized = e; byte = λ i. AllBytes-get_or xs i h }

zero_bytes-IsIn6 : IsIn6 zero_bytes
zero_bytes-IsIn6 = IsIn6-of_AllBytes zero_bytes refl (omega arith)

pub one_bytes-IsIn6 : IsIn6 one_bytes
one_bytes-IsIn6 = IsIn6-of_AllBytes one_bytes refl (omega arith)

partial-IsIn6 :
    (pf : ℕ) → IsIn6 (set (fill_ones (pf / 8) 0 zero_bytes) (pf / 8) (get_or maskbit (pf % 8) 0))
partial-IsIn6 pf =
    IsIn6-of_AllBytes _
      (length-set (fill_ones (pf / 8) 0 zero_bytes) (pf / 8) (get_or maskbit (pf % 8) 0)
        ∙ length-fill_ones (pf / 8) 0 zero_bytes)
      (AllBytes-set _ (pf / 8) _ (AllBytes-get_or maskbit (pf % 8) maskbit-AllBytes)
        (AllBytes-fill_ones (pf / 8) 0 zero_bytes (omega arith)))

pub prefix_mask-IsIn6 : (pf : ℤ) → IsIn6 (prefix_mask pf)
unfolding prefix_mask
prefix_mask-IsIn6 (negsuc n) = zero_bytes-IsIn6
prefix_mask-IsIn6 (pos n) = elim (Bool-cases (leb 128 n)) [
  | inl whole ↦ rw whole one_bytes-IsIn6
  | inr part ↦ rw part (elim (Bool-cases (n == 0)) [
    | inl none_set ↦ rw none_set zero_bytes-IsIn6
    | inr some_set ↦ rw some_set (partial-IsIn6 n)
  ])
]

bit-prefix_mask_iff : (pf : ℤ) (p : ℕ) → p < 128 → (bit (prefix_mask pf) p ≡ 1) ↔ (p < pos_part pf)
bit-prefix_mask_iff (pos n) p h = ground (arith, bit-prefix_mask n p)
bit-prefix_mask_iff (negsuc n) p h =
    unfold prefix_mask in
    rw (get_or-replicate_self {A = ℕ} 16 (p / 8) 0, digit-zero (7 - p % 8)) (omega arith)

-- For addresses of 16 bytes, an address with a prefix length matches another one exactly when
-- the leading bits that the length counts are the same.
pub equal-set_prefix_iff :
    (pf : ℤ) (a b : Address)
    → IsIn6 a.addr
    → IsIn6 b.addr
    → (equal (set_prefix pf a) b ≡ true)
      ↔ ((p : ℕ) → p < 128 → p < pos_part pf → bit a.addr p ≡ bit b.addr p)
equal-set_prefix_iff pf a b va vb =
    let masked : IsAddress (record a { mask = prefix_mask pf }) = record {
      addr_in6 = va;
      mask_in6 = prefix_mask-IsIn6 pf;
    } in
    let bits = equal_iff (record a { mask = prefix_mask pf }) b masked vb in
    unfold set_prefix in
    (
      (λ e p h lt. bits.0 e p h ((bit-prefix_mask_iff pf p h).1 lt)),
      λ same. bits.1 (λ p h one. same p h ((bit-prefix_mask_iff pf p h).0 one)),
    )

same_bytes : (x y : List ℕ) → IsIn6 x → IsIn6 y → ((p : ℕ) → p < 128 → bit x p ≡ bit y p) → x ≡ y
same_bytes x y vx vy same = get_or_ext 0 16 x y vx.sized vy.sized λ i lt.
    digits_ext 8 _ _ (vx.byte i) (vy.byte i)
      λ j h. rw (← bit_index x i j h, ← bit_index y i j h) (same (8 * i + (7 - j)) (omega arith))

-- For addresses of 16 bytes, an address made without a mask matches exactly the address of the
-- same bytes.
pub equal-of_in6_iff :
    (x : List ℕ) (b : Address) → IsIn6 x → IsIn6 b.addr → (equal (of_in6 x) b ≡ true) ↔ (x ≡ b.addr)
unfolding of_in6
equal-of_in6_iff x b vx vb =
    let full : IsAddress (of_in6 x) = record { addr_in6 = vx; mask_in6 = one_bytes-IsIn6 } in
    let bits = equal_iff (of_in6 x) b full vb in
    (
      (λ e. same_bytes x b.addr vx vb (λ p h. bits.0 e p h (one_bit p h))),
      λ e. bits.1 (λ p h one. ap (λ bytes. bit bytes p) e),
    )
  where
    one_bit : (p : ℕ) → p < 128 → bit one_bytes p ≡ 1
    one_bit p h = let table = bit-prefix_mask 128 p h in unfold prefix_mask in ground (arith, table)
