-- ===== src/Address.antt =====
-- src/address.cc and src/address.h: an IPv6 address with a mask.
-- `struct in6_addr` is its sixteen bytes `s6_addr`. The words `s6_addr32` overlay them, four bytes
-- each, and `^`, `&`, `|` and the test for zero act on the bytes of a word alike, in any byte order.
pub mod Words
pub mod Match
pub mod Kinds
pub mod Subnet
pub mod Prefix
pub mod Parse
use Prim.Native.Nat.{bit_and, bit_or, bit_xor}
use ndppd.Base.{
  ℕ, zero, suc, ◌+◌, ◌-◌, ◌*◌, ◌/◌, ◌%◌, ◌^◌, Bool, true, false, not, ◌&&◌, ◌||◌, List, [], ◌∷◌,
  leb, ◌==◌, if◌then◌else◌, get_or, set, take, drop, replicate,
}
use ndppd.Base.Int.{ℤ, pos, negsuc}

pub record Address : Type 0 where
  pub addr : List ℕ
  pub mask : List ℕ

-- `s6_addr32[i]`
unfoldable pub word : List ℕ → ℕ → List ℕ
word bytes i = take 4 (drop (4 * i) bytes)

unfoldable pub zip_with : (ℕ → ℕ → ℕ) → List ℕ → List ℕ → List ℕ
zip_with f (x ∷ xs) (y ∷ ys) = f x y ∷ zip_with f xs ys
zip_with f _ _ = []

-- A word as a truth value.
unfoldable pub nonzero : List ℕ → Bool
nonzero [] = false
nonzero (x ∷ xs) = not (x == 0) || nonzero xs

abbrev pub zero_bytes : List ℕ
zero_bytes = replicate 16 0

-- Four words `0xffffffff`.
abbrev pub one_bytes : List ℕ
one_bytes = replicate 16 255

-- (_addr[i] ^ addr._addr[i]) & _mask[i], on words
unfoldable pub masked_word : Address → Address → ℕ → List ℕ
masked_word a b i =
    zip_with bit_and (zip_with bit_xor (word a.addr i) (word b.addr i)) (word a.mask i)

unfoldable pub differing : Address → Address → List ℕ
differing a b =
    zip_with bit_or
      (zip_with bit_or (zip_with bit_or (masked_word a b 0) (masked_word a b 1))
        (masked_word a b 2))
      (masked_word a b 3)

-- `a == b`: the mask of the left operand decides.
unfoldable pub equal : Address → Address → Bool
equal a b = not (nonzero (differing a b))

unfoldable pub not_equal : Address → Address → Bool
not_equal a b = not (not (nonzero (differing a b)))

abbrev pub all_bytes : ℕ → List ℕ → Bool
all_bytes v [] = true
all_bytes v (x ∷ xs) = (x == v) && all_bytes v xs

unfoldable pub is_empty : Address → Bool
is_empty a = all_bytes 0 a.addr && all_bytes 255 a.mask

-- `reset`, and the default constructor.
unfoldable pub reset : Address
reset = record { addr = zero_bytes; mask = one_bytes }

-- `address(const in6_addr&)`
unfoldable pub of_in6 : List ℕ → Address
of_in6 bytes = record { addr = bytes; mask = one_bytes }

-- `address(const in6_addr&, const in6_addr&)`
unfoldable pub of_in6_mask : List ℕ → List ℕ → Address
of_in6_mask bytes mask = record { addr = bytes; mask = mask }

-- s6_addr[p / 8] & (1 << (7 - p % 8))
unfoldable pub test_bit : List ℕ → ℕ → ℕ
test_bit bytes p = bit_and (get_or bytes (p / 8) 0) (2 ^ (7 - p % 8))

-- The loop of `prefix()` at `p`, with `rounds` left.
unfoldable pub prefix_from : List ℕ → ℕ → ℕ → ℕ
unfolding test_bit
prefix_from mask zero p = 128
prefix_from mask (suc rounds) p =
    let next = prefix_from mask rounds (p + 1) in if test_bit mask p == 0 then p else next

unfoldable pub prefix : Address → ℕ
unfolding prefix_from
prefix a = if get_or a.mask 0 0 == 0 then 0 else prefix_from a.mask 128 0

abbrev pub maskbit : List ℕ
maskbit = 0x00 ∷ 0x80 ∷ 0xc0 ∷ 0xe0 ∷ 0xf0 ∷ 0xf8 ∷ 0xfc ∷ 0xfe ∷ 0xff ∷ []

-- The loop that fills whole bytes, at `n` with `rounds` left.
unfoldable pub fill_ones : ℕ → ℕ → List ℕ → List ℕ
fill_ones zero n mask = mask
fill_ones (suc rounds) n mask = fill_ones rounds (n + 1) (set mask n 0xff)

unfoldable pub prefix_mask : ℤ → List ℕ
unfolding fill_ones
prefix_mask (negsuc n) = zero_bytes
prefix_mask (pos pf) =
    if leb 128 pf
    then one_bytes
    else if pf == 0
    then zero_bytes
    else set (fill_ones (pf / 8) 0 zero_bytes) (pf / 8) (get_or maskbit (pf % 8) 0)

-- `prefix(int)`
unfoldable pub set_prefix : ℤ → Address → Address
unfolding prefix_mask
set_prefix pf a = record a { mask = prefix_mask pf }

-- `address(const in6_addr&, int)`
unfoldable pub of_in6_prefix : List ℕ → ℤ → Address
unfolding set_prefix
of_in6_prefix bytes pf = set_prefix pf (record { addr = bytes; mask = [] })

unfoldable pub is_multicast : Address → Bool
is_multicast a = get_or a.addr 0 0 == 0xff

unfoldable pub is_unicast : Address → Bool
is_unicast a =
    if not (nonzero (word a.addr 2)) && not (nonzero (word a.addr 3))
    then false
    else not (get_or a.addr 0 0 == 0xff)
