-- ===== src/Examples/Addresses.antt =====
-- src/address.cc at concrete addresses.
use ndppd.Base.{ℕ, ◌<◌, ◌≡◌, refl, ◌↔◌, true, false, List, [], ◌∷◌, ◌++◌, replicate, arith}
use Prim.Native.Nat.{min}
use ndppd.Base.Int.{pos, pos_part}
use ndppd.Address.{
  Address, word, zip_with, nonzero, masked_word, differing, equal, is_unicast, is_multicast, of_in6,
  prefix, set_prefix,
}
use ndppd.Address.Match.{IsIn6, bit, equal_iff}
use ndppd.Address.Prefix.{IsLeading, prefix-IsLeading, prefix-set_prefix}
use ndppd.Address.Subnet.{equal-set_prefix_iff, IsIn6-of_AllBytes, one_bytes-IsIn6}

-- 1111::1 and 1111::2
abbrev first_host : List ℕ
first_host = 0x11 ∷ 0x11 ∷ replicate 13 0 ++ 1 ∷ []

abbrev second_host : List ℕ
second_host = 0x11 ∷ 0x11 ∷ replicate 13 0 ++ 2 ∷ []

-- 1111::/96
abbrev subnet : Address
subnet = set_prefix (pos 96) (of_in6 first_host)

subnet_matches : equal subnet (of_in6 second_host) ≡ true
unfolding equal differing masked_word word zip_with nonzero set_prefix of_in6
subnet_matches = refl

host_differs : equal (of_in6 first_host) (of_in6 second_host) ≡ false
unfolding equal differing masked_word word zip_with nonzero of_in6
host_differs = refl

-- The left operand's mask decides, so the order matters.
equal_not_symmetric : equal (of_in6 second_host) subnet ≡ false
unfolding equal differing masked_word word zip_with nonzero set_prefix of_in6
equal_not_symmetric = refl

subnet-prefix : prefix subnet ≡ 96
unfolding prefix set_prefix of_in6
subnet-prefix = refl

host_kinds : (is_unicast (of_in6 first_host) ≡ true) × (is_multicast (of_in6 first_host) ≡ false)
unfolding is_unicast is_multicast word nonzero of_in6
host_kinds = (refl, refl)

first_host-IsIn6 : IsIn6 first_host
first_host-IsIn6 = IsIn6-of_AllBytes first_host refl (omega arith)

second_host-IsIn6 : IsIn6 second_host
second_host-IsIn6 = IsIn6-of_AllBytes second_host refl (omega arith)

abbrev host : Address
host = record { addr = first_host; mask = replicate 16 255 }

abbrev other_host : Address
other_host = record { addr = second_host; mask = replicate 16 255 }

equal_iff_example :
    (equal host other_host ≡ true)
    ↔ ((p : ℕ) → p < 128 → bit host.mask p ≡ 1 → bit host.addr p ≡ bit other_host.addr p)
equal_iff_example =
    equal_iff host other_host (record { addr_in6 = first_host-IsIn6; mask_in6 = one_bytes-IsIn6 })
      second_host-IsIn6

prefix-IsLeading_example : IsLeading host.mask (prefix host)
prefix-IsLeading_example = prefix-IsLeading host

prefix-set_prefix_example : prefix (set_prefix (pos 200) host) ≡ min (pos_part (pos 200)) 128
prefix-set_prefix_example = prefix-set_prefix (pos 200) host

equal-set_prefix_iff_example :
    (equal (set_prefix (pos 96) host) other_host ≡ true)
    ↔ ((p : ℕ) → p < 128 → p < 96 → bit host.addr p ≡ bit other_host.addr p)
equal-set_prefix_iff_example =
    equal-set_prefix_iff (pos 96) host other_host first_host-IsIn6 second_host-IsIn6
