-- ===== src/Address/Parse.antt =====
-- src/address.cc: `parse_string` and `to_string`. `inet_pton` and `inet_ntop` are parameters: `none` is
-- a failure, after which `_addr` is as it was. A text is the bytes in front of its NUL, and a buffer
-- is the bytes that are stored in it.
pub mod Decimal
pub mod RoundTrip
use ndppd.Base.{
  ℕ, zero, suc, ◌+◌, ◌-◌, ◌*◌, ◌/◌, ◌%◌, Bool, true, false, not, ◌&&◌, ◌||◌, List, [], ◌∷◌, ◌++◌,
  Option, none, some, ◌==◌, ltb, leb, if◌then◌else◌, Bytes, codes,
}
use ndppd.Base.Int.{ℤ, pos, negsuc, sub_ℕ}
use ndppd.Address.{Address, reset, of_in6, prefix, set_prefix}
use ndppd.Tables.{is_between, is_xdigit, is_space, skip_space}

unfoldable pub is_digit : ℕ → Bool
is_digit c = is_between 48 57 c

-- The digits that a text begins with, behind a number that has been read.
unfoldable pub read_digits : ℕ → Bytes → ℕ
read_digits n [] = n
read_digits n (c ∷ str) =
    let rest = read_digits (n * 10 + (c - 48)) str in if is_digit c then rest else n

-- `atoi`, for a number within the range of `int`.
unfoldable pub atoi : Bytes → ℤ
atoi str = elim (skip_space str) [
  | [] ↦ pos 0
  | c ∷ rest ↦
      if c == 45
      then sub_ℕ 0 (read_digits 0 rest)
      else if c == 43
      then pos (read_digits 0 rest)
      else pos (read_digits 0 (c ∷ rest))
]

abbrev pub Pton : Type 0
Pton = Bytes → Option (List ℕ)

abbrev pub Ntop : Type 0
Ntop = List ℕ → Option Bytes

-- The first loop that copies, with `sz` bytes copied: the buffer and the rest, `none` where it
-- returns false. INET6_ADDRSTRLEN is 46.
unfoldable pub copy_address : ℕ → Bytes → Option (Bytes × Bytes)
copy_address sz [] = some ([], [])
copy_address sz (c ∷ p) =
    let rest = copy_address (suc sz) p in
    if (c == 47) || is_space c
    then some ([], c ∷ p)
    else if not (c == 58) && not (is_xdigit c)
    then none
    else if leb (46 - 1) sz
    then none
    else elim rest [ none ↦ none | some (buf, q) ↦ some (c ∷ buf, q) ]

-- The loop that copies the prefix length.
unfoldable pub copy_digits : ℕ → Bytes → Option Bytes
copy_digits sz [] = some []
copy_digits sz (c ∷ p) =
    let rest = copy_digits (suc sz) p in
    if not (is_digit c)
    then none
    else if ltb 3 sz
    then none
    else elim rest [ none ↦ none | some buf ↦ some (c ∷ buf) ]

-- Behind the address: the result, and `*this`.
unfoldable pub parse_prefix : List ℕ → Bytes → Bool × Address
parse_prefix addr [] = (true, of_in6 addr)
parse_prefix addr (c ∷ p) =
    if not (c == 47) then (false, of_in6 addr) else elim (copy_digits 0 (skip_space p)) [
      | none ↦ (false, of_in6 addr)
      | some buf ↦ (true, set_prefix (atoi buf) (of_in6 addr))
    ]

-- `parse_string(str)`
unfoldable pub parse_string : Pton → Bytes → Bool × Address
parse_string pton str = elim (copy_address 0 (skip_space str)) [
  | none ↦ (false, reset)
  | some (buf, p) ↦ elim (pton buf) [
    | none ↦ (false, reset)
    | some addr ↦ parse_prefix addr (skip_space p)
  ]
]

-- `address(const std::string&)`, which does not look at the result.
unfoldable pub of_string : Pton → Bytes → Address
of_string pton str = (parse_string pton str).1

-- `"%d"` of a number below 1,000.
unfoldable pub decimal : ℕ → Bytes
decimal n =
    if ltb n 10
    then (48 + n) ∷ []
    else if ltb n 100
    then (48 + n / 10) ∷ (48 + n % 10) ∷ []
    else (48 + n / 100) ∷ (48 + n / 10 % 10) ∷ (48 + n % 10) ∷ []

-- `to_string()`
unfoldable pub to_string : Ntop → Address → Bytes
to_string ntop a = elim (ntop a.addr) [
  | none ↦ codes "::1"
  | some text ↦ if ltb (prefix a) 128 then text ++ (47 ∷ decimal (prefix a)) else text
]
