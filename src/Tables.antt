-- ===== src/Tables.antt =====
-- src/route.cc and src/address.cc: the kernel's tables of routes and of addresses, read from text.
-- The text of a file is a parameter, `none` where it cannot be opened. A line is taken to be shorter
-- than the buffer of 1,024 bytes.
pub mod Digits
pub mod Lines
pub mod Files
use Prim.Native.Nat.{bit_or}
use ndppd.Base.{
  ℕ, zero, suc, ◌+◌, ◌-◌, ◌*◌, ◌%◌, Bool, true, false, not, ◌&&◌, ◌||◌, List, [], ◌∷◌, Option, none,
  some, ◌==◌, ltb, leb, if◌then◌else◌, length, drop, Bytes,
}
use ndppd.Base.Int.{ℤ, pos, ◌-ℤ◌, leb_ℤ}
use ndppd.Address.{Address, reset, set_prefix}
use ndppd.World.{Route, World}

unfoldable pub is_between : ℕ → ℕ → ℕ → Bool
is_between lo hi c = leb lo c && leb c hi

unfoldable pub to_lower : ℕ → ℕ
to_lower c = if is_between 65 90 c then c + 32 else c

unfoldable pub is_xdigit : ℕ → Bool
is_xdigit c = is_between 48 57 c || is_between 97 102 c || is_between 65 70 c

unfoldable pub is_space : ℕ → Bool
is_space c = is_between 9 13 c || (c == 32)

-- What the two branches of `hexdec` make of a digit.
unfoldable pub digit_value : ℕ → ℕ
digit_value c = if is_between 48 57 c then c - 48 else (c - 97) + 10

-- `route::hexdec(str, buf, size)`: the bytes that it writes, whose count it returns.
unfoldable pub hexdec : Bytes → ℕ → List ℕ
hexdec str zero = []
hexdec (c1 ∷ c2 ∷ str) (suc size) =
    let rest = hexdec str size in
    if is_xdigit (to_lower c1) && is_xdigit (to_lower c2)
    then bit_or (digit_value (to_lower c1) * 16 % 256) (digit_value (to_lower c2)) ∷ rest
    else []
hexdec _ (suc size) = []

unfoldable pub skip_space : Bytes → Bytes
skip_space [] = []
skip_space (c ∷ str) = let rest = skip_space str in if is_space c then rest else c ∷ str

unfoldable pub take_word : Bytes → Bytes
take_word [] = []
take_word (c ∷ str) = let rest = take_word str in if (c == 0) || is_space c then [] else c ∷ rest

-- `route::token(str)`
unfoldable pub token : Bytes → Bytes
token str = take_word (skip_space str)

-- What `getline` puts into the buffer and what `gcount()` is, until the end of the file. The newline
-- is counted, and the last line has none.
unfoldable pub with_byte : ℕ → List (Bytes × ℕ) → List (Bytes × ℕ)
with_byte c [] = (c ∷ [], 1) ∷ []
with_byte c ((line, n) ∷ rest) = (c ∷ line, suc n) ∷ rest

unfoldable pub get_lines : Bytes → List (Bytes × ℕ)
get_lines [] = ([], 0) ∷ []
get_lines (c ∷ text) =
    let rest = get_lines text in if c == 10 then ([], 1) ∷ rest else with_byte c rest

abbrev new_route : Address → Bytes → Route
new_route a ifname = record { addr = a; ifname = ifname; ifa = none }

-- The body of the loop of `route::load`, for a line that is long enough.
unfoldable pub route_of_line : Bytes → Option Route
route_of_line buf =
    let bytes = hexdec buf 16 in
    if length bytes == 16
    then (elim (hexdec (drop 33 buf) 1) [
      | [] ↦ none
      | pfx ∷ _ ↦
          some (
            new_route (set_prefix (pos pfx) (record reset { addr = bytes })) (token (drop 141 buf)))
    ])
    else none

-- The body of the loop of `address::load`.
unfoldable pub address_of_line : Bytes → Option Route
address_of_line buf =
    let bytes = hexdec buf 16 in
    if length bytes == 16
    then some
        (new_route (set_prefix (pos 128) (record reset { addr = bytes })) (token (drop 45 buf)))
    else none

-- The loop of either, over the lines whose `gcount()` is not below the limit.
unfoldable pub load_lines : (Bytes → Option Route) → ℕ → List (Bytes × ℕ) → List Route
load_lines of_line least [] = []
load_lines of_line least ((line, n) ∷ lines) =
    let rest = load_lines of_line least lines in
    if ltb n least then rest else elim (of_line line) [ none ↦ rest | some r ↦ r ∷ rest ]

unfoldable pub load_table : (Bytes → Option Route) → ℕ → Option Bytes → List Route
load_table of_line least none = []
load_table of_line least (some text) = load_lines of_line least (get_lines text)

-- `route::load(path)` and `address::load(path)`: the new table.
unfoldable pub load_routes : Option Bytes → List Route
load_routes file = load_table route_of_line 149 file

unfoldable pub load_addresses : Option Bytes → List Route
load_addresses file = load_table address_of_line 53 file

-- `_ttl` and `_c_ttl`
pub record Timer : Type 0 where
  pub ttl : ℤ
  pub left : ℤ

-- The countdown of `route::update` and `address::update`: whether the table is read again.
unfoldable pub count_down : ℤ → Timer → Bool × Timer
count_down elapsed t =
    let left = t.left -ℤ elapsed in
    if leb_ℤ left (pos 0)
    then (true, record t { left = t.ttl })
    else (false, record t { left = left })

-- `route::update(elapsed_time)`
unfoldable pub update_routes : Option Bytes → ℤ → Timer → World → Timer × World
update_routes file elapsed t w =
    let (due, t') = count_down elapsed t in
    if due then (t', record w { routes = load_routes file }) else (t', w)

-- `address::update(elapsed_time)`
unfoldable pub update_addresses : Option Bytes → ℤ → Timer → World → Timer × World
update_addresses file elapsed t w =
    let (due, t') = count_down elapsed t in
    if due then (t', record w { addresses = load_addresses file }) else (t', w)
