-- ===== src/Address/Parse/Decimal.antt =====
-- src/address.cc: a prefix length, printed and read.
use ndppd.Base.{
  ℕ, ◌≤◌, ◌<◌, ◌≡◌, refl, Bool, true, false, ◌&&◌, Option, none, some, ◌==◌, leb, length, arith,
  holds_from, holds_from-at, Bytes, equal_text, equal_text_iff,
}
use ndppd.Base.Int.{ℤ, pos}
use ndppd.Tables.{is_between, is_space, skip_space}
use ndppd.Address.Parse.{is_digit, read_digits, atoi, copy_digits, decimal}

abbrev is_copied : Bytes → Option Bytes → Bool
is_copied buf none = false
is_copied buf (some buf') = equal_text buf buf'

abbrev is_pos : ℕ → ℤ → Bool
is_pos n (pos m) = n == m
is_pos n _ = false

-- Whether the digits of `n` are copied whole, and read as `n`.
abbrev reads_back : ℕ → Bool
reads_back n =
    is_copied (decimal n) (copy_digits 0 (skip_space (decimal n)))
    && (is_pos n (atoi (decimal n)) && leb (length (decimal n)) 3)

all_read_back : holds_from reads_back 0 128 ≡ true
unfolding holds_from copy_digits skip_space decimal atoi read_digits is_digit is_between is_space
    equal_text
all_read_back = refl

is_copied-some : (buf : Bytes) (o : Option Bytes) → is_copied buf o ≡ true → o ≡ some buf
is_copied-some buf none h = cc
is_copied-some buf (some buf') h = ground (arith, equal_text_iff buf buf')

is_pos-pos : (n : ℕ) (z : ℤ) → is_pos n z ≡ true → z ≡ pos n
is_pos-pos n (pos m) h = ground arith
is_pos-pos n (ℤ.negsuc m) h = cc

both : (a b : Bool) → (a && b) ≡ true → (a ≡ true) × (b ≡ true)
both true true h = (refl, refl)
both true false h = cc
both false b h = cc

-- A prefix length below 128.
pub decimal_lem :
    (n : ℕ)
    → n < 128
    → (copy_digits 0 (skip_space (decimal n)) ≡ some (decimal n))
      × (atoi (decimal n) ≡ pos n)
      × (length (decimal n) ≤ 3)
decimal_lem n lt =
    let all = holds_from-at reads_back 0 128 n all_read_back (omega arith) lt in
    let (copied, rest) = both _ _ all in
    let (value, short) = both _ _ rest in
    (is_copied-some _ _ copied, is_pos-pos n _ value, ground arith)
