-- ===== src/Tables/Digits.antt =====
-- src/route.cc, `hexdec` and `token`, against printing.
use Prim.Native.Nat.{bit_or}
use ndppd.Base.{
  ℕ, zero, suc, ◌+◌, ◌*◌, ◌/◌, ◌%◌, ◌≤◌, ◌≡◌, refl, ◌∙◌, ap, Bool, true, false, ◌&&◌, List, [], ◌∷◌,
  ◌++◌, ◌==◌, ltb, if◌then◌else◌, length, arith, holds_from, holds_from-at, ==_iff, Bytes,
}
use ndppd.Address.Subnet.{AllBytes}
use ndppd.Tables.{
  to_lower, is_xdigit, digit_value, is_between, hexdec, is_space, skip_space, take_word, token,
}

-- A digit as the kernel prints it.
abbrev pub print_digit : ℕ → ℕ
print_digit d = if ltb d 10 then 48 + d else 87 + d

abbrev pub print_hex : List ℕ → Bytes
print_hex [] = []
print_hex (b ∷ bs) = print_digit (b / 16) ∷ print_digit (b % 16) ∷ print_hex bs

abbrev are_digits : ℕ → Bool
are_digits b =
    is_xdigit (to_lower (print_digit (b / 16))) && is_xdigit (to_lower (print_digit (b % 16)))

abbrev byte_of : ℕ → ℕ
byte_of b =
    bit_or (digit_value (to_lower (print_digit (b / 16))) * 16 % 256)
      (digit_value (to_lower (print_digit (b % 16))))

abbrev reads_back : ℕ → Bool
reads_back b = are_digits b && (byte_of b == b)

all_read_back : holds_from reads_back 0 256 ≡ true
unfolding holds_from to_lower is_xdigit digit_value is_between
all_read_back = refl

first : (a b : Bool) → (a && b) ≡ true → a ≡ true
first true b h = refl
first false b h = h

second : (a b : Bool) → (a && b) ≡ true → b ≡ true
second true b h = h
second false b h = absurd cc

-- `hexdec` reads back the bytes of which two hexadecimal digits each are printed, whatever
-- follows them.
pub hexdec-print_hex :
    (bs : List ℕ) (rest : Bytes) → AllBytes bs → hexdec (print_hex bs ++ rest) (length bs) ≡ bs
unfolding hexdec
hexdec-print_hex [] rest h = refl
hexdec-print_hex (b ∷ bs) rest h =
    let one = holds_from-at reads_back 0 256 b all_read_back (omega arith) h.0 in
    let same : byte_of b ≡ b =
      (==_iff (byte_of b) b).0 (second (are_digits b) (byte_of b == b) one) in
    let good : are_digits b ≡ true = first (are_digits b) (byte_of b == b) one in
    rw (good, same, hexdec-print_hex bs rest h.1) refl

-- The count that `hexdec` returns is within its bound, and it writes bytes.
pub hexdec-bounds : (str : Bytes) (size : ℕ) → length (hexdec str size) ≤ size
unfolding hexdec
hexdec-bounds str zero = omega arith
hexdec-bounds [] (suc size) = omega arith
hexdec-bounds (c ∷ []) (suc size) = omega arith
hexdec-bounds (c1 ∷ c2 ∷ str) (suc size) = ground (arith, hexdec-bounds str size)

-- A word that has neither a space nor a NUL.
abbrev pub IsWord : Bytes → Type 0
IsWord [] = Unit {0}
IsWord (c ∷ w) = ((c == 0) ≡ false) × (is_space c ≡ false) × IsWord w

abbrev pub all_spaces : ℕ → Bytes
all_spaces zero = []
all_spaces (suc n) = 32 ∷ all_spaces n

skip-all_spaces : (n : ℕ) (str : Bytes) → skip_space (all_spaces n ++ str) ≡ skip_space str
unfolding skip_space is_space is_between
skip-all_spaces zero str = refl
skip-all_spaces (suc n) str = skip-all_spaces n str

take_word-IsWord : (w : Bytes) → IsWord w → take_word w ≡ w
unfolding take_word
take_word-IsWord [] h = refl
take_word-IsWord (c ∷ w) h = rw (h.0, h.1, take_word-IsWord w h.2) refl

skip_space-IsWord : (w : Bytes) → IsWord w → skip_space w ≡ w
unfolding skip_space
skip_space-IsWord [] h = refl
skip_space-IsWord (c ∷ w) h = rw h.1 refl

-- `token` finds a word that stands behind blanks at the end of a line.
pub token-padded : (n : ℕ) (w : Bytes) → IsWord w → token (all_spaces n ++ w) ≡ w
unfolding token
token-padded n w h =
    ap take_word (skip-all_spaces n w ∙ skip_space-IsWord w h) ∙ take_word-IsWord w h
