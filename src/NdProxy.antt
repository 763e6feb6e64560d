-- ===== src/NdProxy.antt =====
-- nd-proxy.c: the proxy of router solicitations and advertisements, a program of its own. A frame is
-- the buffer of `handle_fd`, 4096 bytes, and the length that `recvmsg` has given.
pub mod Checksum
pub mod Forward
pub mod Options
pub mod Words
pub mod Rounds
pub mod Update
use Prim.Native.Nat.{bit_and, bit_or}
use ndppd.Base.{
  ℕ, zero, suc, ◌+◌, ◌-◌, ◌*◌, ◌/◌, ◌%◌, ◌^◌, Bool, true, false, not, ◌&&◌, ◌||◌, List, [], ◌∷◌,
  ◌++◌, Option, none, some, ltb, ◌==◌, if◌then◌else◌, length, get_elem?, take, Bytes, equal_text,
  codes,
}
use ndppd.Iface.Packets.{◌>>=◌, copy_to}

-- iface_t
pub record Port : Type 0 where
  pub name : Bytes
  pub flags : ℕ
  pub ifindex : ℕ
  pub hwaddr : Bytes

-- What `sendto` is given: `sll_ifindex` and the frame.
pub record Frame : Type 0 where
  pub ifindex : ℕ
  pub bytes : Bytes

-- The offset of the options, by the type of the message.
unfoldable pub option_start : ℕ → Option ℕ
option_start type =
    if type == 133
    then some 8
    else if type == 134
    then some 16
    else if (type == 135) || (type == 136)
    then some 24
    else if type == 137
    then some 40
    else none

-- The loop of `find_option` from byte `pos`, with `len` bytes left; `none` where it reads past the end
-- of the buffer. Every round takes two bytes or more, so that `len` rounds are enough.
unfoldable pub find_from : ℕ → Bytes → ℕ → ℕ → ℕ → Option (Option ℕ)
find_from zero buf pos len type = some none
find_from (suc rounds) buf pos len type = if len == 0 then some none else (do
  size ← get_elem? buf (pos + 1)
  found ← get_elem? buf pos
  let rest = find_from rounds buf (pos + (2 + size * 8)) (len - (2 + size * 8)) type in
      if found == type then some (some pos) else rest)

-- `find_option` on the message behind the two headers, 14 and 40 bytes, of which `len` bytes are left.
unfoldable pub find_option : ℕ → ℕ → Bytes → Option (Option ℕ)
find_option len type buf = get_elem? buf 54 >>= λ icmp_type. elim (option_start icmp_type) [
  | none ↦ some none
  | some start ↦ find_from (len - start) buf (54 + start) (len - start) type
]

-- `while (sum >> 16)`, with a number of rounds.
unfoldable pub fold_carry : ℕ → ℕ → ℕ
fold_carry zero sum = sum
fold_carry (suc rounds) sum =
    let rest = fold_carry rounds (sum % 2 ^ 16 + sum / 2 ^ 16) in
    if sum / 2 ^ 16 == 0 then sum else rest

-- `~` on a uint16_t
abbrev pub complement : ℕ → ℕ
complement x = 2 ^ 16 - 1 - x % 2 ^ 16

-- The checksum when a word of the message changes from `old` to `new`.
unfoldable pub update_cksum : ℕ → ℕ → ℕ → ℕ
update_cksum cksum old new = complement (fold_carry 2 (complement cksum + complement old + new))

-- ntohs and htons
unfoldable pub word_at : ℕ → Bytes → Option ℕ
word_at off buf = do
  high ← get_elem? buf off
  low ← get_elem? buf (suc off)
  some (high * 256 + low)

unfoldable pub word_bytes : ℕ → Bytes
word_bytes w = w / 256 % 256 ∷ w % 256 ∷ []

-- The body of the loop over the words of the address, at `slla`.
unfoldable pub update_word : Bytes → ℕ → ℕ → Bytes → Option Bytes
update_word mac slla i buf = do
  cksum ← word_at 56 buf
  old ← word_at (slla + 2 * i) buf
  new ← word_at (2 * i) mac
  copy_to 56 (word_bytes (update_cksum cksum old new)) buf

unfoldable pub update_slla_option : ℕ → Bytes → Bytes → Option Bytes
update_slla_option len mac buf = find_option len 1 buf >>= λ found. elim found [
  | none ↦ some buf
  | some pos ↦ (do
    b1 ← update_word mac (pos + 2) 0 buf
    b2 ← update_word mac (pos + 2) 1 b1
    b3 ← update_word mac (pos + 2) 2 b2
    copy_to (pos + 2) (take 6 mac) b3)
]

-- The two tests of `proxy_rsra`, on the first byte of the source and of the destination, and on the
-- first two of the frame.
unfoldable pub is_ignored : ℕ → ℕ → ℕ → ℕ → Bool
is_ignored src dst d0 d1 =
    (src == 255) || (not (dst == 255) || (not (d0 == 0x33) && not (d1 == 0x33)))

-- `proxy_rsra`: the buffer afterwards, and what is sent.
unfoldable pub proxy_rsra : Port → ℕ → Bytes → Option (Bytes × List Frame)
proxy_rsra p len buf = do
  src ← get_elem? buf 22
  dst ← get_elem? buf 38
  d0 ← get_elem? buf 0
  d1 ← get_elem? buf 1
  if is_ignored src dst d0 d1 then some (buf, []) else (do
    b1 ← update_slla_option (len - 54) p.hwaddr buf
    b2 ← copy_to 6 (take 6 p.hwaddr) b1
    some (b2, record { ifindex = p.ifindex; bytes = take len b2 } ∷ []))

-- The loop over `ifaces`, from number `k` on, for a frame that has come in on number `n`.
unfoldable pub forward : ℕ → ℕ → List Port → ℕ → Bytes → Option (Bytes × List Frame)
forward n k [] len buf = some (buf, [])
forward n k (p ∷ ports) len buf = elim (k == n) [
  | true ↦ forward n (suc k) ports len buf
  | false ↦ proxy_rsra p len buf >>= λ sent.
      forward n (suc k) ports len sent.0 >>= λ rest. some (rest.0, sent.1 ++ rest.1)
]

-- PROXY_RS for a solicitation, PROXY_RA for an advertisement
unfoldable pub is_proxied : ℕ → ℕ → Bool
is_proxied type flags =
    ((type == 133) && not (bit_and flags 1 == 0)) || ((type == 134) && not (bit_and flags 2 == 0))

-- `handle_fd` on interface `n`: what it sends. `recvmsg` fails, or gives a length and the buffer.
unfoldable pub handle_fd : List Port → ℕ → Option (ℕ × Bytes) → Option (List Frame)
handle_fd ports n none = some []
handle_fd ports n (some (len, buf)) = if ltb len (14 + 40 + 8) then some [] else (do
  p ← get_elem? ports n
  type ← get_elem? buf 54
  if is_proxied type p.flags then (forward n 0 ports len buf >>= λ r. some r.1) else some [])

-- The tokens of `strtok`: empty ones are passed over. `word` is the one that has begun.
unfoldable pub tokens : Bytes → Bytes → List Bytes
tokens word [] = if length word == 0 then [] else word ∷ []
tokens word (c ∷ text) = elim (c == 44) [
  | true ↦ (let rest = tokens [] text in if length word == 0 then rest else word ∷ rest)
  | false ↦ tokens (word ++ c ∷ []) text
]

unfoldable pub flag_of : Bytes → Option ℕ
flag_of token =
    if equal_text (codes "NS") token
    then some 4
    else if equal_text (codes "NA") token
    then some 8
    else if equal_text (codes "RA") token
    then some 2
    else if equal_text (codes "RS") token
    then some 1
    else if equal_text (codes "RD") token
    then some 16
    else none

unfoldable pub add_flags : ℕ → List Bytes → Option ℕ
add_flags flags [] = some flags
add_flags flags (token ∷ more) = flag_of token >>= λ f. add_flags (bit_or flags f) more

-- The text in front of the first colon, and what is behind it if there is one.
unfoldable pub at_colon : Bytes → Bytes × Option Bytes
at_colon [] = ([], none)
at_colon (c ∷ text) =
    let rest = at_colon text in if c == 58 then ([], some text) else (c ∷ rest.0, rest.1)

-- `parse_interface`, with the name and the flags of the result.
unfoldable pub parse_interface : Bytes → Option (Bytes × ℕ)
parse_interface desc = elim (at_colon desc).1 [
  | none ↦ some ((at_colon desc).0, bit_or 1 2)
  | some text ↦ (add_flags 0 (tokens [] text) >>= λ flags. some ((at_colon desc).0, flags))
]
