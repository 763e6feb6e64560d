-- ===== src/Iface/Packets.antt =====
-- src/iface.cc: the bytes of the messages, `read`, `read_solicit`, `read_advert`, `write_solicit` and
-- `write_advert`. `recvmsg` and `sendmsg` are the kernel's: the first hands over a receipt, the
-- second takes a packet.
pub mod Layout
pub mod Bounds
pub mod Receive
use Prim.Native.Nat.{bit_or}
use ndppd.Base.{
  ℕ, zero, suc, ◌+◌, ◌*◌, Bool, true, false, not, List, [], ◌∷◌, ◌++◌, Option, none, some, ltb, leb,
  ◌==◌, if◌then◌else◌, length, get_or, set, take, drop, replicate, Bytes,
}
use ndppd.Address.{Address, one_bytes, of_in6, is_multicast}
use ndppd.World.{Route}
use ndppd.Iface.{is_local}

-- What `sendmsg` is given.
pub record Packet : Type 0 where
  pub daddr : Address
  pub bytes : Bytes

infixl 5 ◌>>=◌
abbrev pub ◌>>=◌ : {A B : Type 0} → Option A → (A → Option B) → Option B
none >>= f = none
some a >>= f = f a

-- `memcpy(buf + off, bytes, ...)`, or the fields at `off`: `none` where that is past the end.
unfoldable pub copy_to : ℕ → Bytes → Bytes → Option Bytes
copy_to off bytes buf =
    if leb (off + length bytes) (length buf)
    then some (take off buf ++ (bytes ++ drop (off + length bytes) buf))
    else none

-- `char buf[128]`, zeroed.
abbrev pub empty_buf : Bytes
empty_buf = replicate 128 0

-- The address "ff02::1:ff00:0000".
unfoldable pub multicast : Address
multicast = record {
  addr = 0xff ∷ 0x02 ∷ 0 ∷ 0 ∷ 0 ∷ 0 ∷ 0 ∷ 0 ∷ 0 ∷ 0 ∷ 0 ∷ 0x01 ∷ 0xff ∷ 0 ∷ 0 ∷ 0 ∷ [];
  mask = one_bytes;
}

-- daddr.addr().s6_addr[i] = taddr.const_addr().s6_addr[i]
unfoldable pub copy_byte : Address → ℕ → Address → Address
copy_byte taddr i daddr = record daddr { addr = set daddr.addr i (get_or taddr.addr i 0) }

unfoldable pub solicited_node : Address → Address
solicited_node taddr = copy_byte taddr 15 (copy_byte taddr 14 (copy_byte taddr 13 multicast))

-- `write_solicit(taddr)`, on the interface with this link-layer address. A `nd_neighbor_solicit`
-- has 24 bytes, its target at 8; a `nd_opt_hdr` has 2.
unfoldable pub write_solicit : List ℕ → Address → Option Packet
write_solicit hwaddr taddr = do
  b1 ← copy_to 24 (1 ∷ []) empty_buf
  b2 ← copy_to 25 (1 ∷ []) b1
  b3 ← copy_to 0 (135 ∷ []) b2
  b4 ← copy_to 8 taddr.addr b3
  b5 ← copy_to 26 (take 6 hwaddr) b4
  some (record { daddr = solicited_node taddr; bytes = take 32 b5 })

-- ND_NA_FLAG_SOLICITED and ND_NA_FLAG_ROUTER
unfoldable pub advert_flags : Address → Bool → ℕ
advert_flags daddr router =
    bit_or (if is_multicast daddr then 0 else 0x40) (if router then 0x80 else 0)

-- `write_advert(daddr, taddr, router)`
unfoldable pub write_advert : List ℕ → Address → Address → Bool → Option Packet
write_advert hwaddr daddr taddr router = do
  b1 ← copy_to 24 (2 ∷ []) empty_buf
  b2 ← copy_to 25 (1 ∷ []) b1
  b3 ← copy_to 0 (136 ∷ []) b2
  b4 ← copy_to 4 (advert_flags daddr router ∷ []) b3
  b5 ← copy_to 8 taddr.addr b4
  b6 ← copy_to 26 (take 6 hwaddr) b5
  some (record { daddr = daddr; bytes = take 32 b6 })

-- What `recvmsg` does: it fails, or has the source and a message of which it stores what has room.
pub data Receipt : Type 0 where
  failed : Receipt
  received : List ℕ → Bytes → Receipt

-- `read(fd, saddr, saddr_size, msg, size)`: `none` is -1, else the count, the source and `msg`,
-- which keeps its old bytes behind those received.
unfoldable pub read : Receipt → Bytes → Option (ℕ × List ℕ × Bytes)
read failed msg = none
read (received from bytes) msg =
    let got = take (length msg) bytes in
    if ltb (length got) 8 then none else some (length got, from, got ++ drop (length got) msg)

-- The address in sixteen bytes of a message.
unfoldable pub in6_at : ℕ → Bytes → Address
in6_at off msg = of_in6 (take 16 (drop off msg))

-- A result of -1, of 0, and a positive one with the addresses that are set.
pub data Reading (A : Type 0) : Type 0 where
  failure loopback : Reading A
  reading : ℕ → A → Reading A

-- `read_solicit(saddr, daddr, taddr)`: a frame has its Ethernet header, 14 bytes, then the IPv6
-- header, 40 bytes with the source at 8 and the destination at 24, then the message.
unfoldable pub read_solicit : Receipt → Bytes → List Route → Reading (Address × Address × Address)
read_solicit r msg addresses = elim (read r msg) [
  | none ↦ failure
  | some (len, from, msg') ↦
      if is_local (in6_at 22 msg') addresses
      then loopback
      else reading len (in6_at 22 msg', in6_at 38 msg', in6_at 62 msg')
]

-- `read_advert(saddr, taddr)`
unfoldable pub read_advert : Receipt → Bytes → List Route → Reading (Address × Address)
read_advert r msg addresses = elim (read r msg) [
  | none ↦ failure
  | some (len, from, msg') ↦
      if is_local (of_in6 from) addresses
      then loopback
      else if not (get_or msg' 0 0 == 136)
      then failure
      else reading len (of_in6 from, in6_at 8 msg')
]
