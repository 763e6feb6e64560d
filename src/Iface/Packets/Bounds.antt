-- ===== src/Iface/Packets/Bounds.antt =====
-- src/iface.cc: the buffers of `write_solicit` and `write_advert`, and where the packets go.
use ndppd.Base.{
  ℕ, zero, suc, ◌+◌, ◌<◌, ◌≡◌, refl, Bool, true, false, List, [], ◌∷◌, ◌++◌, some, length, drop,
  arith, Bytes, Bool-cases, inl, inr, sym, get_or,
}
use ndppd.Address.{Address, is_multicast}
use ndppd.Address.Subnet.{AllBytes}
use ndppd.Iface.Packets.{
  Packet, solicited_node, copy_byte, multicast, write_solicit, advert_flags, write_advert,
}
use ndppd.Iface.Packets.Layout.{
  message, packet, length-message, write_solicit-message, write_advert-message,
}

-- 32 bytes.
abbrev pub IsMessage : Bytes → Type 0
IsMessage bytes = (length bytes ≡ 32) × AllBytes bytes

AllBytes-append : (xs ys : Bytes) → AllBytes xs → AllBytes ys → AllBytes (xs ++ ys)
AllBytes-append [] ys h k = k
AllBytes-append (x ∷ xs) ys h k = (h.0, AllBytes-append xs ys h.1 k)

message-IsMessage :
    (type flags option : ℕ) (target hwaddr : List ℕ)
    → length target ≡ 16
    → length hwaddr ≡ 6
    → type < 256
    → flags < 256
    → option < 256
    → AllBytes target
    → AllBytes hwaddr
    → IsMessage (message type flags target option hwaddr)
message-IsMessage type flags option target hwaddr ht hh lt lf lo bt bh =
    let zero_byte : 0 < 256 = omega arith in
    let one_byte : 1 < 256 = omega arith in
    let end = AllBytes-append target (option ∷ 1 ∷ hwaddr) bt (lo, (one_byte, bh)) in
    (
      length-message type flags option target hwaddr ht hh,
      (lt, (zero_byte, (zero_byte, (zero_byte, (lf, (zero_byte, (zero_byte, (zero_byte, end)))))))),
    )

byte_of_flags : (daddr : Address) (router : Bool) → advert_flags daddr router < 256
unfolding advert_flags
byte_of_flags daddr true = elim (Bool-cases (is_multicast daddr)) [
  | inl e ↦ rw e (omega arith)
  | inr e ↦ rw e (omega arith)
]
byte_of_flags daddr false = elim (Bool-cases (is_multicast daddr)) [
  | inl e ↦ rw e (omega arith)
  | inr e ↦ rw e (omega arith)
]

last_three :
    (n : ℕ) (xs : List ℕ)
    → length xs ≡ n + 3
    → drop n xs ≡ get_or xs n 0 ∷ get_or xs (suc n) 0 ∷ get_or xs (suc (suc n)) 0 ∷ []
last_three zero (x ∷ y ∷ z ∷ []) h = refl
last_three zero [] h = absurd (omega arith)
last_three zero (x ∷ []) h = absurd (omega arith)
last_three zero (x ∷ y ∷ []) h = absurd (omega arith)
last_three zero (x ∷ y ∷ z ∷ w ∷ xs) h = absurd (omega arith)
last_three (suc n) [] h = absurd (omega arith)
last_three (suc n) (x ∷ xs) h = last_three n xs (omega arith)

-- The group of the solicited nodes: a multicast address that ends with the target's last three
-- bytes.
solicited_node-group :
    (taddr : Address)
    → length taddr.addr ≡ 16
    → (is_multicast (solicited_node taddr) ≡ true)
      × (drop 13 (solicited_node taddr).addr ≡ drop 13 taddr.addr)
unfolding solicited_node copy_byte multicast is_multicast
solicited_node-group taddr h = (refl, sym (last_three 13 taddr.addr h))

-- For a link-layer address of 6 bytes and a target of 16, neither `write_solicit` nor
-- `write_advert` writes past the end of its buffer, and each gives a message of 32 bytes. A
-- solicitation goes to a multicast address that ends with the last three bytes of its target, an
-- advertisement to the address that is asked for.
pub packets-IsMessage :
    (hwaddr : List ℕ) (daddr taddr : Address) (router : Bool)
    → length hwaddr ≡ 6
    → AllBytes hwaddr
    → length taddr.addr ≡ 16
    → AllBytes taddr.addr
    → ((p : Packet) × (write_solicit hwaddr taddr ≡ some p)
        × IsMessage p.bytes
        × (is_multicast p.daddr ≡ true)
        × (drop 13 p.daddr.addr ≡ drop 13 taddr.addr))
      × ((p : Packet) × (write_advert hwaddr daddr taddr router ≡ some p)
          × IsMessage p.bytes
          × (p.daddr ≡ daddr))
packets-IsMessage hwaddr daddr taddr router hh bh ht bt = (
  (
    packet (solicited_node taddr) (message 135 0 taddr.addr 1 hwaddr),
    write_solicit-message hwaddr hh taddr ht,
    message-IsMessage 135 0 1 taddr.addr hwaddr ht hh (omega arith) (omega arith) (omega arith) bt
        bh,
    (solicited_node-group taddr ht).0,
    (solicited_node-group taddr ht).1,
  ),
  (
    packet daddr (message 136 (advert_flags daddr router) taddr.addr 2 hwaddr),
    write_advert-message hwaddr hh daddr taddr router ht,
    message-IsMessage 136 (advert_flags daddr router) 2 taddr.addr hwaddr ht hh (omega arith)
        (byte_of_flags daddr router) (omega arith) bt bh,
    refl,
  ),
)
