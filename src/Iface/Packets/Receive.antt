-- ===== src/Iface/Packets/Receive.antt =====
-- src/iface.cc: the packets of `write_solicit` and `write_advert`, read back.
use ndppd.Base.{
  ℕ, ◌+◌, ◌≤◌, ◌≡◌, refl, ap, ◌∙◌, Bool, List, ◌∷◌, ◌++◌, some, length, ltb, length-append, take,
  drop, take_all, take_front, drop_front, arith, Bytes, if◌then◌else◌, false, append_assoc, sym,
}
use ndppd.Address.{Address, of_in6}
use ndppd.World.{Route}
use ndppd.Iface.{is_local}
use ndppd.Iface.Packets.{
  Packet, received, read, in6_at, loopback, reading, solicited_node, write_solicit, advert_flags,
  write_advert, read_solicit, read_advert,
}
use ndppd.Iface.Packets.Layout.{
  packet, header, message, length-message, write_solicit-message, write_advert-message,
}

-- A message that has room and a header.
read-received :
    (n : ℕ) (from bytes msg : Bytes)
    → length bytes ≡ n
    → 8 ≤ n
    → n ≤ length msg
    → read (received from bytes) msg ≡ some (n, from, bytes ++ drop n msg)
unfolding read
read-received n from bytes msg e long room =
    let all : take (length msg) bytes ≡ bytes = take_all (length msg) bytes (omega arith) in
    let enough : ltb n 8 ≡ false = ground arith in rw all (rw e (rw enough refl))

some-inj : {A : Type 0} {a b : A} → some a ≡ some b → a ≡ b
some-inj e = cc

-- An address in the middle of a message.
in6_at-append :
    (off : ℕ) (pre bytes post : Bytes)
    → length pre ≡ off
    → length bytes ≡ 16
    → in6_at off (pre ++ (bytes ++ post)) ≡ of_in6 bytes
unfolding in6_at
in6_at-append off pre bytes post e f =
    ap (λ b. of_in6 (take 16 b)) (drop_front off pre (bytes ++ post) e)
    ∙ ap of_in6 (take_front 16 bytes post f)

-- The target is at 8.
in6_at-message :
    (type flags option : ℕ) (target hwaddr rest : List ℕ)
    → length target ≡ 16
    → in6_at 8 (message type flags target option hwaddr ++ rest) ≡ of_in6 target
in6_at-message type flags option target hwaddr rest ht =
    ap (λ b. in6_at 8 (header type flags ++ b)) (append_assoc target (option ∷ 1 ∷ hwaddr) rest)
    ∙ in6_at-append 8 (header type flags) target (option ∷ 1 ∷ (hwaddr ++ rest)) refl ht

module _ (hwaddr : List ℕ) (hh : length hwaddr ≡ 6) (msg : Bytes) (hm : length msg ≡ 256)
    (addresses : List Route) where
  advert_of :
      (flags : ℕ) (target from : List ℕ)
      → length target ≡ 16
      → read_advert (received from (message 136 flags target 2 hwaddr)) msg addresses ≡ (
          if is_local (of_in6 from) addresses
          then loopback
          else reading 32 (of_in6 from, of_in6 target))
  unfolding read_advert
  advert_of flags target from ht =
      let sized = length-message 136 flags 2 target hwaddr ht hh in
      let m = message 136 flags target 2 hwaddr in
      let at = in6_at-message 136 flags 2 target hwaddr (drop 32 msg) ht in
      rw (read-received 32 from m msg sized (omega arith) (omega arith), read_advert) (rw at refl)

  -- What a machine makes of an advertisement that `write_advert` of another one has sent:
  -- unless the source is one of its own addresses, the result is the source and the target.
  pub read_advert-write_advert :
      (daddr taddr : Address) (router : Bool) (from : List ℕ) (p : Packet)
      → length taddr.addr ≡ 16
      → write_advert hwaddr daddr taddr router ≡ some p
      → read_advert (received from p.bytes) msg addresses ≡ (
          if is_local (of_in6 from) addresses
          then loopback
          else reading 32 (of_in6 from, of_in6 taddr.addr))
  read_advert-write_advert daddr taddr router from p ht e =
      let same : p ≡ packet daddr (message 136 (advert_flags daddr router) taddr.addr 2 hwaddr) =
        some-inj (sym e ∙ write_advert-message hwaddr hh daddr taddr router ht) in
      rw same (advert_of (advert_flags daddr router) taddr.addr from ht)

  module _ (ether start src dst : List ℕ) (he : length ether ≡ 14) (hs : length start ≡ 8)
      (hr : length src ≡ 16) (hd : length dst ≡ 16) where
    -- A frame: the Ethernet header, the IPv6 header, and the message.
    abbrev pub frame : Bytes → Bytes
    frame m = ether ++ (start ++ (src ++ (dst ++ m)))

    src_in_frame : (m rest : Bytes) → in6_at 22 (frame m ++ rest) ≡ of_in6 src
    src_in_frame m rest =
        ap (in6_at 22) (simp append_assoc)
        ∙ in6_at-append 22 (ether ++ start) src (dst ++ (m ++ rest))
            (omega (arith, length-append ether start)) hr

    dst_in_frame : (m rest : Bytes) → in6_at 38 (frame m ++ rest) ≡ of_in6 dst
    dst_in_frame m rest =
        ap (in6_at 38) (simp append_assoc)
        ∙ in6_at-append 38 (ether ++ (start ++ src)) dst (m ++ rest)
            (omega (arith, length-append start src, length-append ether (start ++ src))) hd

    target_in_frame :
        (target rest : List ℕ)
        → length target ≡ 16
        → in6_at 62 (frame (message 135 0 target 1 hwaddr) ++ rest) ≡ of_in6 target
    target_in_frame target rest ht =
        let headers = src ++ (dst ++ header 135 0) in
        let sized : length headers ≡ 40 =
          omega
            (arith, length-append dst (header 135 0), length-append src (dst ++ header 135 0)) in
        let all : length (ether ++ (start ++ headers)) ≡ 62 =
          omega (arith, length-append start headers, length-append ether (start ++ headers)) in
        ap (in6_at 62) (simp append_assoc)
        ∙ in6_at-append 62 (ether ++ (start ++ headers)) target (1 ∷ 1 ∷ (hwaddr ++ rest)) all ht

    length-frame : (m : Bytes) → length (frame m) ≡ 54 + length m
    length-frame m = omega (
      arith,
      length-append dst m,
      length-append src (dst ++ m),
      length-append start (src ++ (dst ++ m)),
      length-append ether (start ++ (src ++ (dst ++ m))),
    )

    solicit_of :
        (target from : List ℕ)
        → length target ≡ 16
        → read_solicit (received from (frame (message 135 0 target 1 hwaddr))) msg addresses ≡ (
            if is_local (of_in6 src) addresses
            then loopback
            else reading 86 (of_in6 src, of_in6 dst, of_in6 target))
    unfolding read_solicit
    solicit_of target from ht =
        let m = message 135 0 target 1 hwaddr in
        let sized : length (frame m) ≡ 86 =
          omega (arith, length-frame m, length-message 135 0 1 target hwaddr ht hh) in
        let rest = drop 86 msg in
        rw (read-received 86 from (frame m) msg sized (omega arith) (omega arith), read_solicit)
          (rw (src_in_frame m rest, dst_in_frame m rest, target_in_frame target rest ht) refl)

    -- What a machine makes of the frame with a solicitation that `write_solicit` of another
    -- one has sent: unless the source is one of its own addresses, the result is the source
    -- and the destination of the IPv6 header, and the target.
    pub read_solicit-write_solicit :
        (taddr : Address) (from : List ℕ) (p : Packet)
        → length taddr.addr ≡ 16
        → write_solicit hwaddr taddr ≡ some p
        → read_solicit (received from (frame p.bytes)) msg addresses ≡ (
            if is_local (of_in6 src) addresses
            then loopback
            else reading 86 (of_in6 src, of_in6 dst, of_in6 taddr.addr))
    read_solicit-write_solicit taddr from p ht e =
        let same : p ≡ packet (solicited_node taddr) (message 135 0 taddr.addr 1 hwaddr) =
          some-inj (sym e ∙ write_solicit-message hwaddr hh taddr ht) in
        rw same (solicit_of taddr.addr from ht)
