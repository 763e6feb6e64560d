-- ===== src/Iface/Packets/Layout.antt =====
-- src/iface.cc: the packets of `write_solicit` and `write_advert`, byte by byte.
use ndppd.Base.{
  ℕ, ◌+◌, ◌≡◌, refl, ap, Bool, List, [], ◌∷◌, ◌++◌, some, length, length-append, take, drop,
  replicate, arith, Bytes,
}
use ndppd.Address.{Address}
use ndppd.Base.{sym, append_assoc, leb, true, ◌∙◌, take_front, drop_front, drop_past, take_all}
use ndppd.Iface.Packets.{
  Packet, ◌>>=◌, copy_to, solicited_node, write_solicit, advert_flags, write_advert,
}

abbrev pub packet : Address → Bytes → Packet
packet daddr bytes = record { daddr = daddr; bytes = bytes }

-- A message of this type: the target, and one option with the link-layer address.
abbrev pub message : ℕ → ℕ → List ℕ → ℕ → List ℕ → Bytes
message type flags target option hwaddr =
    (type ∷ 0 ∷ 0 ∷ 0 ∷ flags ∷ 0 ∷ 0 ∷ 0 ∷ []) ++ (target ++ (option ∷ 1 ∷ hwaddr))

pub length-message :
    (type flags option : ℕ) (target hwaddr : List ℕ)
    → length target ≡ 16
    → length hwaddr ≡ 6
    → length (message type flags target option hwaddr) ≡ 32
length-message type flags option target hwaddr ht hh =
    omega (arith, length-append target (option ∷ 1 ∷ hwaddr))

-- A write over as many bytes as there are.
pub copy_over :
    (off : ℕ) (pre bytes old post : Bytes)
    → length pre ≡ off
    → length old ≡ length bytes
    → copy_to off bytes (pre ++ (old ++ post)) ≡ some (pre ++ (bytes ++ post))
unfolding copy_to
copy_over off pre bytes old post e f =
    let fits : leb (off + length bytes) (length (pre ++ (old ++ post))) ≡ true =
      ground (arith, length-append pre (old ++ post), length-append old post) in
    let behind : drop (off + length bytes) (pre ++ (old ++ post)) ≡ post =
      drop_past off (length bytes) pre (old ++ post) e ∙ drop_front (length bytes) old post f in
    rw (fits, take_front off pre (old ++ post) e, behind) refl

abbrev pub header : ℕ → ℕ → Bytes
header type flags = type ∷ 0 ∷ 0 ∷ 0 ∷ flags ∷ 0 ∷ 0 ∷ 0 ∷ []

module _ (type flags option : ℕ) (target hwaddr : List ℕ) (ht : length target ≡ 16)
    (hh : length hwaddr ≡ 6) where
  front : Bytes
  front = header type flags ++ (target ++ (option ∷ 1 ∷ []))

  front_append :
      (rest : Bytes) → header type flags ++ (target ++ (option ∷ 1 ∷ rest)) ≡ front ++ rest
  unfolding front
  front_append rest =
      ap (λ r. header type flags ++ r) (sym (append_assoc target (option ∷ 1 ∷ []) rest))

  length-front : length front ≡ 26
  unfolding front
  length-front = omega (arith, length-append target (option ∷ 1 ∷ []))

  copy_target :
      copy_to 8 target (header type flags ++ (replicate 16 0 ++ (option ∷ 1 ∷ replicate 102 0)))
      ≡ some (front ++ replicate 102 0)
  copy_target =
      copy_over 8 (header type flags) target (replicate 16 0) (option ∷ 1 ∷ replicate 102 0) refl
        (sym ht)
      ∙ ap some (front_append (replicate 102 0))

  copy_hwaddr :
      copy_to 26 (take 6 hwaddr) (front ++ replicate 102 0)
      ≡ some (message type flags target option hwaddr ++ replicate 96 0)
  copy_hwaddr =
      ap (λ h. copy_to 26 h (front ++ replicate 102 0)) (take_all 6 hwaddr (omega arith))
      ∙ copy_over 26 front hwaddr (replicate 6 0) (replicate 96 0) length-front (sym hh)
      ∙ ap some (
          sym (append_assoc front hwaddr (replicate 96 0))
          ∙ ap (λ r. r ++ replicate 96 0) (sym (front_append hwaddr)))

  -- The end of both functions, behind the fields with known values.
  fill_in :
      (daddr : Address)
      → (copy_to 8 target (header type flags ++ (replicate 16 0 ++ (option ∷ 1 ∷ replicate 102 0)))
          >>= λ b4. copy_to 26 (take 6 hwaddr) b4 >>= λ b5. some (packet daddr (take 32 b5)))
        ≡ some (packet daddr (message type flags target option hwaddr))
  fill_in daddr =
      rw (copy_target, copy_hwaddr)
        (ap (λ b. some (packet daddr b))
          (take_front 32 (message type flags target option hwaddr) (replicate 96 0)
            (length-message type flags option target hwaddr ht hh)))

module _ (hwaddr : List ℕ) (hh : length hwaddr ≡ 6) where
  pub write_solicit-message :
      (taddr : Address)
      → length taddr.addr ≡ 16
      → write_solicit hwaddr taddr
        ≡ some (packet (solicited_node taddr) (message 135 0 taddr.addr 1 hwaddr))
  unfolding write_solicit copy_to
  write_solicit-message taddr ht = fill_in 135 0 1 taddr.addr hwaddr ht hh (solicited_node taddr)

  pub write_advert-message :
      (daddr taddr : Address) (router : Bool)
      → length taddr.addr ≡ 16
      → write_advert hwaddr daddr taddr router
        ≡ some (packet daddr (message 136 (advert_flags daddr router) taddr.addr 2 hwaddr))
  unfolding write_advert copy_to
  write_advert-message daddr taddr router ht =
      fill_in 136 (advert_flags daddr router) 2 taddr.addr hwaddr ht hh daddr
