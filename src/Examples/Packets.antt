-- ===== src/Examples/Packets.antt =====
-- src/iface.cc: packets and rounds of `poll_all` at concrete inputs.
use ndppd.Base.{
  ℕ, ◌≡◌, refl, true, false, List, [], ◌∷◌, ◌++◌, some, drop, replicate, arith, if◌then◌else◌,
}
use ndppd.Address.{of_in6, is_multicast}
use ndppd.Conf.{before}
use ndppd.Iface.{is_local}
use ndppd.Iface.Map.{iface_map, map_from, insert_name, first}
use ndppd.Iface.Packets.{
  Packet, received, copy_to, loopback, reading, solicited_node, write_solicit, write_advert,
  advert_flags, read_solicit, read_advert,
}
use ndppd.Iface.Packets.Layout.{packet, message, write_solicit-message}
use ndppd.Iface.Packets.Bounds.{IsMessage, packets-IsMessage}
use ndppd.Iface.Packets.Receive.{read_advert-write_advert, read_solicit-write_solicit}
use ndppd.Iface.Poll.{Event, poll_loop}
use ndppd.Iface.Poll.Pairs.{by_pairs, poll_loop-by_pairs}
use ndppd.Examples.Proxies.{host, no_sockets}
use ndppd.Examples.Turns.{idle, idle-IsSane, first_kernel}

abbrev hwaddr : List ℕ
hwaddr = 2 ∷ 0 ∷ 0 ∷ 0x5e ∷ 0x10 ∷ 0x01 ∷ []

packets-IsMessage_example :
    ((p : Packet) × (write_solicit hwaddr (host 5) ≡ some p)
      × IsMessage p.bytes
      × (is_multicast p.daddr ≡ true)
      × (drop 13 p.daddr.addr ≡ drop 13 (host 5).addr))
    × ((p : Packet) × (write_advert hwaddr (host 7) (host 5) true ≡ some p)
        × IsMessage p.bytes
        × (p.daddr ≡ host 7))
packets-IsMessage_example =
    packets-IsMessage hwaddr (host 7) (host 5) true refl (omega arith) refl (omega arith)

read_advert-write_advert_example :
    read_advert
      (received (host 5).addr (message 136 0x40 (host 5).addr 2 hwaddr))
      (replicate 256 0)
      []
    ≡ (if is_local (of_in6 (host 5).addr) []
        then loopback
        else reading 32 (of_in6 (host 5).addr, of_in6 (host 5).addr))
unfolding write_advert copy_to advert_flags is_multicast
read_advert-write_advert_example =
    read_advert-write_advert hwaddr refl (replicate 256 0) refl [] (host 7) (host 5) false
      (host 5).addr (packet (host 7) (message 136 0x40 (host 5).addr 2 hwaddr)) refl refl

read_solicit-write_solicit_example :
    read_solicit
      (received [] (
        replicate 14 0
        ++ (replicate 8 0
            ++ ((host 7).addr ++ ((host 9).addr ++ message 135 0 (host 5).addr 1 hwaddr)))))
      (replicate 256 0)
      []
    ≡ (if is_local (of_in6 (host 7).addr) []
        then loopback
        else reading 86 (of_in6 (host 7).addr, of_in6 (host 9).addr, of_in6 (host 5).addr))
read_solicit-write_solicit_example =
    read_solicit-write_solicit hwaddr refl (replicate 256 0) refl [] (replicate 14 0)
      (replicate 8 0) (host 7).addr (host 9).addr refl refl refl refl (host 5) []
      (packet (solicited_node (host 5)) (message 135 0 (host 5).addr 1 hwaddr)) refl
      (write_solicit-message hwaddr refl (host 5) refl)

abbrev all_readable : List Event
all_readable = replicate 4 (record { error = false; readable = true })

poll_loop-by_pairs_example :
    poll_loop no_sockets first_kernel 0
      (first (iface_map idle.world.ifaces))
      all_readable
      idle.world
    ≡ by_pairs no_sockets first_kernel 0 (iface_map idle.world.ifaces) all_readable idle.world
unfolding iface_map map_from insert_name before
poll_loop-by_pairs_example =
    poll_loop-by_pairs 1 idle.world.ifaces no_sockets first_kernel all_readable idle.world refl
      idle-IsSane
