-- ===== src/Iface/Poll/Visits.antt =====
-- src/iface.cc: no message that `poll_all` reads ends in a fault where the rules have interfaces.
use ndppd.Base.{get_below, ℕ, ◌<◌, Bool, not, List, length, get_elem?}
use ndppd.Address.{Address}
use ndppd.World.{Iface, World, Result, ok, Sockets}
use ndppd.Iface.{on_solicit, on_advert}
use ndppd.Iface.Safe.{Safe, Safe-bind, Safe-deref, IsSane}
use ndppd.Iface.Calm.{Safe-if, on_solicit-Safe}
use ndppd.Iface.Relevant.{on_advert-Safe}
use ndppd.Iface.Packets.{Reading, failure, loopback, reading}
use ndppd.Iface.Poll.{Event, Kernel, receive_solicit, receive_advert, visit}

module _ (n : ℕ) (fs : List Iface) where
  abbrev pub Sane : Bool × World → Type 0
  Sane r = IsSane n fs r.1

  solicit_read :
      (sys : Sockets) (i : ℕ) (w : World) (r : Reading (Address × Address × Address))
      → i < length fs
      → IsSane n fs w
      → Safe (IsSane n fs) (elim r [
        | failure ↦ ok w
        | loopback ↦ ok w
        | reading len (saddr, daddr, taddr) ↦ on_solicit sys i saddr taddr w
      ])
  solicit_read sys i w failure lt v = v
  solicit_read sys i w loopback lt v = v
  solicit_read sys i w (reading len (saddr, daddr, taddr)) lt v =
      on_solicit-Safe n fs sys i saddr taddr w lt v

  advert_read :
      (i : ℕ) (w : World) (r : Reading (Address × Address))
      → i < length fs
      → IsSane n fs w
      → Safe (IsSane n fs) (elim r [
        | failure ↦ ok w
        | loopback ↦ ok w
        | reading len (saddr, taddr) ↦ on_advert i saddr taddr w
      ])
  advert_read i w failure lt v = v
  advert_read i w loopback lt v = v
  advert_read i w (reading len (saddr, taddr)) lt v = on_advert-Safe n fs i saddr taddr w lt v

  module _ (sys : Sockets) (kernel : Kernel) where
    pub receive_solicit-Safe :
        (k i : ℕ) (w : World)
        → i < length fs
        → IsSane n fs w
        → Safe (IsSane n fs) (receive_solicit sys kernel k i w)
    unfolding receive_solicit
    receive_solicit-Safe k i w lt v =
        let (f, e) = get_below w.ifaces i (rw v.iface_table lt) in
        Safe-deref (IsSane n fs) (get_elem? w.ifaces i) _ f e (solicit_read sys i w _ lt v)

    pub receive_advert-Safe :
        (k i : ℕ) (w : World)
        → i < length fs
        → IsSane n fs w
        → Safe (IsSane n fs) (receive_advert kernel k i w)
    unfolding receive_advert
    receive_advert-Safe k i w lt v =
        let (f, e) = get_below w.ifaces i (rw v.iface_table lt) in
        Safe-deref (IsSane n fs) (get_elem? w.ifaces i) _ f e (advert_read i w _ lt v)

  pub visit-Safe :
      (e : Event) (read : World → Result World) (w : World)
      → IsSane n fs w
      → Safe (IsSane n fs) (read w)
      → Safe Sane (visit e read w)
  unfolding visit
  visit-Safe e read w v h = Safe-if Sane e.error _ _ v (
      Safe-if Sane (not e.readable) _ _ v (Safe-bind (IsSane n fs) Sane (read w) _ h (λ w' v'. v')))
