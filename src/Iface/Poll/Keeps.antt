-- ===== src/Iface/Poll/Keeps.antt =====
-- src/iface.cc: the sessions of the proxies in `poll_all`.
use ndppd.Base.{
  ℕ, suc, ◌%◌, ◌*◌, Bool, true, false, not, List, [], ◌∷◌, Option, some, inl, inr, Bool-cases, ◌==◌,
  length, get_elem?,
}
use ndppd.Address.{Address}
use ndppd.World.{World, ok, deref, Sockets, Ensures, Ensures-bind}
use ndppd.Proxy.Listed.{Listed}
use ndppd.Iface.{on_solicit, on_advert}
use ndppd.Iface.Keeps.{Ensures-if, Ensures-look, on_solicit-Listed, on_advert-Listed}
use ndppd.Iface.Map.{iface_map, first}
use ndppd.Iface.Packets.{Reading, failure, loopback, reading, read_solicit, read_advert}
use ndppd.Iface.Poll.{
  Event, Kernel, Polled, poll_failed, timed_out, ready, refresh_pollfds, at, advance, receive,
  receive_solicit, receive_advert, visit, poll_loop, poll_all,
}

abbrev Stays : Bool × World → Type 0
Stays r = Listed r.1

refresh_pollfds-Listed : (w : World) → Listed w → Listed (refresh_pollfds w)
unfolding refresh_pollfds
refresh_pollfds-Listed w v = elim (Bool-cases w.map_dirty) [ inl e ↦ rw e v | inr e ↦ rw e v ]

module _ (sys : Sockets) where
  solicit_read :
      (n : ℕ) (w : World) (r : Reading (Address × Address × Address))
      → Listed w
      → Ensures Listed (elim r [
        | failure ↦ ok w
        | loopback ↦ ok w
        | reading len (saddr, daddr, taddr) ↦ on_solicit sys n saddr taddr w
      ])
  solicit_read n w failure v = v
  solicit_read n w loopback v = v
  solicit_read n w (reading len (saddr, daddr, taddr)) v = on_solicit-Listed sys n saddr taddr w v

  advert_read :
      (n : ℕ) (w : World) (r : Reading (Address × Address))
      → Listed w
      → Ensures Listed (elim r [
        | failure ↦ ok w
        | loopback ↦ ok w
        | reading len (saddr, taddr) ↦ on_advert n saddr taddr w
      ])
  advert_read n w failure v = v
  advert_read n w loopback v = v
  advert_read n w (reading len (saddr, taddr)) v = on_advert-Listed n saddr taddr w v

  module _ (kernel : Kernel) where
    receive-Listed : (k n : ℕ) (w : World) → Listed w → Ensures Listed (receive sys kernel k n w)
    unfolding receive receive_solicit receive_advert
    receive-Listed k n w v =
        Ensures-if Listed (k % 2 == 1) _ _
          (Ensures-look Listed (deref (get_elem? w.ifaces n)) _ (λ f.
            solicit_read n w (read_solicit (kernel.recv k f.pfd) (kernel.stack k) w.addresses) v))
          (Ensures-look Listed (deref (get_elem? w.ifaces n)) _ (λ f.
            advert_read n w (read_advert (kernel.recv k f.ifd) (kernel.stack k) w.addresses) v))

    visit-Listed :
        (k n : ℕ) (e : Event) (w : World)
        → Listed w
        → Ensures Stays (visit e (receive sys kernel k n) w)
    unfolding visit
    visit-Listed k n e w v = Ensures-if Stays e.error _ _ v (
        Ensures-if Stays (not e.readable) _ _ v (
          Ensures-bind Listed Stays (receive sys kernel k n w) _ (receive-Listed k n w v)
            (λ w' h. h)))

    poll_loop-Listed :
        (k : ℕ) (it : Option ℕ) (es : List Event) (w : World)
        → Listed w
        → Ensures Stays (poll_loop sys kernel k it es w)
    unfolding poll_loop
    poll_loop-Listed k it [] w v = v
    poll_loop-Listed k it (e ∷ es) w v = Ensures-look Stays (at it) _ (λ _.
        Ensures-look Stays (at (advance k it w.ifaces)) _ (λ n.
          Ensures-bind Stays Stays (visit e (receive sys kernel k n) w) _ (visit-Listed k n e w v)
            (λ r h. elim (Bool-cases r.0) [
              | inr stop ↦ rw stop h
              | inl on ↦ rw on (poll_loop-Listed (suc k) (some n) es r.1 h)
            ])))

    polled-Listed :
        (w : World) (p : Polled)
        → Listed w
        → Ensures Stays (elim p [
          | poll_failed ↦ ok (false, w)
          | timed_out ↦ ok (true, w)
          | ready events ↦ poll_loop sys kernel 0 (first (iface_map w.ifaces)) events w
        ])
    polled-Listed w poll_failed v = v
    polled-Listed w timed_out v = v
    polled-Listed w (ready events) v = poll_loop-Listed 0 _ events w v

    pub poll_all-Listed : (w : World) → Listed w → Ensures Stays (poll_all sys kernel w)
    unfolding poll_all
    poll_all-Listed w v =
        let w' = refresh_pollfds w in
        let v' = refresh_pollfds-Listed w v in
        Ensures-if Stays (length w'.pollfds == 0) _ _ v' (
          Ensures-if Stays (not (length w'.pollfds == length (iface_map w'.ifaces) * 2)) _ _ tt
            (polled-Listed w' (kernel.poll w'.pollfds) v'))
