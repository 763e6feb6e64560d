-- ===== src/Iface/Poll/Safe.antt =====
-- src/iface.cc: `poll_all` in a daemon with interface rules alone.
use ndppd.Base.{
  ℕ, suc, ◌*◌, ◌≡◌, refl, ap, ◌∙◌, Bool, true, false, List, [], ◌∷◌, inl, inr, Bool-cases, ◌==◌,
  length, arith,
}
use ndppd.Base.Int.{ℤ}
use ndppd.World.{Iface, World, Result, ok, Sockets}
use ndppd.Iface.Safe.{Safe, Safe-bind, IsSane}
use ndppd.Iface.Calm.{Safe-if}
use ndppd.Iface.Map.{Entry, iface_map, first, fixup_pollfds}
use ndppd.Iface.Map.Walk.{Within, iface_map-Within, length-pollfds}
use ndppd.Iface.Poll.{
  Event, Kernel, Polled, poll_failed, timed_out, ready, refresh_pollfds, receive_solicit,
  receive_advert, visit, poll_loop, poll_all,
}
use ndppd.Iface.Poll.Visits.{Sane, receive_solicit-Safe, receive_advert-Safe, visit-Safe}
use ndppd.Iface.Poll.Pairs.{continue_with, by_pairs, poll_loop-by_pairs}

-- `poll` gives an event for every descriptor that it is asked about.
abbrev pub IsPolling : Kernel → Type 0
IsPolling kernel =
    (fds : List ℤ) (events : List Event)
    → kernel.poll fds ≡ ready events
    → length events ≡ length fds

module _ (n : ℕ) (fs : List Iface) (sys : Sockets) (kernel : Kernel) where
  continue-Safe :
      (r : Bool × World) (f : World → Result (Bool × World))
      → Sane n fs r
      → ((w : World) → IsSane n fs w → Safe (Sane n fs) (f w))
      → Safe (Sane n fs) (continue_with r f)
  continue-Safe r f v h = elim (Bool-cases r.0) [ inr stop ↦ rw stop v | inl on ↦ rw on (h r.1 v) ]

  by_pairs-Safe :
      (map : List Entry) (k : ℕ) (es : List Event) (w : World)
      → Within 0 (length fs) map
      → IsSane n fs w
      → Safe (Sane n fs) (by_pairs sys kernel k map es w)
  by_pairs-Safe [] k es w h v = v
  by_pairs-Safe ((key, i) ∷ map) k [] w h v = v
  by_pairs-Safe ((key, i) ∷ map) k (e ∷ []) w h v = v
  by_pairs-Safe ((key, i) ∷ map) k (a ∷ b ∷ es) w h v =
      Safe-bind (Sane n fs) (Sane n fs) (visit a (receive_advert kernel k i) w) _
        (visit-Safe n fs a _ w v (receive_advert-Safe n fs sys kernel k i w h.1 v))
        (λ r s. continue-Safe r _ s (λ w' v'.
          Safe-bind (Sane n fs) (Sane n fs) (visit b (receive_solicit sys kernel (suc k) i) w') _
            (visit-Safe n fs b _ w' v' (receive_solicit-Safe n fs sys kernel (suc k) i w' h.1 v'))
            (λ r' s'.
              continue-Safe r' _ s' (λ w'' v''. by_pairs-Safe map (suc (suc k)) es w'' h.2 v''))))

  -- Other descriptors for `poll`, those of the interfaces.
  fresh-IsSane :
      (w : World) (fds : List ℤ) (dirty : Bool)
      → fds ≡ fixup_pollfds fs (iface_map fs)
      → IsSane n fs w
      → IsSane n fs (record w { pollfds = fds; map_dirty = dirty })
  fresh-IsSane w fds dirty now v = record {
    proxy_count = v.proxy_count;
    iface_table = v.iface_table;
    fresh = λ e. now;
    wired_rules = v.wired_rules;
    served = v.served;
    parented = v.parented;
  }

  refresh_pollfds-IsSane :
      (w : World)
      → IsSane n fs w
      → IsSane n fs (refresh_pollfds w)
        × ((refresh_pollfds w).pollfds ≡ fixup_pollfds fs (iface_map fs))
  unfolding refresh_pollfds
  refresh_pollfds-IsSane w v = elim (Bool-cases w.map_dirty) [
    | inr clean ↦ let now = v.fresh clean in rw clean (fresh-IsSane w w.pollfds false now v, now)
    | inl dirty ↦
        let now = ap (λ gs. fixup_pollfds gs (iface_map gs)) v.iface_table in
        rw dirty (fresh-IsSane w (fixup_pollfds w.ifaces (iface_map w.ifaces)) false now v, now)
  ]

  polled-Safe :
      (w : World) (p : Polled)
      → IsSane n fs w
      → ((events : List Event) → p ≡ ready events → length events ≡ length (iface_map fs) * 2)
      → Safe (Sane n fs) (elim p [
        | poll_failed ↦ ok (false, w)
        | timed_out ↦ ok (true, w)
        | ready events ↦ poll_loop sys kernel 0 (first (iface_map w.ifaces)) events w
      ])
  polled-Safe w poll_failed v sized = v
  polled-Safe w timed_out v sized = v
  polled-Safe w (ready events) v sized =
      rw (poll_loop-by_pairs n fs sys kernel events w (sized events refl) v)
        (by_pairs-Safe (iface_map fs) 0 events w (iface_map-Within fs) v)

  pub poll_all-Safe :
      (w : World) → IsPolling kernel → IsSane n fs w → Safe (Sane n fs) (poll_all sys kernel w)
  unfolding poll_all
  poll_all-Safe w polls v =
      let w' = refresh_pollfds w in
      let (v', now) = refresh_pollfds-IsSane w v in
      let sized : length w'.pollfds ≡ length (iface_map fs) * 2 =
        ap length now ∙ length-pollfds fs in
      let consistent : (length w'.pollfds == length (iface_map w'.ifaces) * 2) ≡ true =
        rw v'.iface_table (ground arith) in
      Safe-if (Sane n fs) (length w'.pollfds == 0) _ _ v' (
        rw consistent (
          polled-Safe w' (kernel.poll w'.pollfds) v'
            (λ events e. polls w'.pollfds events e ∙ sized)))
