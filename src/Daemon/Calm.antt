-- ===== src/Daemon/Calm.antt =====
-- src/ndppd.cc: the loop of `main` in a daemon with interface rules alone.
use ndppd.Base.{
  Option, none, List, ℕ, suc, ◌+◌, ◌≡◌, refl, inl, inr, List, [], ◌∷◌, some, arith, Bool-cases,
  Option-cases, get_elem?,
}
use ndppd.Base.Int.{ℤ}
use ndppd.World.{Iface, Proxy, World, Sockets}
use ndppd.Session.{Session, Verdict, keep, remove, update}
use ndppd.Proxy.Update.{lookup_session, find_owner, obey, update_one, update_list, update_all}
use ndppd.Iface.Safe.{Safe, Safe-bind, IsSane}
use ndppd.Iface.NoFault.{send-IsSane, set-IsSane, same-IsSane}
use ndppd.Tables.{count_down, update_routes, update_addresses}
use ndppd.Iface.Poll.{poll_all}
use ndppd.Iface.Poll.Visits.{Sane}
use ndppd.Iface.Poll.Safe.{IsPolling, poll_all-Safe}
use ndppd.Daemon.{Turn, Daemon, refresh_routes, refresh_addresses, turn}

find_owner-shift :
    (i n : ℕ) (ps : List Proxy) (k : ℕ) (p : Proxy) (s : Session)
    → find_owner i n ps ≡ some (k, p, s)
    → (j : ℕ) × ((k ≡ n + j) × (get_elem? ps j ≡ some p))
unfolding find_owner
find_owner-shift i n [] k p s e = cc
find_owner-shift i n (q ∷ ps) k p s e = elim (Option-cases (lookup_session i q.sessions)) [
  | inr (x, found) ↦ (0, (ground arith, ground arith))
  | inl missing ↦
      let (j, (place, at)) = find_owner-shift i (suc n) ps k p s (rw (missing, find_owner) at e) in
      (suc j, (omega arith, at))
]

-- The owner is where its number says.
find_owner-at :
    (i : ℕ) (ps : List Proxy) (k : ℕ) (p : Proxy) (s : Session)
    → find_owner i 0 ps ≡ some (k, p, s)
    → get_elem? ps k ≡ some p
find_owner-at i ps k p s e =
    let (j, (place, at)) = find_owner-shift i 0 ps k p s e in
    let same : k ≡ j = omega arith in rw same at

module _ (n : ℕ) (fs : List Iface) where
  obey-IsSane :
      (i k : ℕ) (p : Proxy) (o : Verdict) (w : World)
      → get_elem? w.proxies k ≡ some p
      → IsSane n fs w
      → IsSane n fs (obey i k p o w)
  unfolding obey
  obey-IsSane i k p (keep s sent) w at v =
      send-IsSane n fs sent _ (set-IsSane n fs w k p _ at refl v)
  obey-IsSane i k p (remove s) w at v = send-IsSane n fs _ _ (set-IsSane n fs w k p _ at refl v)

  update_one-IsSane : (t : ℤ) (i : ℕ) (w : World) → IsSane n fs w → IsSane n fs (update_one t i w).1
  unfolding update_one
  update_one-IsSane t i w v = elim (Option-cases (find_owner i 0 w.proxies)) [
    | inl e ↦ rw (e, update_one) v
    | inr ((k, p, s), e) ↦
        rw (e, update_one)
          (obey-IsSane i k p (update p.config t s) w (find_owner-at i w.proxies k p s e) v)
  ]

  update_list-IsSane :
      (t : ℤ) (is : List ℕ) (w : World) → IsSane n fs w → IsSane n fs (update_list t is w).1
  unfolding update_list
  update_list-IsSane t [] w v = v
  update_list-IsSane t (i ∷ is) w v =
      update_list-IsSane t is (update_one t i w).1 (update_one-IsSane t i w v)

  update_all-IsSane : (t : ℤ) (w : World) → IsSane n fs w → IsSane n fs (update_all t w)
  unfolding update_all
  update_all-IsSane t w v =
      same-IsSane n fs (update_list t w.session_list w).1 _ (refl, refl, refl, refl)
        (update_list-IsSane t w.session_list w v)

  refresh_routes-IsSane :
      (t : Turn) (d : Daemon) → IsSane n fs d.world → IsSane n fs (refresh_routes t d).world
  unfolding refresh_routes update_routes
  refresh_routes-IsSane t d v = elim (Bool-cases d.world.any_aut) [
    | inr off ↦ rw off (same-IsSane n fs d.world _ (refl, refl, refl, refl) v)
    | inl on ↦ rw on (elim (Bool-cases (count_down t.elapsed d.route_timer).0) [
      | inl due ↦ rw due (same-IsSane n fs d.world _ (refl, refl, refl, refl) v)
      | inr later ↦ rw later (same-IsSane n fs d.world _ (refl, refl, refl, refl) v)
    ])
  ]

  refresh_addresses-IsSane :
      (t : Turn) (d : Daemon) → IsSane n fs d.world → IsSane n fs (refresh_addresses t d).world
  unfolding refresh_addresses update_addresses
  refresh_addresses-IsSane t d v = elim (Bool-cases d.world.any_iface) [
    | inr off ↦ rw off (same-IsSane n fs d.world _ (refl, refl, refl, refl) v)
    | inl on ↦ rw on (elim (Bool-cases (count_down t.elapsed d.address_timer).0) [
      | inl due ↦ rw due (same-IsSane n fs d.world _ (refl, refl, refl, refl) v)
      | inr later ↦ rw later (same-IsSane n fs d.world _ (refl, refl, refl, refl) v)
    ])
  ]

  abbrev pub SaneAfter : Option Daemon → Type 0
  SaneAfter none = Unit {0}
  SaneAfter (some d) = IsSane n fs d.world

  -- In a daemon of n proxies whose rules all have an interface, whose interfaces name only
  -- proxies that are there, and whose descriptors are those of its interfaces unless they are
  -- marked to be collected anew, no turn of the loop of `main` ends in a fault, whatever
  -- `poll` and `recvmsg` give as long as `poll` has an event for each descriptor, and after a
  -- turn that does not break the loop the daemon is still like that, with the same interfaces.
  pub turn-Safe :
      (sys : Sockets) (t : Turn) (d : Daemon)
      → IsPolling t.kernel
      → IsSane n fs d.world
      → Safe SaneAfter (turn sys t d)
  unfolding turn
  turn-Safe sys t d polls v =
      Safe-bind (Sane n fs) SaneAfter (poll_all sys t.kernel d.world) _
        (poll_all-Safe n fs sys t.kernel d.world polls v)
        (λ r h. elim (Bool-cases r.0) [
          | inr stop ↦ rw stop tt
          | inl on ↦ rw on (
              update_all-IsSane t.elapsed _ (
                refresh_addresses-IsSane t _
                  (refresh_routes-IsSane t (record d { world = r.1 }) h)))
        ])
