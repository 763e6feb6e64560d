-- ===== src/Daemon/Reach.antt =====
-- src/ndppd.cc: what holds in every turn of the loop of `main`.
use ndppd.Base.{Option, none, inr, ℕ, ◌≡◌, ◌∙◌, ap, sym, true, [], some, inl, get_elem?, Bool-cases}
use ndppd.World.{Proxy, World, ok, Sockets, Ensures, Ensures-bind, Ensures_ok}
use ndppd.Proxy.Listed.{Listed, mem}
use ndppd.Proxy.Entries.{holds}
use ndppd.Proxy.Survive.{update_all-Listed}
use ndppd.Tables.{count_down, update_routes, update_addresses}
use ndppd.Iface.Poll.{poll_all}
use ndppd.Iface.Poll.Keeps.{poll_all-Listed}
use ndppd.Daemon.{Turn, Daemon, refresh_routes, refresh_addresses, turn}

-- Before the loop: `configure` has made proxies, and nobody has looked for an address yet.
pub record IsConfigured (w : World) : Type 0 where
  pub no_sessions : (pid : ℕ) (p : Proxy) → get_elem? w.proxies pid ≡ some p → p.sessions ≡ []
  pub no_pointers : w.session_list ≡ []

-- The states of the daemon in front of the loop's body.
pub data Reachable (sys : Sockets) : Daemon → Type 0 where
  configured : {d : Daemon} → IsConfigured d.world → Reachable sys d
  turned :
      {d d' : Daemon} (t : Turn) → Reachable sys d → turn sys t d ≡ ok (some d') → Reachable sys d'

IsConfigured-Listed : (w : World) → IsConfigured w → Listed w
IsConfigured-Listed w c = record {
  listed = λ pid i p e h. absurd (nobody pid i p e h);
  numbered = λ pid i p e h. absurd (nobody pid i p e h);
  owned = λ pid qid i p q e f h k. absurd (nobody pid i p e h);
  distinct = λ pid p e. rw (c.no_sessions pid p e) tt;
  weak_numbered = λ i h. absurd (unlisted i (ap (mem i) (sym c.no_pointers) ∙ h));
  weak_once = rw c.no_pointers tt;
}
  where
    unlisted : (i : ℕ) → mem i [] ≡ true → ⊥
    unlisted i h = cc

    nobody :
        (pid i : ℕ) (p : Proxy) → get_elem? w.proxies pid ≡ some p → holds i p.sessions ≡ true → ⊥
    nobody pid i p e h =
        let h' : holds i [] ≡ true = ap (holds i) (sym (c.no_sessions pid p e)) ∙ h in cc

refresh_routes-Listed : (t : Turn) (d : Daemon) → Listed d.world → Listed (refresh_routes t d).world
unfolding refresh_routes update_routes
refresh_routes-Listed t d v = elim (Bool-cases d.world.any_aut) [
  | inr off ↦ rw off v
  | inl on ↦ rw on (elim (Bool-cases (count_down t.elapsed d.route_timer).0) [
    | inl due ↦ rw due v
    | inr later ↦ rw later v
  ])
]

refresh_addresses-Listed :
    (t : Turn) (d : Daemon) → Listed d.world → Listed (refresh_addresses t d).world
unfolding refresh_addresses update_addresses
refresh_addresses-Listed t d v = elim (Bool-cases d.world.any_iface) [
  | inr off ↦ rw off v
  | inl on ↦ rw on (elim (Bool-cases (count_down t.elapsed d.address_timer).0) [
    | inl due ↦ rw due v
    | inr later ↦ rw later v
  ])
]

abbrev ListedAfter : Option Daemon → Type 0
ListedAfter none = Unit {0}
ListedAfter (some d) = Listed d.world

turn-Listed :
    (sys : Sockets) (t : Turn) (d : Daemon) → Listed d.world → Ensures ListedAfter (turn sys t d)
unfolding turn
turn-Listed sys t d v =
    Ensures-bind (λ r. Listed r.1) ListedAfter (poll_all sys t.kernel d.world) _
      (poll_all-Listed sys t.kernel d.world v)
      (λ r h. elim (Bool-cases r.0) [
        | inr stop ↦ rw stop tt
        | inl on ↦ rw on (
            update_all-Listed t.elapsed _
              (refresh_addresses-Listed t _ (refresh_routes-Listed t (record d { world = r.1 }) h)))
      ])

-- However messages, time and the texts of the tables come after the configuration, as long as no
-- fault ends the daemon: every session that a proxy holds is in the list that `update_all`
-- walks, no number is twice in that list, no two proxies hold the same session, and no session
-- of a proxy has a target that matches that of a later one.
pub Reachable-Listed : (sys : Sockets) (d : Daemon) → Reachable sys d → Listed d.world
Reachable-Listed sys d (configured c) = IsConfigured-Listed d.world c
Reachable-Listed sys d (turned t r e) =
    Ensures_ok ListedAfter _ (some d) (turn-Listed sys t _ (Reachable-Listed sys _ r)) e
