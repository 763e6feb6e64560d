-- ===== src/Session/Wire.antt =====
-- src/session.cc: the routes that a session puts in, and their removal.
use ndppd.Base.{
  ◌≡◌, refl, ap, Bool, true, false, List, [], ◌∷◌, ◌++◌, map, arith, Bool-cases, Bytes, inl, inr,
  codes,
}
use mathlib.Core.List.{reverse}
use ndppd.Address.{Address, is_empty, reset, is_unicast}
use ndppd.Address.Kinds.{is_unicast-is_empty}
use ndppd.Output.{word, Output, system}
use ndppd.Session.{
  Session, host_command, target_command, takes_via, is_wired_for, handle_auto_wire,
  handle_auto_unwire, unwire_all, destroy,
}

-- A command with `flush` in place of its verb.
abbrev pub undo : Output → Output
undo (system (ip ∷ six ∷ route ∷ verb ∷ rest)) =
    system (ip ∷ six ∷ route ∷ word (codes "flush") ∷ rest)
undo o = o

via_unicast :
    (s : Session) (saddr : Address) (use_via : Bool)
    → takes_via s saddr use_via ≡ true
    → is_unicast saddr ≡ true
unfolding takes_via
via_unicast s saddr use_via h = ground arith

is_empty-reset : is_empty reset ≡ true
unfolding is_empty reset
is_empty-reset = refl

-- Unwiring a session on the interface on which it was wired, when it was not wired before,
-- flushes every route that wiring put in place, in the opposite order.
pub handle_auto_unwire-handle_auto_wire :
    (s : Session) (saddr : Address) (ifname : Bytes) (use_via : Bool)
    → s.wired ≡ false
    → let (s', put) = handle_auto_wire s saddr ifname use_via in
      (handle_auto_unwire s' ifname).1 ≡ reverse (map undo put)
unfolding handle_auto_wire handle_auto_unwire is_wired_for host_command target_command
handle_auto_unwire-handle_auto_wire s saddr ifname use_via h =
    elim (Bool-cases (takes_via s saddr use_via)) [
      | inl via ↦ ground (arith, is_unicast-is_empty saddr, via_unicast s saddr use_via via)
      | inr direct ↦ ground (arith, is_empty-reset)
    ]

unwire_all_unset :
    (s : Session) (ns : List Bytes)
    → s.wired_via ≡ reset
    → unwire_all s ns ≡ map (λ m. target_command (codes "flush") s.taddr reset m) ns
unfolding unwire_all handle_auto_unwire
unwire_all_unset s [] h = refl
unwire_all_unset s (n ∷ ns) h =
    let rest = unwire_all_unset (record s { wired = false; wired_via = reset }) ns refl in
    ground (arith, rest, is_empty-reset)

-- The destructor of a wired session flushes the gateway with its first interface only: on each
-- later one it flushes the route to the target as if there were no gateway.
pub destroy_lem :
    (s : Session) (n : Bytes) (ns : List Bytes)
    → s.wired ≡ true
    → destroy s (n ∷ ns)
      ≡ (handle_auto_unwire s n).1 ++ map (λ m. target_command (codes "flush") s.taddr reset m) ns
unfolding destroy unwire_all handle_auto_unwire
destroy_lem s n ns h = rw h (
    ap (◌++◌ (handle_auto_unwire s n).1)
      (unwire_all_unset (record s { wired = false; wired_via = reset }) ns refl))
