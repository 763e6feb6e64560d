-- ===== src/Examples/Turns.antt =====
-- src/ndppd.cc at a concrete daemon.
use ndppd.Base.{
  true, map, length-map, replicate, ◌++◌, ◌==◌, if◌then◌else◌, ap, sym, ◌∙◌, Bytes, Option, some,
  length, ℕ, zero, suc, ◌≡◌, refl, subst, false, [], ◌∷◌, none, some, get_elem?, arith,
}
use ndppd.Base.Int.{pos}
use ndppd.World.{Iface, Proxy, Result, ok}
use ndppd.Proxy.{
  handle_solicit, find_session, find_or_create_session, visit_rules, visit_rule, apply_rule,
  keep_draft,
}
use ndppd.Iface.{
  on_solicit, handle_local, find_local, handle_reverse_advert, reverse_parents, solicit_serves,
}
use ndppd.Proxy.Listed.{Listed}
use ndppd.Conf.{before}
use ndppd.Iface.{is_local}
use ndppd.Iface.Map.{iface_map, map_from, insert_name, first, next, fixup_pollfds}
use ndppd.Iface.Packets.{received, failed, read, in6_at, read_solicit, read_advert}
use ndppd.Iface.Packets.Layout.{message}
use ndppd.Iface.Poll.{
  Kernel, ready, refresh_pollfds, advance, receive, receive_solicit, receive_advert, visit,
  poll_loop, poll_all,
}
use ndppd.Iface.Poll.Safe.{IsPolling}
use ndppd.Daemon.{Turn, Daemon, turn}
use ndppd.Daemon.Reach.{IsConfigured, configured, turned, Reachable-Listed}
use ndppd.Iface.Safe.{Safe, AllWired, AllBelow, IsSane}
use ndppd.Daemon.Calm.{SaneAfter, turn-Safe}
use ndppd.Examples.Proxies.{host, iface, proxy, daemon, no_sockets}

abbrev pub idle : Daemon
idle = record {
  world = record daemon {
    proxies = record proxy { sessions = [] } ∷ [];
    session_list = [];
    next_session = 0;
  };
  route_timer = record { ttl = pos 30000; left = pos 0 };
  address_timer = record { ttl = pos 30000; left = pos 0 };
}

idle-IsConfigured : IsConfigured idle.world
idle-IsConfigured = record { no_sessions = only; no_pointers = refl }
  where
    only : (pid : ℕ) (p : Proxy) → get_elem? idle.world.proxies pid ≡ some p → p.sessions ≡ []
    only zero p e =
        let same : record proxy { sessions = [] } ≡ p = ground arith in
        subst (λ (r : Proxy). r.sessions ≡ []) same refl
    only (suc pid) p e = cc

-- The frame of a solicitation for host 1, from host 7.
abbrev frame_of_7 : Bytes
frame_of_7 =
    replicate 22 0
    ++ ((host 7).addr ++ (replicate 16 0 ++ message 135 0 (host 1).addr 1 (replicate 6 9)))

-- Every descriptor can be read, but only the packet socket of interface 0 gives a frame.
abbrev pub first_kernel : Kernel
first_kernel = record {
  poll = λ fds. ready (map (λ fd. record { error = false; readable = true }) fds);
  recv = λ k fd. if k == 1 then received [] frame_of_7 else failed;
  stack = λ k. replicate 256 0;
}

pub first_kernel-IsPolling : IsPolling first_kernel
first_kernel-IsPolling fds events e =
    let given : map (λ fd. record { error = false; readable = true }) fds ≡ events = cc in
    ap length (sym given) ∙ length-map fds _

abbrev pub first_turn : Turn
first_turn = record {
  kernel = first_kernel;
  elapsed = pos 5;
  route_file = none;
  address_file = none;
}

abbrev pub daemon_after : Result (Option Daemon) → Daemon
daemon_after (ok (some d)) = d
daemon_after _ = idle

Reachable-Listed_example : Listed (daemon_after (turn no_sockets first_turn idle)).world
unfolding turn poll_all poll_loop refresh_pollfds advance visit receive receive_solicit
    receive_advert read_solicit read_advert read in6_at is_local iface_map map_from insert_name
    first next fixup_pollfds before on_solicit handle_local find_local handle_reverse_advert
    reverse_parents solicit_serves handle_solicit find_or_create_session find_session visit_rules
    visit_rule apply_rule keep_draft ndppd.Address.is_unicast ndppd.Address.nonzero
    ndppd.Address.of_in6 ndppd.Address.word ndppd.Address.equal ndppd.Address.differing
    ndppd.Address.zip_with ndppd.Address.masked_word ndppd.Proxy.finish ndppd.World.send
    ndppd.World.set_proxy ndppd.Proxy.draft
Reachable-Listed_example =
    Reachable-Listed no_sockets (daemon_after (turn no_sockets first_turn idle))
      (turned {d = idle} first_turn (configured {d = idle} idle-IsConfigured) refl)

pub idle-IsSane : IsSane 1 idle.world.ifaces idle.world
idle-IsSane = record {
  proxy_count = refl;
  iface_table = refl;
  fresh = λ e. absurd cc;
  wired_rules = wired;
  served = served;
  parented = parented;
}
  where
    wired : (pid : ℕ) (p : Proxy) → get_elem? idle.world.proxies pid ≡ some p → AllWired p.rules
    wired zero p e =
        let same : record proxy { sessions = [] } ≡ p = ground arith in
        subst (λ (r : Proxy). AllWired r.rules) same
          (((1, refl), (refl, (false, refl))), (((1, refl), (refl, (false, refl))), tt))
    wired (suc pid) p e = cc

    served : (i : ℕ) (f : Iface) → get_elem? idle.world.ifaces i ≡ some f → AllBelow 1 f.serves
    served zero f e =
        let same : iface "eth0" (0 ∷ []) [] ≡ f = ground arith in
        subst (λ (r : Iface). AllBelow 1 r.serves) same (omega arith, tt)
    served (suc zero) f e =
        let same : iface "eth1" [] (0 ∷ []) ≡ f = ground arith in
        subst (λ (r : Iface). AllBelow 1 r.serves) same tt
    served (suc (suc i)) f e = cc

    parented : (i : ℕ) (f : Iface) → get_elem? idle.world.ifaces i ≡ some f → AllBelow 1 f.parents
    parented zero f e =
        let same : iface "eth0" (0 ∷ []) [] ≡ f = ground arith in
        subst (λ (r : Iface). AllBelow 1 r.parents) same tt
    parented (suc zero) f e =
        let same : iface "eth1" [] (0 ∷ []) ≡ f = ground arith in
        subst (λ (r : Iface). AllBelow 1 r.parents) same (omega arith, tt)
    parented (suc (suc i)) f e = cc

turn-Safe_example : Safe (SaneAfter 1 idle.world.ifaces) (turn no_sockets first_turn idle)
turn-Safe_example =
    turn-Safe 1 idle.world.ifaces no_sockets first_turn idle first_kernel-IsPolling idle-IsSane
