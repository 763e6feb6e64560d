-- ===== src/Examples/Proxies.antt =====
-- src/proxy.cc at a concrete daemon: interface 0 is proxied, interface 1 is behind it.
use ndppd.Base.{
  ℕ, zero, suc, ◌≡◌, ◌<◌, refl, sym, subst, get_elem?, map, true, false, List, [], ◌∷◌, ◌++◌, none,
  some, replicate, arith, codes,
}
use Prim.Native.String.{String}
use ndppd.Base.Int.{pos}
use ndppd.Address.{Address}
use ndppd.Session.{Session, renewing}
use ndppd.World.{Rule, Proxy, Iface, World, Sockets, Ensures}
use ndppd.Proxy.Faults.{handle_solicit-throw}
use ndppd.World.{throw, invalid_pointer, find_route}
use ndppd.Proxy.{find_session, handle_solicit}
use ndppd.Proxy.Options.{new_config}
use ndppd.Proxy.Listed.{Listed, mem}
use ndppd.Proxy.Entries.{holds, Distinct}
use ndppd.Proxy.Keeps.{handle_solicit-Listed}
use ndppd.Proxy.Update.{update_all}
use ndppd.Proxy.Turns.{aged}
use ndppd.Proxy.Elapse.{still_held, update_all-aged}

abbrev pub host : ℕ → Address
host n = record { addr = 0x11 ∷ 0x11 ∷ replicate 13 0 ++ n ∷ []; mask = replicate 16 255 }

abbrev pub iface : String → List ℕ → List ℕ → Iface
iface name serves parents = record {
  name = codes name;
  ifd = pos 3;
  pfd = pos 4;
  hwaddr = replicate 6 1;
  serves = serves;
  parents = parents;
}

-- Session 0 looks for host 1 behind the daughter interface.
abbrev held : Session
held = record {
  taddr = host 1;
  autowire = true;
  keepalive = true;
  wired = false;
  wired_via = host 0;
  touched = true;
  ifaces = 1 ∷ [];
  pending = [];
  ttl = pos 500;
  fails = 0;
  retries = pos 3;
  status = renewing;
}

abbrev rule_1 : Rule
rule_1 = record { addr = host 1; daughter = some 1; aut = false; autovia = some false }

abbrev rule_2 : Rule
rule_2 = record { addr = host 2; daughter = some 1; aut = false; autovia = some false }

abbrev pub proxy : Proxy
proxy = record {
  config = new_config 0;
  rules = rule_1 ∷ rule_2 ∷ [];
  sessions = (0, held) ∷ [];
  promiscuous = false;
}

abbrev pub daemon : World
daemon = record {
  proxies = proxy ∷ [];
  ifaces = iface "eth0" (0 ∷ []) [] ∷ iface "eth1" [] (0 ∷ []) ∷ [];
  routes = [];
  addresses = [];
  session_list = 0 ∷ [];
  next_session = 1;
  any_aut = false;
  any_static = false;
  any_iface = true;
  map_dirty = true;
  pollfds = [];
  out = [];
}

abbrev pub no_sockets : Sockets
no_sockets name = none

pub daemon-Listed : Listed daemon
daemon-Listed = record {
  listed = λ pid i p e h. (at pid i p e h).1.1;
  numbered = λ pid i p e h. omega (arith, (at pid i p e h).1.0);
  owned = λ pid qid i p q e f h k. omega (arith, (at pid i p e h).0, (at qid i q f k).0);
  distinct = λ pid p e. subst (λ (r : Proxy). Distinct r.sessions) (only pid p e).1 (tt, tt);
  weak_numbered = λ i h. zero_below i h;
  weak_once = (refl, tt);
}
  where
    only : (pid : ℕ) (p : Proxy) → get_elem? (proxy ∷ []) pid ≡ some p → (pid ≡ 0) × (proxy ≡ p)
    only zero p e = (refl, ground arith)
    only (suc pid) p e = cc

    zero_below : (i : ℕ) → mem i (0 ∷ []) ≡ true → i < 1
    zero_below i h = ground arith

    at :
        (pid i : ℕ) (p : Proxy)
        → get_elem? (proxy ∷ []) pid ≡ some p
        → holds i p.sessions ≡ true
        → (pid ≡ 0) × ((i ≡ 0) × (mem i (0 ∷ []) ≡ true))
    at pid i p e h =
        let h' : holds i ((0, held) ∷ []) ≡ true =
          subst (λ (r : Proxy). holds i r.sessions ≡ true) (sym (only pid p e).1) h in
        ((only pid p e).0, ground arith)

-- A new session is created.
handle_solicit-Listed_example :
    Ensures Listed (handle_solicit no_sockets 0 (host 7) (host 2) daemon)
handle_solicit-Listed_example =
    handle_solicit-Listed no_sockets 0 (host 7) (host 2) daemon daemon-Listed

-- The session is probed again.
update_all-aged_example :
    ((update_all (pos 501) daemon).proxies ≡ map (aged (pos 501)) daemon.proxies)
    × ((update_all (pos 501) daemon).session_list ≡ still_held daemon.proxies daemon.session_list)
update_all-aged_example = update_all-aged (pos 501) daemon daemon-Listed

abbrev auto_rule : Rule
auto_rule = record { addr = host 2; daughter = none; aut = true; autovia = none }

abbrev auto_proxy : Proxy
auto_proxy = record proxy { rules = auto_rule ∷ [] }

abbrev auto_daemon : World
auto_daemon = record daemon { proxies = auto_proxy ∷ []; any_aut = true }

handle_solicit-throw_example :
    handle_solicit no_sockets 0 (host 7) (host 2) auto_daemon ≡ throw invalid_pointer
unfolding find_session find_route ndppd.Address.equal ndppd.Address.differing
    ndppd.Address.masked_word ndppd.Address.word ndppd.Address.zip_with ndppd.Address.nonzero
handle_solicit-throw_example =
    handle_solicit-throw no_sockets 0 (host 7) (host 2) auto_daemon auto_proxy auto_rule [] refl
      refl refl refl refl refl
