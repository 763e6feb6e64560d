-- ===== src/Proxy/Options.antt =====
-- src/proxy.cc and src/rule.cc: a proxy's options, its rules, and the search for a proxy.
use ndppd.Base.{
  ℕ, Bool, true, false, not, ◌&&◌, ◌||◌, List, [], ◌∷◌, ◌++◌, Option, none, some, if◌then◌else◌,
  get_elem?, set, length, Bytes, equal_text,
}
use ndppd.Base.Int.{ℤ, pos, leb_ℤ}
use ndppd.Address.{Address, equal}
use ndppd.Session.{Config}
use ndppd.World.{Rule, Proxy, World, Result, ok, ◌>>=◌, deref, set_proxy, iface_name}

-- `proxy::proxy()`, with the interface that `create` sets.
unfoldable pub new_config : ℕ → Config
new_config ifa = record {
  ifa = ifa;
  router = true;
  autowire = false;
  retries = pos 3;
  keepalive = true;
  ttl = pos 30000;
  deadtime = pos 3000;
  timeout = pos 500;
}

unfoldable pub non_negative : ℤ → ℤ → ℤ
non_negative value fallback = if leb_ℤ (pos 0) value then value else fallback

unfoldable pub set_ttl : ℤ → Config → Config
set_ttl value c = record c { ttl = non_negative value (pos 30000) }

unfoldable pub set_deadtime : ℤ → Config → Config
set_deadtime value c = record c { deadtime = non_negative value (pos 30000) }

unfoldable pub set_timeout : ℤ → Config → Config
set_timeout value c = record c { timeout = non_negative value (pos 500) }

-- `ifa->add_serves(pr)`
unfoldable pub add_serves : ℕ → ℕ → World → World
add_serves i pid w = elim (get_elem? w.ifaces i) [
  | none ↦ w
  | some ifa ↦ record w { ifaces = set w.ifaces i (record ifa { serves = ifa.serves ++ pid ∷ [] }) }
]

-- `ifa->add_parent(pr)`
unfoldable pub add_parent : ℕ → ℕ → World → World
add_parent i pid w = elim (get_elem? w.ifaces i) [
  | none ↦ w
  | some ifa ↦ record w {
    ifaces = set w.ifaces i (record ifa { parents = ifa.parents ++ pid ∷ [] });
  }
]

-- `proxy::create(ifa, promiscuous)`: the number of the new proxy.
unfoldable pub create : ℕ → Bool → World → ℕ × World
create ifa promiscuous w =
    let pid = length w.proxies in
    let p : Proxy = record {
      config = new_config ifa;
      rules = [];
      sessions = [];
      promiscuous = promiscuous;
    } in
    (pid, add_serves ifa pid (record w { proxies = w.proxies ++ p ∷ [] }))

-- `rule::create` with an interface, and `autovia(val)`.
unfoldable pub iface_rule : Address → ℕ → Bool → Rule
iface_rule a ifa autovia = record {
  addr = a;
  daughter = some ifa;
  aut = false;
  autovia = some autovia;
}

-- `rule::create` without one.
unfoldable pub plain_rule : Address → Bool → Rule
plain_rule a aut = record { addr = a; daughter = none; aut = aut; autovia = none }

unfoldable pub push_rule : ℕ → Rule → World → Result World
push_rule pid ru w = deref (get_elem? w.proxies pid) >>= λ p.
    ok (set_proxy pid (record p { rules = p.rules ++ ru ∷ [] }) w)

-- `proxy::add_rule(addr, ifa, autovia)`
unfoldable pub add_iface_rule : ℕ → Address → ℕ → Bool → World → Result World
add_iface_rule pid a ifa autovia w =
    push_rule pid (iface_rule a ifa autovia) (record w { any_iface = true })

-- `proxy::add_rule(addr, aut)`
unfoldable pub add_plain_rule : ℕ → Address → Bool → World → Result World
add_plain_rule pid a aut w =
    push_rule pid (plain_rule a aut)
      (record w { any_aut = w.any_aut || aut; any_static = w.any_static || not aut })

-- Whether a rule of the proxy matches.
unfoldable pub has_rule : Address → List Rule → Bool
has_rule taddr [] = false
has_rule taddr (ru ∷ rules) = equal ru.addr taddr || has_rule taddr rules

-- `proxy::find_aunt`, over the proxies from `w` on.
unfoldable pub find_aunt : World → Bytes → Address → List Proxy → Option Proxy
find_aunt w ifname taddr [] = none
find_aunt w ifname taddr (p ∷ ps) =
    if has_rule taddr p.rules && equal_text (iface_name w p.config.ifa) ifname
    then some p
    else find_aunt w ifname taddr ps
