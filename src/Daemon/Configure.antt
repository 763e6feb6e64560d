-- ===== src/Daemon/Configure.antt =====
-- src/ndppd.cc, `configure`: the daemon that a configuration asks for. The listing of the topology at
-- its end is for the log alone.
pub mod Built
pub mod Rules
pub mod Run
pub mod Tables
pub mod Order
pub mod Asked
use ndppd.Base.{
  ℕ, Bool, true, false, not, ◌||◌, List, [], ◌∷◌, Option, none, some, map, if◌then◌else◌, get_elem?,
  Bytes, codes, equal_text,
}
use ndppd.Base.Int.{ℤ, pos}
use ndppd.Address.Parse.{Pton, atoi, of_string}
use ndppd.Session.{Config}
use ndppd.World.{Proxy, World, Result, ok, ◌>>=◌, deref, Sockets, set_proxy, open_ifd}
use ndppd.Proxy.Options.{
  set_ttl, set_deadtime, set_timeout, add_parent, add_iface_rule, add_plain_rule,
}
use ndppd.Iface.Open.{PacketSockets, open_proxy}
use ndppd.Tables.{to_lower}
use ndppd.Conf.{Conf, find, find_all}
use ndppd.Conf.Load.{value, entries, is_empty, has}
use ndppd.Daemon.{Daemon}

-- `as_bool()`
unfoldable pub as_bool : Conf → Bool
as_bool cf =
    equal_text (map to_lower (value cf)) (codes "true")
    || equal_text (map to_lower (value cf)) (codes "yes")

-- `as_int()`
unfoldable pub as_int : Conf → ℤ
as_int cf = atoi (value cf)

-- if (!(x_cf = cf->find(name))) ... else ...
unfoldable pub flag : Bytes → Bool → Conf → Bool
flag name default cf = elim (find name (entries cf)) [ none ↦ default | some x ↦ as_bool x ]

unfoldable pub number : Bytes → ℤ → Conf → ℤ
number name default cf = elim (find name (entries cf)) [ none ↦ default | some x ↦ as_int x ]

-- The options of a proxy, in the order in which they are set.
unfoldable pub set_options : Conf → Config → Config
set_options cf c =
    let c1 = record c {
      router = flag (codes "router") true cf;
      autowire = flag (codes "autowire") false cf;
      keepalive = flag (codes "keepalive") true cf;
      retries = number (codes "retries") (pos 3) cf;
    } in
    let c2 = set_ttl (number (codes "ttl") (pos 30000) cf) c1 in
    let c3 = set_deadtime (number (codes "deadtime") c2.ttl cf) c2 in
    set_timeout (number (codes "timeout") (pos 500) cf) c3

-- The system that the daemon runs on.
pub record System : Type 0 where
  pub sockets : Sockets
  pub packet : PacketSockets
  pub pton : Pton

-- The body of the loop over the rules of proxy `pid`: false where `configure` returns false.
unfoldable pub configure_rule : System → ℕ → Conf → World → Result (Bool × World)
configure_rule sys pid ru w =
    let addr = of_string sys.pton (value ru) in
    let autovia = flag (codes "autovia") false ru in
    elim (find (codes "iface") (entries ru)) [
      | some x ↦
          (let (ifa, w') = open_ifd sys.sockets (value x) w in
            elim ifa [
              | none ↦ ok (false, w')
              | some i ↦
                  add_iface_rule pid addr i autovia (add_parent i pid w') >>= λ w''. ok (true, w'')
            ])
      | none ↦ add_plain_rule pid addr (has (codes "auto") ru) w >>= λ w'. ok (true, w')
    ]

unfoldable pub configure_rules : System → ℕ → List Conf → World → Result (Bool × World)
configure_rules sys pid [] w = ok (true, w)
configure_rules sys pid (ru ∷ rules) w = configure_rule sys pid ru w >>= λ r. elim r.0 [
  | false ↦ ok r
  | true ↦ configure_rules sys pid rules r.1
]

-- The proxy object, with its options set.
unfoldable pub set_config : ℕ → Conf → World → Result World
set_config pid cf w = deref (get_elem? w.proxies pid) >>= λ p.
    ok (set_proxy pid (record p { config = set_options cf p.config }) w)

-- The body of the loop over the proxies.
unfoldable pub configure_proxy : System → Conf → World → Result (Bool × World)
configure_proxy sys cf w =
    if is_empty (value cf)
    then ok (false, w)
    else (let (pr, w') =
          open_proxy sys.sockets sys.packet (value cf) (flag (codes "promiscuous") false cf) w in
        elim pr [
          | none ↦ ok (false, w')
          | some pid ↦
              set_config pid cf w'
              >>= configure_rules sys pid (find_all (codes "rule") (entries cf))
        ])

unfoldable pub configure_proxies : System → List Conf → World → Result (Bool × World)
configure_proxies sys [] w = ok (true, w)
configure_proxies sys (cf ∷ cfs) w = configure_proxy sys cf w >>= λ r. elim r.0 [
  | false ↦ ok r
  | true ↦ configure_proxies sys cfs r.1
]

-- The tables when the program starts.
abbrev pub no_world : World
no_world = record {
  proxies = [];
  ifaces = [];
  routes = [];
  addresses = [];
  session_list = [];
  next_session = 0;
  any_aut = false;
  any_static = false;
  any_iface = false;
  map_dirty = false;
  pollfds = [];
  out = [];
}

-- The start of `configure`: `route::ttl` and `address::ttl`; `_c_ttl` is 0.
unfoldable pub start_daemon : Conf → World → Daemon
start_daemon cf w = record {
  world = w;
  route_timer = record { ttl = number (codes "route-ttl") (pos 30000) cf; left = pos 0 };
  address_timer = record { ttl = number (codes "address-ttl") (pos 30000) cf; left = pos 0 };
}

-- `configure(cf)`, before anything else: `none` where it returns false.
unfoldable pub configure : System → Conf → Result (Option Daemon)
configure sys cf = configure_proxies sys (find_all (codes "proxy") (entries cf)) no_world >>= λ r.
    if r.0 then ok (some (start_daemon cf r.1)) else ok none
