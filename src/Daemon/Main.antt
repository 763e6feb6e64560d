-- ===== src/Daemon/Main.antt =====
-- src/ndppd.cc: `main`, from the configuration on.
use ndppd.Base.{
  ℕ, ◌≡◌, refl, ap, ◌∙◌, sym, Bool, true, false, List, [], ◌∷◌, Option, none, some, inl, inr,
  length, codes, Every, Every-get, Every-map,
}
use ndppd.World.{Rule, Iface, World, Result, ok, ◌>>=◌, Sockets}
use ndppd.Address.{Address}
use ndppd.Proxy.Options.{iface_rule}
use ndppd.Iface.Map.{iface_map, map_from, fixup_pollfds}
use ndppd.Iface.Safe.{Safe, Safe-bind, Safe-weaken, IsWired, AllWired, IsSane}
use ndppd.Iface.Poll.Safe.{IsPolling}
use ndppd.Conf.{Conf, find, find_all}
use ndppd.Conf.Load.{entries}
use ndppd.Daemon.{Turn, Daemon, turn}
use ndppd.Daemon.Reach.{IsConfigured, Reachable, configured}
use ndppd.Daemon.Calm.{SaneAfter, turn-Safe}
use ndppd.Daemon.Configure.{System, configure}
use ndppd.Daemon.Configure.Built.{IsIdle, IsKnown, IsBuilt}
use ndppd.Daemon.Configure.Rules.{Plain}
use ndppd.Daemon.Configure.Run.{PlainRules, BuiltAfter, configure-Built}

-- `while (running)`, for these turns or until it breaks.
unfoldable pub run : Sockets → List Turn → Daemon → Result Daemon
run sys [] d = ok d
run sys (t ∷ ts) d = turn sys t d >>= λ o. elim o [ none ↦ ok d | some d' ↦ run sys ts d' ]

-- `main`, behind `load_config`: `none` where `configure` returns false.
unfoldable pub main : System → Conf → List Turn → Result (Option Daemon)
main sys cf ts = configure sys cf >>= λ o. elim o [
  | none ↦ ok none
  | some d ↦ run sys.sockets ts d >>= λ d'. ok (some d')
]

-- Every rule of every proxy has an interface.
abbrev pub NamesIface : Conf → Type 0
NamesIface ru = (x : Conf) × (find (codes "iface") (entries ru) ≡ some x)

abbrev pub AllNameIfaces : Conf → Type 0
AllNameIfaces cf =
    Every (λ pr. Every NamesIface (find_all (codes "rule") (entries pr)))
      (find_all (codes "proxy") (entries cf))

-- All turns get an event for each descriptor.
abbrev pub ArePolling : List Turn → Type 0
ArePolling ts = Every (λ (t : Turn). IsPolling t.kernel) ts

AllWired-Every : (rules : List Rule) → Every IsWired rules → AllWired rules
AllWired-Every [] h = tt
AllWired-Every (ru ∷ rules) h = (h.0, AllWired-Every rules h.1)

IsBuilt-IsSane : (w : World) → IsBuilt IsWired w → IsSane (length w.proxies) w.ifaces w
unfolding fixup_pollfds iface_map map_from
IsBuilt-IsSane w v = record {
  proxy_count = refl;
  iface_table = refl;
  fresh = λ clean. elim v.dirty [
    | inl d ↦ let clash : true ≡ false = sym d ∙ clean in absurd cc
    | inr (no_ifaces, no_fds) ↦ no_fds ∙ ap (λ fs. fixup_pollfds fs (iface_map fs)) (sym no_ifaces)
  ];
  wired_rules =
      λ pid p e. AllWired-Every p.rules (Every-get (IsIdle IsWired) w.proxies pid p v.idle e).1;
  served = λ i f e. (Every-get (IsKnown (length w.proxies)) w.ifaces i f v.known e).0;
  parented = λ i f e. (Every-get (IsKnown (length w.proxies)) w.ifaces i f v.known e).1;
}

IsBuilt-IsConfigured : (P : Rule → Type 0) (w : World) → IsBuilt P w → IsConfigured w
IsBuilt-IsConfigured P w v = record {
  no_sessions = λ pid p e. (Every-get (IsIdle P) w.proxies pid p v.idle e).0;
  no_pointers = v.no_pointers;
}

-- The daemon at the end.
abbrev pub SaneAtEnd : Option Daemon → Type 0
SaneAtEnd none = Unit {0}
SaneAtEnd (some d) = (n : ℕ) × ((fs : List Iface) × IsSane n fs d.world)

module _ (n : ℕ) (fs : List Iface) where
  go_on :
      (Q : Daemon → Type 0) (o : Option Daemon) (m : Result Daemon) (f : Daemon → Result Daemon)
      → SaneAfter n fs o
      → Safe Q m
      → ((d : Daemon) → IsSane n fs d.world → Safe Q (f d))
      → Safe Q (elim o [ none ↦ m | some d ↦ f d ])
  go_on Q none m f k h h' = h
  go_on Q (some d) m f k h h' = h' d k

  run-Safe :
      (sys : Sockets) (ts : List Turn) (d : Daemon)
      → ArePolling ts
      → IsSane n fs d.world
      → Safe (λ (d' : Daemon). IsSane n fs d'.world) (run sys ts d)
  unfolding run
  run-Safe sys [] d h v = v
  run-Safe sys (t ∷ ts) d h v =
      Safe-bind (SaneAfter n fs) (λ (d' : Daemon). IsSane n fs d'.world) (turn sys t d) _
        (turn-Safe n fs sys t d h.0 v)
        (λ o k.
          go_on (λ (d' : Daemon). IsSane n fs d'.world) o (ok d) (run sys ts) k v
            (λ d' v'. run-Safe sys ts d' h.1 v'))

wired : (a : Address) (i : ℕ) (via : Bool) → IsWired (iface_rule a i via)
unfolding iface_rule
wired a i via = ((i, refl), (refl, (via, refl)))

named-Plain : (ru : Conf) → NamesIface ru → Plain IsWired ru
named-Plain ru (x, e) f = let clash : none ≡ some x = sym f ∙ e in absurd cc

-- What follows `configure`.
module _ (sys : Sockets) (ts : List Turn) (polls : ArePolling ts) where
  after_configure :
      (o : Option Daemon)
      → BuiltAfter IsWired o
      → Safe SaneAtEnd (elim o as (λ _. Result (Option Daemon)) [
        | none ↦ ok none
        | some d ↦ run sys ts d >>= λ d'. ok (some d')
      ])
  after_configure none v = tt
  after_configure (some d) v =
      let n = length d.world.proxies in
      let fs = d.world.ifaces in
      Safe-bind (λ (d' : Daemon). IsSane n fs d'.world) SaneAtEnd (run sys ts d) _
        (run-Safe n fs sys ts d polls (IsBuilt-IsSane d.world v)) (λ d' h. (n, (fs, h)))

-- A program whose configuration gives every rule an interface never ends in a fault, from
-- `configure` through any number of turns of the loop of `main`, whatever the system calls give
-- as long as `poll` has an event for each descriptor.
pub main-Safe :
    (sys : System) (cf : Conf) (ts : List Turn)
    → AllNameIfaces cf
    → ArePolling ts
    → Safe SaneAtEnd (main sys cf ts)
unfolding main
main-Safe sys cf ts named polls =
    Safe-bind (BuiltAfter IsWired) SaneAtEnd (configure sys cf) _
      (configure-Built IsWired wired sys cf (
        Every-map _ (PlainRules IsWired) (find_all (codes "proxy") (entries cf))
          (λ pr h.
            Every-map NamesIface (Plain IsWired) (find_all (codes "rule") (entries pr)) named-Plain
              h)
          named))
      (after_configure sys.sockets ts polls)

Every-any : (Q : Conf → Type 0) (xs : List Conf) → ((x : Conf) → Q x) → Every Q xs
Every-any Q [] f = tt
Every-any Q (x ∷ xs) f = (f x, Every-any Q xs f)

abbrev pub AnyRule : Rule → Type 0
AnyRule ru = Unit {0}

-- The daemon in front of the loop, where `configure` makes one.
abbrev pub ConfiguredAfter : Sockets → Option Daemon → Type 0
ConfiguredAfter sys none = Unit {0}
ConfiguredAfter sys (some d) = IsConfigured d.world × (IsBuilt AnyRule d.world × Reachable sys d)

-- Whatever the configuration, `configure` does not end in a fault. The daemon that it makes, if
-- it makes one, has no session, neither in a proxy nor in the weak list, so that it is one that
-- the loop of `main` starts with; each interface names only proxies that are there, and either
-- the descriptors are marked to be collected before they are used or there is no interface.
pub configure-IsConfigured :
    (sys : System) (cf : Conf) → Safe (ConfiguredAfter sys.sockets) (configure sys cf)
configure-IsConfigured sys cf = Safe-weaken (configure sys cf) in_front (
    configure-Built AnyRule (λ a i via. tt) sys cf
      (Every-any (PlainRules AnyRule) (find_all (codes "proxy") (entries cf)) (λ pr.
        Every-any (Plain AnyRule) (find_all (codes "rule") (entries pr)) (λ ru e a aut. tt))))
  where
    in_front : (o : Option Daemon) → BuiltAfter AnyRule o → ConfiguredAfter sys.sockets o
    in_front none v = tt
    in_front (some d) v = let c = IsBuilt-IsConfigured AnyRule d.world v in (c, (v, configured c))
