-- ===== src/Daemon/Configure/Run.antt =====
-- src/ndppd.cc: `main`, from the configuration on.
use ndppd.Base.{
  ℕ, refl, Bool, false, List, [], ◌∷◌, Option, none, some, inl, inr, Bool-cases, codes, Every,
}
use ndppd.Address.{Address}
use ndppd.World.{Rule, World, ok, ◌>>=◌}
use ndppd.Proxy.Options.{iface_rule}
use ndppd.Iface.Safe.{Safe, Safe-bind, Safe-weaken}
use ndppd.Iface.Open.{open_proxy}
use ndppd.Conf.{Conf, find_all}
use ndppd.Conf.Load.{value, entries, is_empty}
use ndppd.Daemon.{Daemon}
use ndppd.Daemon.Configure.{
  System, flag, configure_rule, configure_rules, set_config, configure_proxy, configure_proxies,
  no_world, start_daemon, configure,
}
use ndppd.Daemon.Configure.Built.{IsBuilt}
use ndppd.Daemon.Configure.Rules.{
  Opened, Stays, Plain, Kept, open_proxy-Opened, set_config-Stays, configure_rule-Safe,
}

module _ (P : Rule → Type 0) where
  abbrev Built : Bool × World → Type 0
  Built r = IsBuilt P r.1

  -- The rules of a block for a proxy.
  abbrev pub PlainRules : Conf → Type 0
  PlainRules cf = Every (Plain P) (find_all (codes "rule") (entries cf))

  abbrev pub BuiltAfter : Option Daemon → Type 0
  BuiltAfter none = Unit {0}
  BuiltAfter (some d) = IsBuilt P d.world

  module _ (wired : (a : Address) (i : ℕ) (via : Bool) → P (iface_rule a i via))
      (sys : System) where
    configure_rules-Safe :
        (pid : ℕ) (rules : List Conf) (w : World)
        → Every (Plain P) rules
        → Stays P pid w
        → Safe (Kept P pid) (configure_rules sys pid rules w)
    unfolding configure_rules
    configure_rules-Safe pid [] w h v = v
    configure_rules-Safe pid (ru ∷ rules) w h v =
        Safe-bind (Kept P pid) (Kept P pid) (configure_rule sys pid ru w) _
          (configure_rule-Safe P wired sys pid ru w h.0 v)
          (λ r s. elim (Bool-cases r.0) [
            | inr stop ↦ rw stop s
            | inl on ↦ rw on (configure_rules-Safe pid rules r.1 h.1 s)
          ])

    -- The rest of the body, with the proxy.
    with_proxy :
        (cf : Conf) (pr : Option ℕ) (w : World)
        → PlainRules cf
        → Opened P (pr, w)
        → Safe Built (elim pr [
          | none ↦ ok (false, w)
          | some pid ↦
              set_config pid cf w >>= configure_rules sys pid (find_all (codes "rule") (entries cf))
        ])
    with_proxy cf none w h v = v
    with_proxy cf (some pid) w h v =
        Safe-bind (Stays P pid) Built (set_config pid cf w) _ (set_config-Stays P pid cf w v)
          (λ w' v'.
            Safe-weaken (configure_rules sys pid (find_all (codes "rule") (entries cf)) w')
              (λ r s. s.0)
              (configure_rules-Safe pid (find_all (codes "rule") (entries cf)) w' h v'))

    configure_proxy-Safe :
        (cf : Conf) (w : World)
        → PlainRules cf
        → IsBuilt P w
        → Safe Built (configure_proxy sys cf w)
    unfolding configure_proxy
    configure_proxy-Safe cf w h v = elim (Bool-cases (is_empty (value cf))) [
      | inl e ↦ rw e v
      | inr e ↦
          let r =
            open_proxy sys.sockets sys.packet (value cf) (flag (codes "promiscuous") false cf) w in
          rw e (
            with_proxy cf r.0 r.1 h (
              open_proxy-Opened P sys.sockets sys.packet (value cf)
                (flag (codes "promiscuous") false cf) w v))
    ]

    configure_proxies-Safe :
        (cfs : List Conf) (w : World)
        → Every PlainRules cfs
        → IsBuilt P w
        → Safe Built (configure_proxies sys cfs w)
    unfolding configure_proxies
    configure_proxies-Safe [] w h v = v
    configure_proxies-Safe (cf ∷ cfs) w h v =
        Safe-bind Built Built (configure_proxy sys cf w) _ (configure_proxy-Safe cf w h.0 v) (λ r s.
          elim (Bool-cases r.0) [
            | inr stop ↦ rw stop s
            | inl on ↦ rw on (configure_proxies-Safe cfs r.1 h.1 s)
          ])

    no_world-IsBuilt : IsBuilt P no_world
    no_world-IsBuilt = record {
      idle = tt;
      no_pointers = refl;
      known = tt;
      dirty = inr (refl, refl);
    }

    pub configure-Built :
        (cf : Conf)
        → Every PlainRules (find_all (codes "proxy") (entries cf))
        → Safe BuiltAfter (configure sys cf)
    unfolding configure start_daemon
    configure-Built cf h =
        Safe-bind Built BuiltAfter
          (configure_proxies sys (find_all (codes "proxy") (entries cf)) no_world) _
          (configure_proxies-Safe (find_all (codes "proxy") (entries cf)) no_world h
            no_world-IsBuilt)
          (λ r s. elim (Bool-cases r.0) [ inr stop ↦ rw stop tt | inl on ↦ rw on s ])
