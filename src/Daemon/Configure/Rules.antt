-- ===== src/Daemon/Configure/Rules.antt =====
-- src/ndppd.cc, `configure`: no fault, and the tables that it builds.
use ndppd.Base.{
  get_below, ℕ, ◌<◌, ◌≡◌, refl, Bool, true, false, [], ◌∷◌, ◌++◌, Option, none, some, inl, inr,
  Option-cases, get_elem?, length, length-append, length-set, arith, Bytes, codes, Every-get,
  Every-set, Every-append,
}
use ndppd.Address.{Address}
use ndppd.World.{Rule, Proxy, World, ok, ◌>>=◌, Sockets, set_proxy, open_ifd}
use ndppd.Proxy.Create.{open_ifd-SameSessions}
use ndppd.Proxy.Options.{
  add_serves, add_parent, create, new_config, iface_rule, plain_rule, push_rule, add_iface_rule,
  add_plain_rule,
}
use ndppd.Iface.Safe.{Safe, Safe-bind, Safe-deref}
use ndppd.Iface.Open.{PacketSockets, open_pfd, open_proxy}
use ndppd.Address.Parse.{of_string}
use ndppd.Conf.{Conf, find}
use ndppd.Conf.Load.{value, entries}
use ndppd.Daemon.Configure.{System, flag, configure_rule, set_options, set_config}
use ndppd.Daemon.Configure.Built.{
  IsIdle, IsBuilt, open_ifd-IsBuilt, open_pfd-IsBuilt, add_serves-IsBuilt, add_parent-IsBuilt,
  with_proxy,
}

pub add_serves-proxies : (i pid : ℕ) (w : World) → (add_serves i pid w).proxies ≡ w.proxies
unfolding add_serves
add_serves-proxies i pid w = elim (Option-cases (get_elem? w.ifaces i)) [
  | inl e ↦ rw (e, add_serves) refl
  | inr (f, e) ↦ rw (e, add_serves) refl
]

pub add_parent-proxies : (i pid : ℕ) (w : World) → (add_parent i pid w).proxies ≡ w.proxies
unfolding add_parent
add_parent-proxies i pid w = elim (Option-cases (get_elem? w.ifaces i)) [
  | inl e ↦ rw (e, add_parent) refl
  | inr (f, e) ↦ rw (e, add_parent) refl
]

module _ (P : Rule → Type 0) where
  create-IsBuilt :
      (i : ℕ) (promiscuous : Bool) (w : World)
      → IsBuilt P w
      → IsBuilt P (create i promiscuous w).1
        × ((create i promiscuous w).0 < length (create i promiscuous w).1.proxies)
  unfolding create
  create-IsBuilt i promiscuous w v =
      let p : Proxy = record {
        config = new_config i;
        rules = [];
        sessions = [];
        promiscuous = promiscuous;
      } in
      let w' = record w { proxies = w.proxies ++ (p ∷ []) } in
      let room : length w.proxies < length w'.proxies =
        omega (arith, length-append w.proxies (p ∷ [])) in
      (
        add_serves-IsBuilt P i (length w.proxies) w' room (with_proxy P w p (refl, tt) v),
        rw (add_serves-proxies i (length w.proxies) w') room,
      )

  -- What `proxy::open` gives: the number of a proxy that is there.
  abbrev pub Opened : Option ℕ × World → Type 0
  Opened (none, w) = IsBuilt P w
  Opened (some pid, w) = IsBuilt P w × (pid < length w.proxies)

  pub open_proxy-Opened :
      (sys : Sockets) (packet : PacketSockets) (name : Bytes) (promiscuous : Bool) (w : World)
      → IsBuilt P w
      → Opened (open_proxy sys packet name promiscuous w)
  unfolding open_proxy
  open_proxy-Opened sys packet name promiscuous w v =
      opened (open_pfd sys packet name w).0 (open_pfd sys packet name w).1
        (open_pfd-IsBuilt P sys packet name w v)
    where
      opened :
          (o : Option ℕ) (w' : World)
          → IsBuilt P w'
          → Opened (elim o [
            | none ↦ (none, w')
            | some i ↦ (let (pid, w'') = create i promiscuous w' in (some pid, w''))
          ])
      opened none w' v' = v'
      opened (some i) w' v' = create-IsBuilt i promiscuous w' v'

  -- A proxy that is there, written back.
  set_proxy-IsBuilt :
      (pid : ℕ) (p : Proxy) (w : World) → IsIdle P p → IsBuilt P w → IsBuilt P (set_proxy pid p w)
  unfolding set_proxy
  set_proxy-IsBuilt pid p w h v = record {
    idle = Every-set (IsIdle P) w.proxies pid p v.idle h;
    no_pointers = v.no_pointers;
    known = rw (length-set w.proxies pid p) v.known;
    dirty = v.dirty;
  }

  abbrev pub Stays : ℕ → World → Type 0
  Stays pid w = IsBuilt P w × (pid < length w.proxies)

  push_rule-Stays :
      (pid : ℕ) (ru : Rule) (w : World) → P ru → Stays pid w → Safe (Stays pid) (push_rule pid ru w)
  unfolding push_rule set_proxy
  push_rule-Stays pid ru w h (v, lt) =
      let (p, e) = get_below w.proxies pid lt in
      let idle = Every-get (IsIdle P) w.proxies pid p v.idle e in
      let p' = record p { rules = p.rules ++ (ru ∷ []) } in
      Safe-deref (Stays pid) (get_elem? w.proxies pid) _ p e (
        set_proxy-IsBuilt pid p' w (idle.0, Every-append P p.rules (ru ∷ []) idle.1 (h, tt)) v,
        rw (length-set w.proxies pid p') lt,
      )

  pub set_config-Stays :
      (pid : ℕ) (cf : Conf) (w : World) → Stays pid w → Safe (Stays pid) (set_config pid cf w)
  unfolding set_config set_proxy
  set_config-Stays pid cf w (v, lt) =
      let (p, e) = get_below w.proxies pid lt in
      let p' = record p { config = set_options cf p.config } in
      Safe-deref (Stays pid) (get_elem? w.proxies pid) _ p e (
        set_proxy-IsBuilt pid p' w (Every-get (IsIdle P) w.proxies pid p v.idle e) v,
        rw (length-set w.proxies pid p') lt,
      )

  -- The static flags of the rules do not matter.
  flagged :
      (w : World) (aut static iface : Bool)
      → IsBuilt P w
      → IsBuilt P (record w { any_aut = aut; any_static = static; any_iface = iface })
  flagged w aut static iface v = record {
    idle = v.idle;
    no_pointers = v.no_pointers;
    known = v.known;
    dirty = v.dirty;
  }

  open_ifd-Stays :
      (sys : Sockets) (name : Bytes) (pid : ℕ) (w : World)
      → Stays pid w
      → Stays pid (open_ifd sys name w).1
  open_ifd-Stays sys name pid w (v, lt) =
      (open_ifd-IsBuilt P sys name w v, rw (open_ifd-SameSessions sys name w).proxies lt)

  -- A rule without an interface is of this kind.
  abbrev pub Plain : Conf → Type 0
  Plain ru =
      find (codes "iface") (entries ru) ≡ none → (a : Address) (aut : Bool) → P (plain_rule a aut)

  abbrev pub Kept : ℕ → Bool × World → Type 0
  Kept pid r = Stays pid r.1

  module _ (wired : (a : Address) (i : ℕ) (via : Bool) → P (iface_rule a i via))
      (sys : System) where
    with_iface :
        (pid : ℕ) (a : Address) (via : Bool) (ifa : Option ℕ) (w : World)
        → Stays pid w
        → Safe (Kept pid) (elim ifa [
          | none ↦ ok (false, w)
          | some i ↦ add_iface_rule pid a i via (add_parent i pid w) >>= λ w'. ok (true, w')
        ])
    unfolding add_iface_rule
    with_iface pid a via none w v = v
    with_iface pid a via (some i) w (v, lt) =
        let w' = add_parent i pid w in
        Safe-bind (Stays pid) (Kept pid)
          (push_rule pid (iface_rule a i via) (record w' { any_iface = true })) _
          (push_rule-Stays pid (iface_rule a i via) _ (wired a i via) (
            flagged w' w'.any_aut w'.any_static true (add_parent-IsBuilt P i pid w lt v),
            rw (add_parent-proxies i pid w) lt,
          ))
          (λ w'' h. h)

    pub configure_rule-Safe :
        (pid : ℕ) (ru : Conf) (w : World)
        → Plain ru
        → Stays pid w
        → Safe (Kept pid) (configure_rule sys pid ru w)
    unfolding configure_rule add_plain_rule
    configure_rule-Safe pid ru w plain v = elim (Option-cases (find (codes "iface") (entries ru))) [
      | inr (x, e) ↦
          let (ifa, w') = open_ifd sys.sockets (value x) w in
          rw (e, configure_rule)
            (with_iface pid (of_string sys.pton (value ru)) (flag (codes "autovia") false ru) ifa w'
              (open_ifd-Stays sys.sockets (value x) pid w v))
      | inl e ↦
          rw (e, configure_rule)
            (Safe-bind (Stays pid) (Kept pid) _ _
              (push_rule-Stays pid _ _ (plain e _ _) (flagged w _ _ w.any_iface v.0, v.1))
              (λ w'' h. h))
    ]
