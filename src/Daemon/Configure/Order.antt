-- ===== src/Daemon/Configure/Order.antt =====
-- src/ndppd.cc, `configure`: one proxy after the other.
use ndppd.Base.{
  ℕ, ◌≡◌, refl, ap, ◌∙◌, sym, subst, Bool, true, false, List, [], ◌∷◌, ◌++◌, map, append_nil,
  append_assoc, Option, none, some, inl, inr, Bool-cases, Option-cases, get_elem?, length, Bytes,
  codes,
}
use ndppd.Base.Int.{ℤ}
use ndppd.World.{
  Proxy, World, ok, ◌>>=◌, Sockets, find_iface, Ensures, Ensures-bind, Ensures-weaken,
}
use ndppd.Proxy.Create.{open_ifd-SameSessions}
use ndppd.Proxy.Options.{create, new_config}
use ndppd.Iface.Open.{PacketSockets, listening, reuse_or_open, install_pfd, open_pfd, open_proxy}
use ndppd.Conf.{Conf, find_all}
use ndppd.Conf.Load.{value, entries, is_empty}
use ndppd.Daemon.{Daemon}
use ndppd.Daemon.Configure.{
  System, flag, set_config, configure_rules, configure_proxy, configure_proxies, no_world,
  start_daemon, configure,
}
use ndppd.Daemon.Configure.Rules.{add_serves-proxies}
use ndppd.Daemon.Configure.Tables.{View, view, wanted, map-append, Ends, Going, with_proxy}

install_pfd-proxies : (i : ℕ) (fd : ℤ) (w : World) → (install_pfd i fd w).proxies ≡ w.proxies
unfolding install_pfd
install_pfd-proxies i fd w = elim (Option-cases (get_elem? w.ifaces i)) [
  | inl e ↦ rw (e, install_pfd) refl
  | inr (f, e) ↦ rw (e, install_pfd) refl
]

reuse_or_open-proxies :
    (sys : Sockets) (name : Bytes) (o : Option ℕ) (w : World)
    → (reuse_or_open sys name o w).1.proxies ≡ w.proxies
unfolding reuse_or_open
reuse_or_open-proxies sys name (some i) w = refl
reuse_or_open-proxies sys name none w = (open_ifd-SameSessions sys name w).proxies

listen-proxies :
    (packet : PacketSockets) (name : Bytes) (found : Option ℕ) (w : World)
    → (elim found as (λ _. Option ℕ × World) [
      | none ↦ (none, w)
      | some i ↦ elim (packet name) [ none ↦ (none, w) | some fd ↦ (some i, install_pfd i fd w) ]
    ]).1.proxies
      ≡ w.proxies
listen-proxies packet name none w = refl
listen-proxies packet name (some i) w = elim (Option-cases (packet name)) [
  | inl e ↦ rw e refl
  | inr (fd, e) ↦ rw e (install_pfd-proxies i fd w)
]

open_pfd-proxies :
    (sys : Sockets) (packet : PacketSockets) (name : Bytes) (w : World)
    → (open_pfd sys packet name w).1.proxies ≡ w.proxies
unfolding open_pfd
open_pfd-proxies sys packet name w = elim (Option-cases (listening w (find_iface name w.ifaces))) [
  | inr (i, e) ↦ rw (e, open_pfd) refl
  | inl e ↦
      rw (e, open_pfd)
        (listen-proxies packet name (reuse_or_open sys name (find_iface name w.ifaces) w).0 _
          ∙ reuse_or_open-proxies sys name (find_iface name w.ifaces) w)
]

-- What `proxy::open` gives: the number of a proxy that is behind those that were there.
abbrev Appended : World → Bool → Option ℕ × World → Type 0
Appended w promiscuous (none, w') = Unit {0}
Appended w promiscuous (some pid, w') =
    (pid ≡ length w.proxies) × Ends w.proxies ((new_config 0, promiscuous), []) w'

create-Ends :
    (i : ℕ) (promiscuous : Bool) (w : World)
    → ((create i promiscuous w).0 ≡ length w.proxies)
      × Ends w.proxies ((new_config 0, promiscuous), []) (create i promiscuous w).1
unfolding create new_config
create-Ends i promiscuous w =
    let p : Proxy = record {
      config = new_config i;
      rules = [];
      sessions = [];
      promiscuous = promiscuous;
    } in
    (
      refl,
      (
        p,
        add_serves-proxies i (length w.proxies) (record w { proxies = w.proxies ++ (p ∷ []) }),
        refl,
      ),
    )

open_proxy-Appended :
    (sys : Sockets) (packet : PacketSockets) (name : Bytes) (promiscuous : Bool) (w : World)
    → Appended w promiscuous (open_proxy sys packet name promiscuous w)
unfolding open_proxy
open_proxy-Appended sys packet name promiscuous w =
    opened (open_pfd sys packet name w).0 (open_pfd sys packet name w).1
      (open_pfd-proxies sys packet name w)
  where
    opened :
        (o : Option ℕ) (w' : World)
        → w'.proxies ≡ w.proxies
        → Appended w promiscuous (elim o [
          | none ↦ (none, w')
          | some i ↦ (let (pid, w'') = create i promiscuous w' in (some pid, w''))
        ])
    opened none w' same = tt
    opened (some i) w' same =
        subst
          (λ ps.
            ((create i promiscuous w').0 ≡ length ps)
            × Ends ps ((new_config 0, promiscuous), []) (create i promiscuous w').1)
          same (create-Ends i promiscuous w')

-- The proxies, as the configuration describes them.
abbrev pub views : World → List (View)
views w = map view w.proxies

Ends-views :
    (ps : List Proxy) (v : View) (w : World) → Ends ps v w → views w ≡ map view ps ++ (v ∷ [])
Ends-views ps v w (p, e, same) =
    ap (map view) e ∙ map-append view ps (p ∷ []) ∙ ap (λ u. map view ps ++ (u ∷ [])) same

clash : (b : Bool) → b ≡ false → b ≡ true → ⊥
clash b e f = cc

module _ (sys : System) where
  opened :
      (cf : Conf) (w : World) (o : Option ℕ) (w' : World)
      → Appended w (flag (codes "promiscuous") false cf) (o, w')
      → Ensures (Going (λ w'. (views w' ≡ views w ++ (wanted sys cf ∷ [])))) (elim o [
        | none ↦ ok (false, w')
        | some pid ↦
            set_config pid cf w' >>= configure_rules sys pid (find_all (codes "rule") (entries cf))
      ])
  opened cf w none w' h = λ stop. absurd cc
  opened cf w (some pid) w' (place, ends) = rw place (
      Ensures-weaken
        (set_config (length w.proxies) cf w'
          >>= configure_rules sys (length w.proxies) (find_all (codes "rule") (entries cf)))
        (λ r h going. Ends-views w.proxies (wanted sys cf) r.1 (h going))
        (with_proxy sys w.proxies cf w' ends))

  configure_proxy-views :
      (cf : Conf) (w : World)
      → Ensures
          (Going (λ w'. (views w' ≡ views w ++ (wanted sys cf ∷ []))))
          (configure_proxy sys cf w)
  unfolding configure_proxy
  configure_proxy-views cf w = elim (Bool-cases (is_empty (value cf))) [
    | inl e ↦ rw e (λ stop. absurd cc)
    | inr e ↦
        let r =
          open_proxy sys.sockets sys.packet (value cf) (flag (codes "promiscuous") false cf) w in
        rw e (
          opened cf w r.0 r.1 (
            open_proxy-Appended sys.sockets sys.packet (value cf)
              (flag (codes "promiscuous") false cf) w))
  ]

  configure_proxies-views :
      (cfs : List Conf) (w : World)
      → Ensures
          (Going (λ w'. (views w' ≡ views w ++ map (wanted sys) cfs)))
          (configure_proxies sys cfs w)
  unfolding configure_proxies
  configure_proxies-views [] w = λ going. sym (append_nil (views w))
  configure_proxies-views (cf ∷ cfs) w =
      Ensures-bind (Going (λ w'. (views w' ≡ views w ++ (wanted sys cf ∷ [])))) _
        (configure_proxy sys cf w) _ (configure_proxy-views cf w)
        (λ r h. elim (Bool-cases r.0) [
          | inr stop ↦ rw stop (λ going. absurd (clash r.0 stop going))
          | inl on ↦ rw on (
              subst (λ vs. Ensures (Going (λ w'. (views w' ≡ vs))) (configure_proxies sys cfs r.1))
                (ap (λ vs. vs ++ map (wanted sys) cfs) (h on)
                  ∙ append_assoc (views w) (wanted sys cf ∷ []) (map (wanted sys) cfs))
                (configure_proxies-views cfs r.1))
        ])

  abbrev pub ViewsAfter : Conf → Option Daemon → Type 0
  ViewsAfter cf none = Unit {0}
  ViewsAfter cf (some d) = views d.world ≡ map (wanted sys) (find_all (codes "proxy") (entries cf))

  pub configure-ViewsAfter : (cf : Conf) → Ensures (ViewsAfter cf) (configure sys cf)
  unfolding configure start_daemon
  configure-ViewsAfter cf =
      Ensures-bind
        (Going (λ w'. (views w' ≡ map (wanted sys) (find_all (codes "proxy") (entries cf)))))
        (ViewsAfter cf) (configure_proxies sys (find_all (codes "proxy") (entries cf)) no_world) _
        (configure_proxies-views (find_all (codes "proxy") (entries cf)) no_world)
        (λ r h. elim (Bool-cases r.0) [ inr stop ↦ rw stop tt | inl on ↦ rw on (h on) ])
