-- ===== src/Iface/NoFault.antt =====
-- src/iface.cc and src/proxy.cc: the handlers of a daemon that has interface rules alone.
use ndppd.Base.{
  get_below, sym, List, ℕ, ◌<◌, ◌≡◌, refl, ◌∙◌, inl, inr, Bool, List, Option, none, some, arith,
  Option-cases, get_elem?, length-set, Bytes,
}
use ndppd.Address.{Address}
use ndppd.Output.{Output}
use ndppd.Session.{Session}
use ndppd.World.{Iface, Proxy, World, ok, send, set_proxy, Sockets}
use ndppd.Proxy.{
  find_session, Progress, more, done, visit_rules, Handle, stored, only_local, session_of,
  keep_draft, find_or_create_session, finish, serve, wire, handle_solicit, handle_stateless_advert,
  advert_all, handle_advert,
}
use ndppd.Proxy.Listed.{get_elem?-set}
use ndppd.Proxy.Keeps.{find_or_create_found, find_or_create_new}
use ndppd.Iface.Safe.{
  Safe, Safe-bind, Safe-deref, IsSane, SameTables, Harmless, visit_rules-Harmless,
}

module _ (n : ℕ) (fs : List Iface) where
  pub same-IsSane : (w w' : World) → SameTables w w' → IsSane n fs w → IsSane n fs w'
  same-IsSane w w' same v = record {
    proxy_count = rw same.0 v.proxy_count;
    iface_table = rw same.1 v.iface_table;
    fresh = λ e. same.3 ∙ v.fresh (sym same.2 ∙ e);
    wired_rules = rw same.0 v.wired_rules;
    served = rw same.1 v.served;
    parented = rw same.1 v.parented;
  }

  -- A proxy written back with its rules.
  pub set-IsSane :
      (w : World) (pid : ℕ) (p p' : Proxy)
      → get_elem? w.proxies pid ≡ some p
      → p'.rules ≡ p.rules
      → IsSane n fs w
      → IsSane n fs (set_proxy pid p' w)
  unfolding set_proxy
  set-IsSane w pid p p' at same v = record {
    proxy_count = length-set w.proxies pid p' ∙ v.proxy_count;
    iface_table = v.iface_table;
    fresh = v.fresh;
    wired_rules = λ qid q e. elim (get_elem?-set w.proxies pid qid p p' q at e) [
      | inl (here, is_p') ↦ rw (is_p', same) (v.wired_rules pid p at)
      | inr (other, there) ↦ v.wired_rules qid q there
    ];
    served = v.served;
    parented = v.parented;
  }

  pub send-IsSane : (sent : List Output) (w : World) → IsSane n fs w → IsSane n fs (send sent w)
  unfolding send
  send-IsSane sent w v = same-IsSane w (send sent w) (refl, refl, refl, refl) v

  keep_draft-IsSane :
      (w : World) (pid : ℕ) (p : Proxy) (r : Progress)
      → get_elem? w.proxies pid ≡ some p
      → IsSane n fs w
      → Harmless w r
      → IsSane n fs (keep_draft pid p r).1
  unfolding keep_draft
  keep_draft-IsSane w pid p (more none w') at v h = same-IsSane w w' h v
  keep_draft-IsSane w pid p (more (some (i, s)) w') at v h =
      set-IsSane w' pid p _ (rw h.0 at) refl (same-IsSane w w' h v)
  keep_draft-IsSane w pid p (done i s w') at v h = absurd h

  find_or_create-Safe :
      (sys : Sockets) (w : World) (pid : ℕ) (p : Proxy) (taddr : Address)
      → get_elem? w.proxies pid ≡ some p
      → IsSane n fs w
      → Safe (λ r. IsSane n fs r.1) (find_or_create_session sys pid p taddr w)
  find_or_create-Safe sys w pid p taddr at v = elim (Option-cases (find_session taddr p.sessions)) [
    | inr ((i, s), e) ↦ rw (find_or_create_found sys pid p taddr w i s e) v
    | inl e ↦ rw (find_or_create_new sys pid p taddr w e) (
        Safe-bind (Harmless w) (λ r. IsSane n fs r.1)
          (visit_rules sys p.config taddr p.rules none w) _
          (visit_rules-Harmless sys p.config taddr p.rules none w (v.wired_rules pid p at))
          (λ r h. keep_draft-IsSane w pid p r at v h))
  ]

  finish-IsSane :
      (pid : ℕ) (h : Handle) (s : Session) (w : World)
      → IsSane n fs w
      → IsSane n fs (finish pid h s w)
  unfolding finish
  finish-IsSane pid (only_local i t) s w v = send-IsSane _ w v
  finish-IsSane pid (stored i t) s w v = elim (Option-cases (get_elem? w.proxies pid)) [
    | inl e ↦ rw (finish, e) v
    | inr (p, e) ↦ rw (finish, e) (set-IsSane w pid p _ e refl v)
  ]

  -- The end of a handler.
  act-Safe :
      (pid : ℕ) (act : Session → Session × List Output) (o : Option Handle) (w : World)
      → IsSane n fs w
      → Safe (IsSane n fs) (elim o [
        | none ↦ ok w
        | some h ↦ ok (finish pid h (act (session_of h)).0 (send (act (session_of h)).1 w))
      ])
  act-Safe pid act none w v = v
  act-Safe pid act (some h) w v =
      finish-IsSane pid h (act (session_of h)).0 (send (act (session_of h)).1 w)
        (send-IsSane (act (session_of h)).1 w v)

  pub proxy_at :
      (w : World) (pid : ℕ)
      → IsSane n fs w
      → pid < n
      → (p : Proxy) × (get_elem? w.proxies pid ≡ some p)
  proxy_at w pid v lt = get_below w.proxies pid (omega (arith, v.proxy_count))

  pub handle_solicit-Safe :
      (sys : Sockets) (pid : ℕ) (saddr taddr : Address) (w : World)
      → pid < n
      → IsSane n fs w
      → Safe (IsSane n fs) (handle_solicit sys pid saddr taddr w)
  unfolding handle_solicit
  handle_solicit-Safe sys pid saddr taddr w lt v =
      let (p, at) = proxy_at w pid v lt in
      Safe-deref (IsSane n fs) (get_elem? w.proxies pid) _ p at (
        Safe-bind (λ r. IsSane n fs r.1) (IsSane n fs) (find_or_create_session sys pid p taddr w) _
          (find_or_create-Safe sys w pid p taddr at v)
          (λ r h. act-Safe pid (λ s. serve p.config s saddr taddr) r.0 r.1 h))

  pub handle_stateless_advert-Safe :
      (sys : Sockets) (pid : ℕ) (saddr taddr : Address) (ifname : Bytes) (via : Bool) (w : World)
      → pid < n
      → IsSane n fs w
      → Safe (IsSane n fs) (handle_stateless_advert sys pid saddr taddr ifname via w)
  unfolding handle_stateless_advert
  handle_stateless_advert-Safe sys pid saddr taddr ifname via w lt v =
      let (p, at) = proxy_at w pid v lt in
      Safe-deref (IsSane n fs) (get_elem? w.proxies pid) _ p at (
        Safe-bind (λ r. IsSane n fs r.1) (IsSane n fs) (find_or_create_session sys pid p taddr w) _
          (find_or_create-Safe sys w pid p taddr at v)
          (λ r h. act-Safe pid (λ s. wire p.config s saddr ifname via) r.0 r.1 h))

  pub handle_advert-Safe :
      (pid : ℕ) (saddr taddr : Address) (ifname : Bytes) (via : Bool) (w : World)
      → pid < n
      → IsSane n fs w
      → Safe (IsSane n fs) (handle_advert pid saddr taddr ifname via w)
  unfolding handle_advert
  handle_advert-Safe pid saddr taddr ifname via w lt v =
      let (p, at) = proxy_at w pid v lt in
      Safe-deref (IsSane n fs) (get_elem? w.proxies pid) _ p at (
        send-IsSane (advert_all p.config saddr taddr ifname via p.sessions).1 _
          (set-IsSane w pid p _ at refl v))
