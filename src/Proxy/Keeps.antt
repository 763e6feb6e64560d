-- ===== src/Proxy/Keeps.antt =====
-- src/proxy.cc: the handlers, on a table of sessions that is well formed.
use ndppd.Base.{
  ℕ, ◌≡◌, refl, ◌∙◌, sym, inl, inr, Bool, true, false, List, [], ◌∷◌, ◌++◌, Option, none, some,
  arith, Bool-cases, Option-cases, get_elem?, get_elem?-set_self, Bytes,
}
use ndppd.Address.{Address}
use ndppd.Output.{Output}
use ndppd.Session.{Config, Session}
use ndppd.Session.Answer.{taddr-serve, taddr-handle_auto_wire}
use ndppd.World.{Proxy, World, ok, Ensures, Ensures-bind, send, set_proxy, Sockets, ◌>>=◌}
use ndppd.Proxy.{
  find_session, put_session, Handle, stored, only_local, session_of, finish, keep_draft,
  find_or_create_session, handle_solicit, handle_stateless_advert, serve, wire, Progress, more,
  done, visit_rules,
}
use ndppd.Proxy.Update.{lookup_session}
use ndppd.Proxy.Create.{SameSessions, IsFresh, IsProgress, visit_rules-IsProgress}
use ndppd.Proxy.Entries.{
  holds, holds-put_session, Distinct-put_session, find_session-lookup, lookup-append,
}
use ndppd.Proxy.Listed.{Listed, mem, mem-append, shrink, grow, grow_weak, get_some-lt}

-- A stored handle names an entry of the proxy's list.
abbrev pub HandleIn : World → ℕ → Option Handle → Type 0
HandleIn w pid none = Unit {0}
HandleIn w pid (some (only_local i s)) = Unit {0}
HandleIn w pid (some (stored i s)) =
    (q : Proxy) × (get_elem? w.proxies pid ≡ some q) × (lookup_session i q.sessions ≡ some s)

unheld_next :
    (w : World)
    → Listed w
    → (qid : ℕ) (q : Proxy) → get_elem? w.proxies qid ≡ some q
    → holds w.next_session q.sessions ≡ false
unheld_next w v qid q e = elim (Bool-cases (holds w.next_session q.sessions)) [
  | inl held ↦ absurd (omega (arith, v.numbered qid w.next_session q e held))
  | inr free ↦ free
]

same_Listed : (w w' : World) → Listed w → SameSessions w w' → Listed w'
same_Listed w w' v same = rw (same.proxies, same.session_list, same.next_session) v

fresh_Listed :
    (w w' : World) (taddr : Address) (i : ℕ) (s : Session)
    → Listed w
    → IsFresh w taddr i s w'
    → Listed w'
fresh_Listed w w' taddr i s v f =
    rw (f.proxies, f.session_list, f.next_session, f.number) (grow_weak v)

module _ (w : World) (pid : ℕ) (p : Proxy) (taddr : Address) (v : Listed w)
    (at : get_elem? w.proxies pid ≡ some p) (absent : find_session taddr p.sessions ≡ none) where
  keep_draft-Listed :
      (r : Progress)
      → IsProgress w taddr r
      → Listed (keep_draft pid p r).1 × HandleIn (keep_draft pid p r).1 pid (keep_draft pid p r).0
  unfolding keep_draft set_proxy
  keep_draft-Listed (more none w') same = (same_Listed w w' v same, tt)
  keep_draft-Listed (done i s w') f = (fresh_Listed w w' taddr i s v f, tt)
  keep_draft-Listed (more (some (i, s)) w') f = (
    grow w'.proxies w'.session_list w'.next_session pid p i s (fresh_Listed w w' taddr i s v f) at'
        in_weak (omega (arith, f.next_session, f.number)) free (rw f.target absent),
    (
      record p { sessions = p.sessions ++ (i, s) ∷ [] },
      get_elem?-set_self w'.proxies pid _ (get_some-lt w'.proxies pid p at'),
      lookup-append i s p.sessions (free pid p at'),
    ),
  )
    where
      at' : get_elem? w'.proxies pid ≡ some p
      at' = rw f.proxies at

      in_weak : mem i w'.session_list ≡ true
      in_weak = rw f.session_list (ground (arith, mem-append i w.session_list (i ∷ [])))

      free : (qid : ℕ) (q : Proxy) → get_elem? w'.proxies qid ≡ some q → holds i q.sessions ≡ false
      free qid q e = rw f.number (unheld_next w v qid q (rw f.proxies at e))

pub find_or_create_found :
    (sys : Sockets) (pid : ℕ) (p : Proxy) (taddr : Address) (w : World) (i : ℕ) (s : Session)
    → find_session taddr p.sessions ≡ some (i, s)
    → find_or_create_session sys pid p taddr w ≡ ok (some (stored i s), w)
unfolding find_or_create_session
find_or_create_found sys pid p taddr w i s e = rw (e, find_or_create_session)

pub find_or_create_new :
    (sys : Sockets) (pid : ℕ) (p : Proxy) (taddr : Address) (w : World)
    → find_session taddr p.sessions ≡ none
    → find_or_create_session sys pid p taddr w ≡ (
        visit_rules sys p.config taddr p.rules none w >>= λ progress.
        ok (keep_draft pid p progress))
unfolding find_or_create_session
find_or_create_new sys pid p taddr w e = rw (e, find_or_create_session)

module _ (sys : Sockets) (w : World) (pid : ℕ) (p : Proxy) (taddr : Address) (v : Listed w)
    (at : get_elem? w.proxies pid ≡ some p) where
  find_or_create_Listed :
      Ensures (λ r. Listed r.1 × HandleIn r.1 pid r.0) (find_or_create_session sys pid p taddr w)
  find_or_create_Listed = elim (Option-cases (find_session taddr p.sessions)) [
    | inr ((i, s), e) ↦
        rw (find_or_create_found sys pid p taddr w i s e)
          (v, (p, at, find_session-lookup taddr i s p.sessions (v.distinct pid p at) e))
    | inl e ↦ rw (find_or_create_new sys pid p taddr w e) (
        Ensures-bind (IsProgress w taddr) (λ r. Listed r.1 × HandleIn r.1 pid r.0) _ _
          (visit_rules-IsProgress sys p.config taddr p.rules w none w
            (record { proxies = refl; session_list = refl; next_session = refl }))
          (keep_draft-Listed w pid p taddr v at e))
  ]

-- A session that is given back with its own target.
finish-Listed :
    (w : World) (pid : ℕ) (h : Handle) (s : Session)
    → Listed w
    → HandleIn w pid (some h)
    → s.taddr ≡ (session_of h).taddr
    → Listed (finish pid h s w)
unfolding finish set_proxy send
finish-Listed w pid (only_local i t) s v hin e = v
finish-Listed w pid (stored i t) s v (q, at, found) e =
    rw (at, finish)
      (shrink w.proxies w.session_list w.next_session pid q
        (record q { sessions = put_session i s q.sessions }) v at
        (λ j h. sym (holds-put_session i j s q.sessions) ∙ h)
        (Distinct-put_session i t s q.sessions found e (v.distinct pid q at)))

send-Listed : (sent : List Output) (w : World) → Listed w → Listed (send sent w)
unfolding send
send-Listed sent w v = v

send-HandleIn :
    (sent : List Output) (w : World) (pid : ℕ) (h : Handle)
    → HandleIn w pid (some h)
    → HandleIn (send sent w) pid (some h)
unfolding send
send-HandleIn sent w pid (stored i s) hin = hin
send-HandleIn sent w pid (only_local i s) hin = tt

-- The end of a handler that acts on the session it found.
act_Listed :
    (pid : ℕ) (act : Session → Session × List Output)
    → ((s : Session) → (act s).0.taddr ≡ s.taddr)
    → (h : Handle) (w : World) → Listed w
    → HandleIn w pid (some h)
    → Listed (finish pid h (act (session_of h)).0 (send (act (session_of h)).1 w))
act_Listed pid act keeps h w v hin =
    finish-Listed (send (act (session_of h)).1 w) pid h (act (session_of h)).0
      (send-Listed (act (session_of h)).1 w v) (send-HandleIn (act (session_of h)).1 w pid h hin)
      (keeps (session_of h))

taddr-wire :
    (c : Config) (s : Session) (saddr : Address) (ifname : Bytes) (use_via : Bool)
    → (wire c s saddr ifname use_via).0.taddr ≡ s.taddr
unfolding wire
taddr-wire c s saddr ifname use_via = ground (arith, taddr-handle_auto_wire s saddr ifname use_via)

act_found :
    (pid : ℕ) (act : Session → Session × List Output)
    → ((s : Session) → (act s).0.taddr ≡ s.taddr)
    → (o : Option Handle) (w : World) → Listed w
    → HandleIn w pid o
    → Ensures Listed (elim o [
      | none ↦ ok w
      | some h ↦ ok (finish pid h (act (session_of h)).0 (send (act (session_of h)).1 w))
    ])
act_found pid act keeps none w v hin = v
act_found pid act keeps (some h) w v hin = act_Listed pid act keeps h w v hin

-- A solicitation, whether it finds a session or creates one, leaves every session listed,
-- numbered and distinct, unless a fault ends the daemon.
pub handle_solicit-Listed :
    (sys : Sockets) (pid : ℕ) (saddr taddr : Address) (w : World)
    → Listed w
    → Ensures Listed (handle_solicit sys pid saddr taddr w)
unfolding handle_solicit
handle_solicit-Listed sys pid saddr taddr w v = elim (Option-cases (get_elem? w.proxies pid)) [
  | inl e ↦ rw e tt
  | inr (p, e) ↦ rw e (
      Ensures-bind (λ r. Listed r.1 × HandleIn r.1 pid r.0) Listed _ _
        (find_or_create_Listed sys w pid p taddr v e)
        (λ r found.
          act_found pid (λ s. serve p.config s saddr taddr)
            (λ s. taddr-serve p.config s saddr taddr) r.0 r.1 found.0 found.1))
]

-- A stateless advertisement leaves every session listed, numbered and distinct, unless a fault
-- ends the daemon.
pub handle_stateless_advert-Listed :
    (sys : Sockets) (pid : ℕ) (saddr taddr : Address) (ifname : Bytes) (use_via : Bool) (w : World)
    → Listed w
    → Ensures Listed (handle_stateless_advert sys pid saddr taddr ifname use_via w)
unfolding handle_stateless_advert
handle_stateless_advert-Listed sys pid saddr taddr ifname use_via w v =
    elim (Option-cases (get_elem? w.proxies pid)) [
      | inl e ↦ rw e tt
      | inr (p, e) ↦ rw e (
          Ensures-bind (λ r. Listed r.1 × HandleIn r.1 pid r.0) Listed _ _
            (find_or_create_Listed sys w pid p taddr v e)
            (λ r found.
              act_found pid (λ s. wire p.config s saddr ifname use_via)
                (λ s. taddr-wire p.config s saddr ifname use_via) r.0 r.1 found.0 found.1))
    ]
