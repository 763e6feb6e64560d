-- ===== src/Proxy.antt =====
-- src/proxy.cc: sessions found and created, solicitations and advertisements handled.
pub mod Options
pub mod Create
pub mod Entries
pub mod Listed
pub mod Keeps
pub mod Update
pub mod Aging
pub mod Turns
pub mod Elapse
pub mod Adverts
pub mod Survive
pub mod Faults
use ndppd.Base.{
  ℕ, suc, ◌+◌, Bool, true, false, not, ◌&&◌, ◌||◌, List, [], ◌∷◌, ◌++◌, map, Option, none, some,
  ◌==◌, if◌then◌else◌, get_elem?, Bytes, equal_text,
}
use ndppd.Base.Int.{ℤ}
use ndppd.Address.{Address, equal, not_equal}
use ndppd.Output.{Output}
use ndppd.Session.{
  Config, Session, Status, waiting, renewing, valid, invalid, create, add_iface, add_pending, touch,
  send_advert, confirm, handle_auto_wire, destroy,
}
use ndppd.Session
use ndppd.World.{
  Rule, Proxy, Route, World, Result, ok, throw, ◌>>=◌, deref, send, set_proxy, iface_name,
  iface_names, Sockets, find_route, route_ifa,
}

-- The first loop of `find_or_create_session`: the number of the session for this address.
unfoldable pub find_session : Address → List (ℕ × Session) → Option (ℕ × Session)
find_session taddr [] = none
find_session taddr ((i, s) ∷ rest) =
    if equal s.taddr taddr then some (i, s) else find_session taddr rest

-- The session that the second loop is building: its number and what it is by now.
abbrev pub Draft : Type 0
Draft = Option (ℕ × Session)

-- `if (!se) se = session::create(...)`, which also enters the weak list.
unfoldable pub draft : Config → Address → Draft → World → (ℕ × Session) × World
draft c taddr (some d) w = (d, w)
draft c taddr none w = (
  (w.next_session, create c taddr c.autowire c.keepalive c.retries),
  record w {
    session_list = w.session_list ++ w.next_session ∷ [];
    next_session = suc w.next_session;
  },
)

-- `ifa && (ifa != ru->daughter())`
unfoldable pub is_new_daughter : Option ℕ → Option ℕ → Bool
is_new_daughter none d = false
is_new_daughter (some i) none = true
is_new_daughter (some i) (some d) = not (i == d)

abbrev add_found : Option ℕ → Option ℕ → Session → Session
add_found none d s = s
add_found (some i) d s = if is_new_daughter (some i) d then add_iface i s else s

-- The branch of an `auto` rule.
unfoldable pub apply_auto :
    Sockets → Config → Address → Rule → Session → World → Result (Session × World)
apply_auto sys c taddr ru s w = deref (find_route taddr w.routes) >>= λ found.
    if equal_text found.1.ifname (iface_name w c.ifa)
    then ok (s, w)
    else (let (ifa, w') = route_ifa sys found.0 found.1 w in ok (add_found ifa ru.daughter s, w'))

-- Where the second loop stands after a rule: `done` is the early return of a static rule.
pub data Progress : Type 0 where
  more : Draft → World → Progress
  done : ℕ → Session → World → Progress

-- The body of the second loop for a rule that matches, with the session at hand.
unfoldable pub apply_rule :
    Sockets → Config → Address → Rule → ℕ → Session → World → Result Progress
apply_rule sys c taddr ru i s w =
    if ru.aut
    then (apply_auto sys c taddr ru s w >>= λ r. ok (more (some (i, r.0)) r.1))
    else elim ru.daughter [
      | none ↦ (let (s', sent) = confirm c s in ok (done i s' (send sent w)))
      | some d ↦ ok (more (some (i, add_iface d s)) w)
    ]

unfoldable pub visit_rule : Sockets → Config → Address → Rule → Draft → World → Result Progress
visit_rule sys c taddr ru d w =
    if equal ru.addr taddr
    then (let ((i, s), w') = draft c taddr d w in apply_rule sys c taddr ru i s w')
    else ok (more d w)

-- The second loop.
unfoldable pub visit_rules :
    Sockets → Config → Address → List Rule → Draft → World → Result Progress
visit_rules sys c taddr [] d w = ok (more d w)
visit_rules sys c taddr (ru ∷ rules) d w =
    visit_rule sys c taddr ru d w
    >>= elim [ more d' w' ↦ visit_rules sys c taddr rules d' w' | done i s w' ↦ ok (done i s w') ]

-- What `find_or_create_session` returns, other than null: a session that the proxy's list holds, or
-- one that only the local variable of the caller holds.
pub data Handle : Type 0 where
  stored : ℕ → Session → Handle
  only_local : ℕ → Session → Handle

abbrev pub session_of : Handle → Session
session_of (stored i s) = s
session_of (only_local i s) = s

-- The end of `find_or_create_session`: a draft is pushed onto the list, the early return does not.
unfoldable pub keep_draft : ℕ → Proxy → Progress → Option Handle × World
keep_draft pid p (more none w) = (none, w)
keep_draft pid p (more (some (i, s)) w) =
    (some (stored i s), set_proxy pid (record p { sessions = p.sessions ++ (i, s) ∷ [] }) w)
keep_draft pid p (done i s w) = (some (only_local i s), w)

unfoldable pub find_or_create_session :
    Sockets → ℕ → Proxy → Address → World → Result (Option Handle × World)
find_or_create_session sys pid p taddr w = elim (find_session taddr p.sessions) [
  | some (i, s) ↦ ok (some (stored i s), w)
  | none ↦
      visit_rules sys p.config taddr p.rules none w >>= λ progress. ok (keep_draft pid p progress)
]

-- A session of the list, written back.
unfoldable pub put_session : ℕ → Session → List (ℕ × Session) → List (ℕ × Session)
put_session i s [] = []
put_session i s ((j, t) ∷ rest) = if j == i then (j, s) ∷ rest else (j, t) ∷ put_session i s rest

-- The caller is done with a session: what it did to a stored one stays, and one that nobody else
-- holds is destroyed.
unfoldable pub finish : ℕ → Handle → Session → World → World
finish pid (stored i _) s w = elim (get_elem? w.proxies pid) [
  | none ↦ w
  | some p ↦ set_proxy pid (record p { sessions = put_session i s p.sessions }) w
]
finish pid (only_local i _) s w = send (destroy s (iface_names w s.ifaces)) w

-- The `switch` of `handle_solicit`.
unfoldable pub answer : Config → Session → Address → Status → Session × List Output
answer c s saddr waiting = (add_pending saddr s, [])
answer c s saddr invalid = (add_pending saddr s, [])
answer c s saddr valid = (s, send_advert c s saddr ∷ [])
answer c s saddr renewing = (s, send_advert c s saddr ∷ [])

-- What `handle_solicit` does to the session.
unfoldable pub serve : Config → Session → Address → Address → Session × List Output
serve c s saddr taddr =
    let (s', probes) = touch c s in
    if not_equal saddr taddr
    then (let (s'', replies) = answer c s' saddr s'.status in (s'', probes ++ replies))
    else (s', probes)

unfoldable pub handle_solicit : Sockets → ℕ → Address → Address → World → Result World
handle_solicit sys pid saddr taddr w = deref (get_elem? w.proxies pid) >>= λ p.
    find_or_create_session sys pid p taddr w >>= λ found. elim found.0 [
      | none ↦ ok found.1
      | some h ↦
          (let (s, sent) = serve p.config (session_of h) saddr taddr in
            ok (finish pid h s (send sent found.1)))
    ]

abbrev is_waiting : Status → Bool
is_waiting waiting = true
is_waiting _ = false

-- What `handle_stateless_advert` does to the session.
unfoldable pub wire : Config → Session → Address → Bytes → Bool → Session × List Output
wire c s saddr ifname use_via =
    if c.autowire && is_waiting s.status then handle_auto_wire s saddr ifname use_via else (s, [])

unfoldable pub handle_stateless_advert :
    Sockets → ℕ → Address → Address → Bytes → Bool → World → Result World
handle_stateless_advert sys pid saddr taddr ifname use_via w =
    deref (get_elem? w.proxies pid) >>= λ p. find_or_create_session sys pid p taddr w >>= λ found.
    elim found.0 [
      | none ↦ ok found.1
      | some h ↦
          (let (s, sent) = wire p.config (session_of h) saddr ifname use_via in
            ok (finish pid h s (send sent found.1)))
    ]

-- The loop of `handle_advert` over the sessions.
unfoldable pub advert_all :
    Config
    → Address
    → Address
    → Bytes
    → Bool
    → List (ℕ × Session)
    → List (ℕ × Session) × List Output
advert_all c saddr taddr ifname use_via [] = ([], [])
advert_all c saddr taddr ifname use_via ((i, s) ∷ rest) =
    let (rest', later) = advert_all c saddr taddr ifname use_via rest in
    if equal s.taddr taddr
    then (let (s', sent) = Session.handle_advert c s saddr ifname use_via in
        ((i, s') ∷ rest', sent ++ later))
    else ((i, s) ∷ rest', later)

unfoldable pub handle_advert : ℕ → Address → Address → Bytes → Bool → World → Result World
handle_advert pid saddr taddr ifname use_via w = deref (get_elem? w.proxies pid) >>= λ p.
    (let (sessions, sent) = advert_all p.config saddr taddr ifname use_via p.sessions in
      ok (send sent (set_proxy pid (record p { sessions = sessions }) w)))
