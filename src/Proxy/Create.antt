-- ===== src/Proxy/Create.antt =====
-- src/proxy.cc, `find_or_create_session`: what it may change on the way.
use ndppd.Base.{
  ℕ, suc, ◌≡◌, refl, ◌∙◌, inl, inr, List, [], ◌∷◌, ◌++◌, Option, none, some, arith, Bool-cases,
  Option-cases, equal_text,
}
use ndppd.Address.{Address, equal}
use ndppd.Base.Int.{ℤ}
use ndppd.Session.{Config, Session, create, add_iface, confirm}
use ndppd.World.{
  Rule, Route, World, send, iface_name, Sockets, install_ifd, open_ifd, opened, find_iface,
  find_route, route_ifa, Ensures, Ensures-bind,
}
use ndppd.Proxy.{
  Draft, draft, add_found, apply_auto, Progress, more, done, apply_rule, visit_rule, visit_rules,
}

-- Two worlds with the same proxies and sessions.
pub record SameSessions (w w' : World) : Type 0 where
  pub proxies : w'.proxies ≡ w.proxies
  pub session_list : w'.session_list ≡ w.session_list
  pub next_session : w'.next_session ≡ w.next_session

install_ifd-SameSessions :
    (found : Option ℕ) (name : List ℕ) (fd : ℤ) (hw : List ℕ) (w : World)
    → SameSessions w (install_ifd found name fd hw w).1
unfolding install_ifd
install_ifd-SameSessions none name fd hw w = ground arith
install_ifd-SameSessions (some i) name fd hw w = ground arith

pub open_ifd-SameSessions :
    (sys : Sockets) (name : List ℕ) (w : World) → SameSessions w (open_ifd sys name w).1
unfolding open_ifd
open_ifd-SameSessions sys name w = elim (Option-cases (opened w (find_iface name w.ifaces))) [
  | inr (i, e) ↦
      rw (e, open_ifd) (record { proxies = refl; session_list = refl; next_session = refl })
  | inl e ↦
      rw (e, open_ifd)
        (elim (Option-cases (sys name)) [
          | inl f ↦ rw f (record { proxies = refl; session_list = refl; next_session = refl })
          | inr (opening, f) ↦
              rw f (install_ifd-SameSessions (find_iface name w.ifaces) name opening.0 opening.1 w)
        ])
]

pub route_ifa-SameSessions :
    (sys : Sockets) (n : ℕ) (r : Route) (w : World) → SameSessions w (route_ifa sys n r w).1
unfolding route_ifa
route_ifa-SameSessions sys n r w = ground (arith, open_ifd-SameSessions sys r.ifname w)

-- A draft is the next session of the world `w0` that the search began with.
pub record IsFresh (w0 : World) (taddr : Address) (i : ℕ) (s : Session) (w : World) : Type 0 where
  pub proxies : w.proxies ≡ w0.proxies
  pub number : i ≡ w0.next_session
  pub target : s.taddr ≡ taddr
  pub session_list : w.session_list ≡ w0.session_list ++ i ∷ []
  pub next_session : w.next_session ≡ suc w0.next_session

abbrev pub IsDrafted : World → Address → Draft → World → Type 0
IsDrafted w0 taddr none w = SameSessions w0 w
IsDrafted w0 taddr (some (i, s)) w = IsFresh w0 taddr i s w

abbrev pub IsProgress : World → Address → Progress → Type 0
IsProgress w0 taddr (more d w) = IsDrafted w0 taddr d w
IsProgress w0 taddr (done i s w) = IsFresh w0 taddr i s w

draft-IsFresh :
    (w0 : World) (c : Config) (taddr : Address) (d : Draft) (w : World)
    → IsDrafted w0 taddr d w
    → IsFresh w0 taddr (draft c taddr d w).0.0 (draft c taddr d w).0.1 (draft c taddr d w).1
unfolding draft create
draft-IsFresh w0 c taddr none w v = ground arith
draft-IsFresh w0 c taddr (some (i, s)) w v = v

taddr-add_iface : (i : ℕ) (s : Session) → (add_iface i s).taddr ≡ s.taddr
unfolding add_iface
taddr-add_iface i s = ground arith

taddr-add_found : (ifa d : Option ℕ) (s : Session) → (add_found ifa d s).taddr ≡ s.taddr
unfolding add_iface
taddr-add_found none d s = refl
taddr-add_found (some i) d s = ground arith

apply_auto-Ensures :
    (sys : Sockets) (c : Config) (taddr : Address) (ru : Rule) (s : Session) (w : World)
    → Ensures (λ r. (r.0.taddr ≡ s.taddr) × SameSessions w r.1) (apply_auto sys c taddr ru s w)
unfolding apply_auto
apply_auto-Ensures sys c taddr ru s w = elim (Option-cases (find_route taddr w.routes)) [
  | inl e ↦ rw e tt
  | inr ((n, rt), e) ↦ rw e (elim (Bool-cases (equal_text rt.ifname (iface_name w c.ifa))) [
    | inl own ↦ rw own (refl, record { proxies = refl; session_list = refl; next_session = refl })
    | inr other ↦
        rw other (
          taddr-add_found (route_ifa sys n rt w).0 ru.daughter s,
          route_ifa-SameSessions sys n rt w,
        )
  ])
]

IsFresh-of_same :
    (w0 : World) (taddr : Address) (i : ℕ) (s s' : Session) (w w' : World)
    → IsFresh w0 taddr i s w
    → s'.taddr ≡ s.taddr
    → SameSessions w w'
    → IsFresh w0 taddr i s' w'
IsFresh-of_same w0 taddr i s s' w w' v e same = record {
  proxies = same.proxies ∙ v.proxies;
  number = v.number;
  target = e ∙ v.target;
  session_list = same.session_list ∙ v.session_list;
  next_session = same.next_session ∙ v.next_session;
}

apply_rule-IsProgress :
    (sys : Sockets) (c : Config) (taddr : Address) (ru : Rule) (w0 : World) (i : ℕ) (s : Session)
    (w : World)
    → IsFresh w0 taddr i s w
    → Ensures (IsProgress w0 taddr) (apply_rule sys c taddr ru i s w)
unfolding apply_rule
apply_rule-IsProgress sys c taddr ru w0 i s w v = elim (Bool-cases ru.aut) [
  | inl aut ↦ rw aut (
      Ensures-bind (λ r. (r.0.taddr ≡ s.taddr) × SameSessions w r.1) (IsProgress w0 taddr) _ _
        (apply_auto-Ensures sys c taddr _ s w)
        (λ r p. IsFresh-of_same w0 taddr i s r.0 w r.1 v p.0 p.1))
  | inr fixed ↦ rw fixed (elim (Option-cases ru.daughter) [
    | inl e ↦ rw e (
        IsFresh-of_same w0 taddr i s _ w _ v (unfold confirm in refl)
          (unfold send in record { proxies = refl; session_list = refl; next_session = refl }))
    | inr (d, e) ↦ rw e (
        IsFresh-of_same w0 taddr i s _ w _ v (taddr-add_iface d s)
          (record { proxies = refl; session_list = refl; next_session = refl }))
  ])
]

visit_rule-IsProgress :
    (sys : Sockets) (c : Config) (taddr : Address) (ru : Rule) (w0 : World) (d : Draft) (w : World)
    → IsDrafted w0 taddr d w
    → Ensures (IsProgress w0 taddr) (visit_rule sys c taddr ru d w)
unfolding visit_rule
visit_rule-IsProgress sys c taddr ru w0 d w v = elim (Bool-cases (equal ru.addr taddr)) [
  | inl hit ↦
      rw hit (apply_rule-IsProgress sys c taddr ru w0 _ _ _ (draft-IsFresh w0 c taddr d w v))
  | inr miss ↦ rw miss v
]

-- The search changes no proxy, and enters at most the one new session in the weak list.
pub visit_rules-IsProgress :
    (sys : Sockets) (c : Config) (taddr : Address) (rules : List Rule) (w0 : World) (d : Draft)
    (w : World)
    → IsDrafted w0 taddr d w
    → Ensures (IsProgress w0 taddr) (visit_rules sys c taddr rules d w)
unfolding visit_rules
visit_rules-IsProgress sys c taddr [] w0 d w v = v
visit_rules-IsProgress sys c taddr (ru ∷ rules) w0 d w v =
    Ensures-bind (IsProgress w0 taddr) (IsProgress w0 taddr) _ _
      (visit_rule-IsProgress sys c taddr ru w0 d w v)
      (elim [
        | more d' w' ↦ λ p. visit_rules-IsProgress sys c taddr rules w0 d' w' p
        | done i s w' ↦ λ p. p
      ])
