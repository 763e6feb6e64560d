-- ===== src/Proxy/Faults.antt =====
-- src/proxy.cc, `find_or_create_session`: an `auto` rule for an address that no route covers.
use ndppd.Base.{ℕ, ◌≡◌, refl, ◌∙◌, ap, true, List, ◌∷◌, none, some, get_elem?}
use ndppd.Address.{Address, equal}
use ndppd.Session.{Config, Session}
use ndppd.World.{Rule, Proxy, World, throw, invalid_pointer, find_route, Sockets}
use ndppd.Proxy.{
  find_session, Draft, draft, apply_auto, apply_rule, visit_rule, visit_rules, handle_solicit,
}
use ndppd.Proxy.Keeps.{find_or_create_new}

module _ (sys : Sockets) (c : Config) (taddr : Address) (ru : Rule) where
  routes-draft : (d : Draft) (w : World) → (draft c taddr d w).1.routes ≡ w.routes
  unfolding draft
  routes-draft none w = refl
  routes-draft (some x) w = refl

  apply_auto-throw :
      (s : Session) (w : World)
      → find_route taddr w.routes ≡ none
      → apply_auto sys c taddr ru s w ≡ throw invalid_pointer
  unfolding apply_auto
  apply_auto-throw s w e = rw (apply_auto, e) refl

  apply_rule-throw :
      (i : ℕ) (s : Session) (w : World)
      → ru.aut ≡ true
      → find_route taddr w.routes ≡ none
      → apply_rule sys c taddr ru i s w ≡ throw invalid_pointer
  unfolding apply_rule apply_auto
  apply_rule-throw i s w is_auto e = rw (is_auto, apply_auto-throw s w e) refl

  visit_rule-throw :
      (d : Draft) (w : World)
      → equal ru.addr taddr ≡ true
      → ru.aut ≡ true
      → find_route taddr w.routes ≡ none
      → visit_rule sys c taddr ru d w ≡ throw invalid_pointer
  unfolding visit_rule
  visit_rule-throw d w hit is_auto e = rw hit (
      apply_rule-throw _ _ (draft c taddr d w).1 is_auto
        (ap (find_route taddr) (routes-draft d w) ∙ e))

  visit_rules-throw :
      (rules : List Rule) (d : Draft) (w : World)
      → equal ru.addr taddr ≡ true
      → ru.aut ≡ true
      → find_route taddr w.routes ≡ none
      → visit_rules sys c taddr (ru ∷ rules) d w ≡ throw invalid_pointer
  unfolding visit_rules
  visit_rules-throw rules d w hit is_auto e = rw (visit_rule-throw d w hit is_auto e) refl

-- A solicitation ends the daemon with an invalid pointer when its proxy has no session for the
-- target, the first rule matches and is an auto rule, and no route matches the target.
pub handle_solicit-throw :
    (sys : Sockets) (pid : ℕ) (saddr taddr : Address) (w : World) (p : Proxy) (ru : Rule)
    (rules : List Rule)
    → get_elem? w.proxies pid ≡ some p
    → find_session taddr p.sessions ≡ none
    → p.rules ≡ ru ∷ rules
    → equal ru.addr taddr ≡ true
    → ru.aut ≡ true
    → find_route taddr w.routes ≡ none
    → handle_solicit sys pid saddr taddr w ≡ throw invalid_pointer
unfolding handle_solicit
handle_solicit-throw sys pid saddr taddr w p ru rules at absent first hit is_auto e =
    rw
      (
        at,
        find_or_create_new sys pid p taddr w absent,
        first,
        visit_rules-throw sys p.config taddr ru rules none w hit is_auto e,
      )
      refl
