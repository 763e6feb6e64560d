-- ===== src/Daemon/Configure/Tables.antt =====
-- src/ndppd.cc, `configure`: the proxies and the rules that a configuration asks for.
use ndppd.Base.{
  ℕ, ◌≡◌, refl, ap, ◌∙◌, sym, subst, Bool, true, false, List, [], ◌∷◌, ◌++◌, map, append_nil,
  append_assoc, Option, none, some, inl, inr, Bool-cases, Option-cases, get_elem?, length, set,
  codes,
}
use ndppd.Address.{Address}
use ndppd.Address.Parse.{of_string}
use ndppd.Session.{Config}
use ndppd.World.{Rule, Proxy, World, ok, ◌>>=◌, deref, set_proxy, open_ifd, Ensures, Ensures-bind}
use ndppd.Proxy.Create.{open_ifd-SameSessions}
use ndppd.Proxy.Options.{
  add_parent, new_config, set_ttl, set_deadtime, set_timeout, iface_rule, plain_rule, push_rule,
  add_iface_rule, add_plain_rule,
}
use ndppd.Conf.{Conf, find, find_all}
use ndppd.Conf.Load.{value, entries, has}
use ndppd.Daemon.Configure.{System, flag, set_options, configure_rule, configure_rules, set_config}
use ndppd.Daemon.Configure.Rules.{add_parent-proxies}

-- The address of a rule, whether it is an auto rule, and `autovia`, which only a rule with an
-- interface has.
abbrev pub Shape : Type 0
Shape = Address × Bool × Option Bool

abbrev pub shape : Rule → Shape
shape ru = (ru.addr, ru.aut, ru.autovia)

-- The options of a proxy, without its interface, whether it is promiscuous, and its rules.
abbrev pub View : Type 0
View = (Config × Bool) × List Shape

abbrev pub view : Proxy → View
view p = ((record p.config { ifa = 0 }, p.promiscuous), map shape p.rules)

-- What the configuration comes to, by the functions that read it.
abbrev pub wanted_rule : System → Conf → Shape
wanted_rule sys ru = (
  of_string sys.pton (value ru),
  elim (find (codes "iface") (entries ru)) [ none ↦ has (codes "auto") ru | some x ↦ false ],
  elim (find (codes "iface") (entries ru)) [
    | none ↦ none
    | some x ↦ some (flag (codes "autovia") false ru)
  ],
)

abbrev pub wanted : System → Conf → View
wanted sys pr = (
  (set_options pr (new_config 0), flag (codes "promiscuous") false pr),
  map (wanted_rule sys) (find_all (codes "rule") (entries pr)),
)

module _ {A : Type 0} where
  get_elem?-last : (xs : List A) (x : A) → get_elem? (xs ++ (x ∷ [])) (length xs) ≡ some x
  get_elem?-last [] x = refl
  get_elem?-last (y ∷ xs) x = get_elem?-last xs x

  set_last : (xs : List A) (x y : A) → set (xs ++ (x ∷ [])) (length xs) y ≡ xs ++ (y ∷ [])
  set_last [] x y = refl
  set_last (z ∷ xs) x y = ap (◌∷◌ z) (set_last xs x y)

pub map-append :
    {A B : Type 0} (f : A → B) (xs ys : List A) → map f (xs ++ ys) ≡ map f xs ++ map f ys
map-append f [] ys = refl
map-append f (x ∷ xs) ys = ap (◌∷◌ (f x)) (map-append f xs ys)

-- The last proxy looks like this, and the others are these.
abbrev pub Ends : List Proxy → View → World → Type 0
Ends ps v w = (p : Proxy) × (w.proxies ≡ ps ++ (p ∷ [])) × (view p ≡ v)

-- A proxy that is last, written back.
write_last :
    (ps : List Proxy) (v v' : View) (f : Proxy → Proxy) (w : World)
    → Ends ps v w
    → ((p : Proxy) → view p ≡ v → view (f p) ≡ v')
    → Ensures
        (Ends ps v')
        (deref (get_elem? w.proxies (length ps)) >>= λ p. ok (set_proxy (length ps) (f p) w))
unfolding set_proxy
write_last ps v v' f w (p, e, same) h =
    let found : get_elem? w.proxies (length ps) ≡ some p =
      ap (λ qs. get_elem? qs (length ps)) e ∙ get_elem?-last ps p in
    rw found (f p, ap (λ qs. set qs (length ps) (f p)) e ∙ set_last ps p (f p), h p same)

abbrev with_rule : Shape → View → View
with_rule r v = (v.0, v.1 ++ (r ∷ []))

push_rule-Ends :
    (ps : List Proxy) (v : View) (ru : Rule) (w : World)
    → Ends ps v w
    → Ensures (Ends ps (with_rule (shape ru) v)) (push_rule (length ps) ru w)
unfolding push_rule
push_rule-Ends ps v ru w ends =
    write_last ps v (with_rule (shape ru) v) (λ p. record p { rules = p.rules ++ (ru ∷ []) }) w ends
      (λ p same.
        ap (λ rs. ((record p.config { ifa = 0 }, p.promiscuous), rs))
          (map-append shape p.rules (ru ∷ []))
        ∙ ap (with_rule (shape ru)) same)

abbrev reset : Conf → View → View
reset cf v = ((set_options cf v.0.0, v.0.1), v.1)

set_config-Ends :
    (ps : List Proxy) (v : View) (cf : Conf) (w : World)
    → Ends ps v w
    → Ensures (Ends ps (reset cf v)) (set_config (length ps) cf w)
unfolding set_config set_options set_ttl set_deadtime set_timeout
set_config-Ends ps v cf w ends =
    write_last ps v (reset cf v) (λ p. record p { config = set_options cf p.config }) w ends
      (λ p same. ap (reset cf) same)

-- Where the loop goes on.
abbrev pub Going : (World → Type 0) → Bool × World → Type 0
Going Q r = r.0 ≡ true → Q r.1

with_iface :
    (ps : List Proxy) (v : View) (a : Address) (via : Bool) (ifa : Option ℕ) (w : World)
    → Ends ps v w
    → Ensures (Going (Ends ps (with_rule (a, false, some via) v))) (elim ifa [
      | none ↦ ok (false, w)
      | some i ↦
          add_iface_rule (length ps) a i via (add_parent i (length ps) w) >>= λ w'. ok (true, w')
    ])
unfolding add_iface_rule iface_rule
with_iface ps v a via none w ends = λ stop. absurd cc
with_iface ps v a via (some i) w (p, e, same) =
    Ensures-bind (Ends ps (with_rule (a, false, some via) v))
      (Going (Ends ps (with_rule (a, false, some via) v))) _ _
      (push_rule-Ends ps v (iface_rule a i via) _ (p, add_parent-proxies i (length ps) w ∙ e, same))
      (λ w' ends going. ends)

module _ (sys : System) where
  configure_rule-Ends :
      (ps : List Proxy) (v : View) (ru : Conf) (w : World)
      → Ends ps v w
      → Ensures
          (Going (Ends ps (with_rule (wanted_rule sys ru) v)))
          (configure_rule sys (length ps) ru w)
  unfolding configure_rule add_plain_rule plain_rule
  configure_rule-Ends ps v ru w (p, e, same) =
      elim (Option-cases (find (codes "iface") (entries ru))) [
        | inr (x, f) ↦
            let (ifa, w') = open_ifd sys.sockets (value x) w in
            rw (f, configure_rule)
              (with_iface ps v (of_string sys.pton (value ru)) (flag (codes "autovia") false ru) ifa
                w' (p, (open_ifd-SameSessions sys.sockets (value x) w).proxies ∙ e, same))
        | inl f ↦
            rw (f, configure_rule)
              (Ensures-bind (Ends ps _) (Going (Ends ps _)) _ _
                (push_rule-Ends ps v
                  (plain_rule (of_string sys.pton (value ru)) (has (codes "auto") ru)) _
                  (p, e, same))
                (λ w' ends going. ends))
      ]

  configure_rules-Ends :
      (ps : List Proxy) (v : View) (rules : List Conf) (w : World)
      → Ends ps v w
      → Ensures
          (Going (Ends ps (v.0, v.1 ++ map (wanted_rule sys) rules)))
          (configure_rules sys (length ps) rules w)
  unfolding configure_rules
  configure_rules-Ends ps v [] w ends =
      λ going. subst (λ rs. Ends ps (v.0, rs) w) (sym (append_nil v.1)) ends
  configure_rules-Ends ps v (ru ∷ rules) w ends =
      let v' = with_rule (wanted_rule sys ru) v in
      let whole = append_assoc v.1 (wanted_rule sys ru ∷ []) (map (wanted_rule sys) rules) in
      Ensures-bind (Going (Ends ps v')) (Going (Ends ps _)) (configure_rule sys (length ps) ru w) _
        (configure_rule-Ends ps v ru w ends)
        (λ r h. elim (Bool-cases r.0) [
          | inr stop ↦ rw stop (λ going. absurd (clash r.0 stop going))
          | inl on ↦ rw on (
              subst
                (λ rs.
                  Ensures (Going (Ends ps (v.0, rs))) (configure_rules sys (length ps) rules r.1))
                whole (configure_rules-Ends ps v' rules r.1 (h on)))
        ])
    where
      clash : (b : Bool) → b ≡ false → b ≡ true → ⊥
      clash b e f = cc

  -- The rest of the body of the loop over the proxies.
  pub with_proxy :
      (ps : List Proxy) (cf : Conf) (w : World)
      → Ends ps ((new_config 0, flag (codes "promiscuous") false cf), []) w
      → Ensures (Going (Ends ps (wanted sys cf))) (
          set_config (length ps) cf w
          >>= configure_rules sys (length ps) (find_all (codes "rule") (entries cf)))
  with_proxy ps cf w ends =
      let start : View = ((new_config 0, flag (codes "promiscuous") false cf), []) in
      Ensures-bind (Ends ps (reset cf start)) (Going (Ends ps (wanted sys cf)))
        (set_config (length ps) cf w) _ (set_config-Ends ps start cf w ends)
        (λ w' ends'.
          configure_rules-Ends ps (reset cf start) (find_all (codes "rule") (entries cf)) w' ends')
