-- ===== src/Conf/Load.antt =====
-- src/ndppd.cc, `load_config`: which configurations are accepted.
use ndppd.Base.{
  ℕ, ◌+◌, ◌≡◌, refl, ap, inl, inr, ◌↔◌, Bool, true, false, not, ◌||◌, List, [], ◌∷◌, Option, none,
  some, if◌then◌else◌, arith, Option-cases, Bytes, codes, Every,
}
use ndppd.Conf.{Conf, Entries, conf, find_all, find, Outcome, parsed, refused, and_then, load}

abbrev pub value : Conf → Bytes
value (conf v is_block es) = v

abbrev pub entries : Conf → Entries
entries (conf v is_block es) = es

-- `empty()`
unfoldable pub is_empty : Bytes → Bool
is_empty [] = true
is_empty (c ∷ v) = false

-- `cf->find(name)`, as a condition.
unfoldable pub has : Bytes → Conf → Bool
has name cf = elim (find name (entries cf)) [ none ↦ false | some x ↦ true ]

-- The body of the loop over the rules: whether it goes on.
unfoldable pub check_rule : Conf → Bool
check_rule ru = if is_empty (value ru) then false else (elim (find (codes "iface") (entries ru)) [
  | some x ↦
      if has (codes "static") ru || has (codes "auto") ru then false else not (is_empty (value x))
  | none ↦ if has (codes "static") ru then not (has (codes "auto") ru) else has (codes "auto") ru
])

unfoldable pub check_rules : List Conf → Bool
check_rules [] = true
check_rules (ru ∷ rules) = if check_rule ru then check_rules rules else false

-- The body of the loop over the proxies.
unfoldable pub check_proxies : List Conf → Bool
check_proxies [] = true
check_proxies (pr ∷ proxies) =
    if is_empty (value pr)
    then false
    else if check_rules (find_all (codes "rule") (entries pr))
    then check_proxies proxies
    else false

-- `load_config(path)`, on the text of the file.
unfoldable pub load_config : ℕ → Bytes → Outcome Conf
load_config fuel text = and_then (load fuel text) (λ cf rest.
    if check_proxies (find_all (codes "proxy") (entries cf)) then parsed cf rest else refused)

-- How many of the three methods a rule names.
abbrev pub methods : Conf → ℕ
methods ru =
    (if has (codes "iface") ru then 1 else 0)
    + ((if has (codes "static") ru then 1 else 0) + (if has (codes "auto") ru then 1 else 0))

-- Whether the interface that a rule names is a name at all.
abbrev pub names_iface : Conf → Bool
names_iface ru = elim (find (codes "iface") (entries ru)) [
  | none ↦ true
  | some x ↦ not (is_empty (value x))
]

names-none : (ru : Conf) → find (codes "iface") (entries ru) ≡ none → names_iface ru ≡ true
names-none ru e =
    ap (λ (o : Option Conf). elim o [ none ↦ true | some x ↦ not (is_empty (value x)) ]) e

names-some :
    (ru x : Conf)
    → find (codes "iface") (entries ru) ≡ some x
    → names_iface ru ≡ not (is_empty (value x))
names-some ru x e =
    ap (λ (o : Option Conf). elim o [ none ↦ true | some y ↦ not (is_empty (value y)) ]) e

has-none : (name : Bytes) (cf : Conf) → find name (entries cf) ≡ none → has name cf ≡ false
unfolding has
has-none name cf e = rw (has, e) refl

has-some : (name : Bytes) (cf x : Conf) → find name (entries cf) ≡ some x → has name cf ≡ true
unfolding has
has-some name cf x e = rw (has, e) refl

check_rule-none :
    (ru : Conf)
    → find (codes "iface") (entries ru) ≡ none
    → check_rule ru ≡ (
        if is_empty (value ru)
        then false
        else (if has (codes "static") ru
            then not (has (codes "auto") ru)
            else has (codes "auto") ru))
unfolding check_rule
check_rule-none ru e = rw e refl

check_rule-some :
    (ru x : Conf)
    → find (codes "iface") (entries ru) ≡ some x
    → check_rule ru ≡ (
        if is_empty (value ru)
        then false
        else (if has (codes "static") ru || has (codes "auto") ru
            then false
            else not (is_empty (value x))))
unfolding check_rule
check_rule-some ru x e = rw e refl

tests_none :
    (v s a : Bool)
    → ((if v then false else (if s then not a else a)) ≡ true)
      ↔ ((v ≡ false) × ((0 + ((if s then 1 else 0) + (if a then 1 else 0)) ≡ 1) × (true ≡ true)))
tests_none true s a = ground arith
tests_none false true true = ground arith
tests_none false true false = ground arith
tests_none false false true = ground arith
tests_none false false false = ground arith

tests_some :
    (v s a x : Bool)
    → ((if v then false else (if s || a then false else not x)) ≡ true)
      ↔ ((v ≡ false) × ((1 + ((if s then 1 else 0) + (if a then 1 else 0)) ≡ 1) × (not x ≡ true)))
tests_some true s a x = ground arith
tests_some false true a x = ground arith
tests_some false false true x = ground arith
tests_some false false false x = ground arith

-- Some text as the address, one method, and the name of the interface if that is the method.
abbrev pub IsRule : Conf → Type 0
IsRule ru = (is_empty (value ru) ≡ false) × ((methods ru ≡ 1) × (names_iface ru ≡ true))

-- Some text as the interface, and such rules.
abbrev pub IsProxy : Conf → Type 0
IsProxy pr = (is_empty (value pr) ≡ false) × Every IsRule (find_all (codes "rule") (entries pr))

check_rule_iff : (ru : Conf) → (check_rule ru ≡ true) ↔ IsRule ru
check_rule_iff ru = elim (Option-cases (find (codes "iface") (entries ru))) [
  | inl e ↦
      rw (check_rule-none ru e, has-none (codes "iface") ru e, names-none ru e)
        (tests_none (is_empty (value ru)) (has (codes "static") ru) (has (codes "auto") ru))
  | inr (x, e) ↦
      rw (check_rule-some ru x e, has-some (codes "iface") ru x e, names-some ru x e)
        (tests_some (is_empty (value ru)) (has (codes "static") ru) (has (codes "auto") ru)
          (is_empty (value x)))
]

both_iff :
    {P Q : Type 0} (a b : Bool)
    → (a ≡ true) ↔ P
    → (b ≡ true) ↔ Q
    → ((if a then b else false) ≡ true) ↔ (P × Q)
both_iff true b p q = ((λ e. (p.0 refl, q.0 e)), λ h. q.1 h.1)
both_iff false b p q = ((λ e. absurd cc), λ h. p.1 h.0)

check_rules_iff : (rules : List Conf) → (check_rules rules ≡ true) ↔ Every IsRule rules
unfolding check_rules
check_rules_iff [] = ((λ e. tt), λ h. refl)
check_rules_iff (ru ∷ rules) =
    both_iff (check_rule ru) _ (check_rule_iff ru) (check_rules_iff rules)

-- The first test of the loop over the proxies.
unless_iff :
    {P : Type 0} (v b : Bool)
    → (b ≡ true) ↔ P
    → ((if v then false else b) ≡ true) ↔ ((v ≡ false) × P)
unless_iff true b p = ((λ e. absurd cc), λ h. absurd (clash h.0))
  where
    clash : true ≡ false → ⊥
    clash e = cc
unless_iff false b p = ((λ e. (refl, p.0 e)), λ h. p.1 h.1)

check_proxies_iff : (prs : List Conf) → (check_proxies prs ≡ true) ↔ Every IsProxy prs
unfolding check_proxies
check_proxies_iff [] = ((λ e. tt), λ h. refl)
check_proxies_iff (pr ∷ prs) =
    let rules = find_all (codes "rule") (entries pr) in
    let rest =
      both_iff (check_rules rules) (check_proxies prs) (check_rules_iff rules)
        (check_proxies_iff prs) in
    let all = unless_iff (is_empty (value pr)) _ rest in
    ((λ e. let h = all.0 e in ((h.0, h.1.0), h.1.1)), λ h. all.1 (h.0.0, (h.0.1, h.1)))

accepted_iff :
    (b : Bool) (cf : Conf) (rest : Bytes)
    → ((if b then parsed cf rest else refused) ≡ parsed cf rest) ↔ (b ≡ true)
accepted_iff true cf rest = ((λ e. refl), λ e. refl)
accepted_iff false cf rest = ((λ e. absurd cc), λ e. absurd cc)

-- `load_config` accepts a configuration that has been parsed exactly when every proxy has some
-- text for its interface, and each of its rules has some text for its address, whether it is one
-- or not, names exactly one of the three methods and, if that is an interface, has some text for
-- its name. A rule that names no method is refused, where the manual page ndppd.conf.5 and the
-- sample configuration ndppd.conf-dist say that it is static.
pub load_config_iff :
    (fuel : ℕ) (text rest : Bytes) (cf : Conf)
    → load fuel text ≡ parsed cf rest
    → (load_config fuel text ≡ parsed cf rest)
      ↔ Every IsProxy (find_all (codes "proxy") (entries cf))
unfolding load_config
load_config_iff fuel text rest cf e =
    let proxies = find_all (codes "proxy") (entries cf) in
    let tests = check_proxies_iff proxies in
    let accepted = accepted_iff (check_proxies proxies) cf rest in
    rw e ((λ h. tests.0 (accepted.0 h)), λ h. accepted.1 (tests.1 h))
