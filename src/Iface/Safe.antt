-- ===== src/Iface/Safe.antt =====
-- src/iface.cc and src/proxy.cc: a daemon with interface rules alone.
use ndppd.Base.{
  ℕ, ◌<◌, ◌≡◌, refl, ◌∙◌, inl, inr, Bool, false, List, [], ◌∷◌, Option, none, some, Bool-cases,
  get_elem?, length,
}
use ndppd.Address.{Address, equal}
use ndppd.Session.{Config, Session, add_iface}
use ndppd.World.{Rule, Proxy, Iface, World, Result, ok, throw, ◌>>=◌, deref, Sockets}
use ndppd.Iface.Map.{iface_map, fixup_pollfds}
use ndppd.Proxy.{Draft, draft, Progress, more, done, apply_rule, visit_rule, visit_rules}

-- No fault, and this holds of the result.
abbrev pub Safe {ℓ} : {A : Type ℓ} → (A → Type 0) → Result A → Type 0
Safe P (ok a) = P a
Safe P (throw e) = ⊥

pub Safe-bind {ℓ κ} :
    {A : Type ℓ} {B : Type κ} (P : A → Type 0) (Q : B → Type 0) (m : Result A) (f : A → Result B)
    → Safe P m
    → ((a : A) → P a → Safe Q (f a))
    → Safe Q (m >>= f)
Safe-bind P Q (ok a) f p step = step a p
Safe-bind P Q (throw e) f p step = absurd p

pub Safe-weaken {ℓ} :
    {A : Type ℓ} {P Q : A → Type 0} (m : Result A) → ((a : A) → P a → Q a) → Safe P m → Safe Q m
Safe-weaken (ok a) f h = f a h
Safe-weaken (throw e) f h = h

pub Safe-deref {ℓ κ} :
    {A : Type ℓ} {B : Type κ} (Q : B → Type 0) (o : Option A) (f : A → Result B) (a : A)
    → o ≡ some a
    → Safe Q (f a)
    → Safe Q (deref o >>= f)
Safe-deref Q o f a e h = rw e h

-- A rule with an interface: it is not `auto`, and `autovia` has been written.
abbrev pub IsWired : Rule → Type 0
IsWired ru =
    ((d : ℕ) × (ru.daughter ≡ some d)) × ((ru.aut ≡ false) × ((b : Bool) × (ru.autovia ≡ some b)))

abbrev pub AllWired : List Rule → Type 0
AllWired [] = Unit {0}
AllWired (ru ∷ rules) = IsWired ru × AllWired rules

abbrev pub AllBelow : ℕ → List ℕ → Type 0
AllBelow n [] = Unit {0}
AllBelow n (i ∷ is) = (i < n) × AllBelow n is

-- Every rule has an interface, and every number of a proxy is the number of one.
pub record IsSane (n : ℕ) (fs : List Iface) (w : World) : Type 0 where
  pub proxy_count : length w.proxies ≡ n
  pub iface_table : w.ifaces ≡ fs
  -- Where the map is not dirty, `poll` is asked about the descriptors of these interfaces.
  pub fresh : w.map_dirty ≡ false → w.pollfds ≡ fixup_pollfds fs (iface_map fs)
  pub wired_rules : (pid : ℕ) (p : Proxy) → get_elem? w.proxies pid ≡ some p → AllWired p.rules
  pub served : (i : ℕ) (f : Iface) → get_elem? w.ifaces i ≡ some f → AllBelow n f.serves
  pub parented : (i : ℕ) (f : Iface) → get_elem? w.ifaces i ≡ some f → AllBelow n f.parents

-- The proxies, the interfaces and what `poll_all` keeps of them stay as they are.
abbrev pub SameTables : World → World → Type 0
SameTables w w' =
    (w'.proxies ≡ w.proxies)
    × (w'.ifaces ≡ w.ifaces)
    × (w'.map_dirty ≡ w.map_dirty)
    × (w'.pollfds ≡ w.pollfds)

-- The second loop, over interface rules: the proxies and the interfaces stay as they are, and there
-- is no early return.
abbrev pub Harmless : World → Progress → Type 0
Harmless w (more d w') = SameTables w w'
Harmless w (done i s w') = ⊥

draft-Harmless :
    (c : Config) (taddr : Address) (d : Draft) (w : World) → SameTables w (draft c taddr d w).1
unfolding draft
draft-Harmless c taddr none w = (refl, refl, refl, refl)
draft-Harmless c taddr (some x) w = (refl, refl, refl, refl)

apply_rule-wired :
    (sys : Sockets) (c : Config) (taddr : Address) (ru : Rule) (i d : ℕ) (s : Session) (w : World)
    → ru.daughter ≡ some d
    → ru.aut ≡ false
    → apply_rule sys c taddr ru i s w ≡ ok (more (some (i, add_iface d s)) w)
unfolding apply_rule
apply_rule-wired sys c taddr ru i d s w has_d not_auto = rw (not_auto, has_d) refl

visit_rule-Harmless :
    (sys : Sockets) (c : Config) (taddr : Address) (ru : Rule) (d : Draft) (w : World)
    → IsWired ru
    → Safe (Harmless w) (visit_rule sys c taddr ru d w)
unfolding visit_rule
visit_rule-Harmless sys c taddr ru d w ((i, has_d), (not_auto, via)) =
    elim (Bool-cases (equal ru.addr taddr)) [
      | inr miss ↦ rw miss (refl, refl, refl, refl)
      | inl hit ↦
          rw (hit, apply_rule-wired sys c taddr ru _ i _ (draft c taddr d w).1 has_d not_auto)
            (draft-Harmless c taddr d w)
    ]

Harmless-trans :
    (w w' : World) (r : Result Progress)
    → SameTables w w'
    → Safe (Harmless w') r
    → Safe (Harmless w) r
Harmless-trans w w' (ok (more d w'')) same h =
    (h.0 ∙ same.0, h.1 ∙ same.1, h.2 ∙ same.2, h.3 ∙ same.3)
Harmless-trans w w' (ok (done i s w'')) same h = h
Harmless-trans w w' (throw e) same h = h

-- The rest of the loop, after a rule.
after_rule :
    (w : World) (rest : Draft → World → Result Progress)
    → ((d : Draft) (w' : World) → Safe (Harmless w') (rest d w'))
    → (r : Progress) → Harmless w r
    → Safe (Harmless w) (elim r [ more d' w' ↦ rest d' w' | done i s w' ↦ ok (done i s w') ])
after_rule w rest ih (more d' w') h = Harmless-trans w w' (rest d' w') h (ih d' w')
after_rule w rest ih (done i s w') h = absurd h

pub visit_rules-Harmless :
    (sys : Sockets) (c : Config) (taddr : Address) (rules : List Rule) (d : Draft) (w : World)
    → AllWired rules
    → Safe (Harmless w) (visit_rules sys c taddr rules d w)
unfolding visit_rules
visit_rules-Harmless sys c taddr [] d w h = (refl, refl, refl, refl)
visit_rules-Harmless sys c taddr (ru ∷ rules) d w h =
    Safe-bind (Harmless w) (Harmless w) (visit_rule sys c taddr ru d w) _
      (visit_rule-Harmless sys c taddr ru d w h.0)
      (after_rule w (visit_rules sys c taddr rules)
        (λ d' w'. visit_rules-Harmless sys c taddr rules d' w' h.1))
