-- ===== src/Proxy/Turns.antt =====
-- src/session.cc, `update_all`: the table of proxies, turn by turn of the loop.
use ndppd.Base.{
  ℕ, zero, suc, ◌+◌, ◌≡◌, refl, ◌∙◌, ap, sym, ◌⊎◌, inl, inr, Bool, true, false, ◌||◌, List, [], ◌∷◌,
  map, none, some, arith, Option-cases, get_elem?, set,
}
use ndppd.Base.Int.{ℤ}
use ndppd.Session.{Session, Verdict, keep, remove, update}
use ndppd.World.{Proxy, World, send, set_proxy}
use ndppd.Proxy.Update.{lookup_session, find_owner, obey, update_one}
use ndppd.Proxy.Entries.{holds, Distinct}
use ndppd.Proxy.Listed.{mem}
use ndppd.Proxy.Aging.{age, age_but, age_but_absent, age_but-turn, lookup-age_but, turn}

abbrev pub aged_but : List ℕ → ℤ → Proxy → Proxy
aged_but due t p = record p { sessions = age_but due p.config t p.sessions }

-- A proxy after `update_all`.
abbrev pub aged : ℤ → Proxy → Proxy
aged t p = record p { sessions = age p.config t p.sessions }

-- Whether a proxy holds the session.
abbrev pub held : List Proxy → ℕ → Bool
held [] i = false
held (p ∷ ps) i = holds i p.sessions || held ps i

-- No two proxies hold the session.
abbrev pub Sole : ℕ → List Proxy → Type 0
Sole i [] = Unit {0}
Sole i (p ∷ ps) = ((holds i p.sessions ≡ false) ⊎ (held ps i ≡ false)) × Sole i ps

lookup_none-holds :
    (i : ℕ) (xs : List (ℕ × Session)) → lookup_session i xs ≡ none → holds i xs ≡ false
unfolding lookup_session
lookup_none-holds i [] e = refl
lookup_none-holds i ((j, s) ∷ xs) e = ground (arith, lookup_none-holds i xs)

lookup_some-holds :
    (i : ℕ) (s : Session) (xs : List (ℕ × Session))
    → lookup_session i xs ≡ some s
    → holds i xs ≡ true
unfolding lookup_session
lookup_some-holds i s [] e = cc
lookup_some-holds i s ((j, x) ∷ xs) e = ground (arith, lookup_some-holds i s xs)

-- The turn of a session that nobody holds.
pub map-unheld :
    (i : ℕ) (due : List ℕ) (t : ℤ) (ps : List Proxy)
    → held ps i ≡ false
    → map (aged_but (i ∷ due) t) ps ≡ map (aged_but due t) ps
map-unheld i due t [] h = refl
map-unheld i due t (p ∷ ps) h =
    let head = age_but_absent i due p.config t p.sessions (ground arith) in
    let tail = map-unheld i due t ps (ground arith) in
    ap (λ xs. record p { sessions = xs } ∷ map (aged_but (i ∷ due) t) ps) head
    ∙ ap (λ r. aged_but due t p ∷ r) tail

pub held_at :
    (i k : ℕ) (ps : List Proxy) (p : Proxy)
    → get_elem? ps k ≡ some p
    → holds i p.sessions ≡ true
    → held ps i ≡ true
held_at i k [] p e h = cc
held_at i zero (q ∷ ps) p e h =
    let same : q ≡ p = ground arith in ground (arith, ap (λ r. holds i r.sessions) same)
held_at i (suc k) (q ∷ ps) p e h = ground (arith, held_at i k ps p e h)

-- The turn of a session that the proxy in place `k` holds.
pub set-held :
    (i k : ℕ) (due : List ℕ) (t : ℤ) (ps : List Proxy) (p : Proxy)
    → Sole i ps
    → get_elem? ps k ≡ some p
    → holds i p.sessions ≡ true
    → set (map (aged_but (i ∷ due) t) ps) k (aged_but due t p) ≡ map (aged_but due t) ps
set-held i k due t [] p sole e h = cc
set-held i zero due t (q ∷ ps) p sole e h =
    let same : q ≡ p = ground arith in
    let rest : held ps i ≡ false = ground (arith, ap (λ r. holds i r.sessions) same, sole.0) in
    rw same (ap (λ r. aged_but due t p ∷ r) (map-unheld i due t ps rest))
set-held i (suc k) due t (q ∷ ps) p sole e h =
    let head =
      age_but_absent i due q.config t q.sessions (ground (arith, sole.0, held_at i k ps p e h)) in
    ap (λ r. aged_but (i ∷ due) t q ∷ r) (set-held i k due t ps p sole.1 e h)
    ∙ ap (λ xs. record q { sessions = xs } ∷ map (aged_but due t) ps) head

-- Who holds a session that is due, if anybody does.
pub owner-cases :
    (i n : ℕ) (due : List ℕ) (t : ℤ) (ps : List Proxy)
    → mem i due ≡ true
    → ((find_owner i n (map (aged_but due t) ps) ≡ none) × (held ps i ≡ false))
      ⊎ ((k : ℕ) × (p : Proxy) × (s : Session) × (find_owner i n (map (aged_but due t) ps)
            ≡ some (n + k, aged_but due t p, s))
          × (get_elem? ps k ≡ some p)
          × (lookup_session i p.sessions ≡ some s))
unfolding find_owner
owner-cases i n due t [] h = inl (refl, refl)
owner-cases i n due t (p ∷ ps) h = elim (Option-cases (lookup_session i p.sessions)) [
  | inr (s, e) ↦ inr (
    zero,
    p,
    s,
    rw (lookup-age_but i due p.config t p.sessions h ∙ e, find_owner)
        (ap (λ m. some (m, aged_but due t p, s)) (omega arith)),
    refl,
    e,
  )
  | inl e ↦ elim (owner-cases i (suc n) due t ps h) [
    | inl (f, free) ↦ inl (
      rw (lookup-age_but i due p.config t p.sessions h ∙ e, find_owner) f,
      ground (arith, lookup_none-holds i p.sessions e),
    )
    | inr (k, q, s, f, there, g) ↦ inr (
      suc k,
      q,
      s,
      rw (lookup-age_but i due p.config t p.sessions h ∙ e, find_owner)
          (f ∙ ap (λ m. some (m, aged_but due t q, s)) (omega arith)),
      there,
      g,
    )
  ]
]

obey-proxies :
    (i pid : ℕ) (p : Proxy) (v : Verdict) (w : World)
    → (obey i pid p v w).proxies ≡ set w.proxies pid (record p { sessions = turn i v p.sessions })
unfolding obey send set_proxy
obey-proxies i pid p (keep s sent) w = refl
obey-proxies i pid p (remove s) w = refl

update_one-none :
    (t : ℤ) (i : ℕ) (w : World) → find_owner i 0 w.proxies ≡ none → update_one t i w ≡ (false, w)
unfolding update_one
update_one-none t i w e = rw (e, update_one) refl

update_one-some :
    (t : ℤ) (i k : ℕ) (p : Proxy) (s : Session) (w : World)
    → find_owner i 0 w.proxies ≡ some (k, p, s)
    → update_one t i w ≡ (true, obey i k p (update p.config t s) w)
unfolding update_one
update_one-some t i k p s w e = rw (e, update_one) refl

-- One turn of the loop.
pub update_one-aged :
    (t : ℤ) (i : ℕ) (due : List ℕ) (ps : List Proxy) (w : World)
    → mem i due ≡ false
    → Sole i ps
    → ((k : ℕ) (p : Proxy) → get_elem? ps k ≡ some p → Distinct p.sessions)
    → w.proxies ≡ map (aged_but (i ∷ due) t) ps
    → ((update_one t i w).0 ≡ held ps i) × ((update_one t i w).1.proxies ≡ map (aged_but due t) ps)
update_one-aged t i due ps w once sole distinct e =
    elim (owner-cases i 0 (i ∷ due) t ps (ground arith)) [
      | inl (f, free) ↦
          rw (update_one-none t i w (ap (find_owner i 0) e ∙ f))
            (sym free, e ∙ map-unheld i due t ps free)
      | inr (k, p, s, f, there, g) ↦
          let has = lookup_some-holds i s p.sessions g in
          let found = f ∙ ap (λ m. some (m, aged_but (i ∷ due) t p, s)) (omega arith) in
          rw (update_one-some t i k (aged_but (i ∷ due) t p) s w (ap (find_owner i 0) e ∙ found)) (
            sym (held_at i k ps p there has),
            obey-proxies i k (aged_but (i ∷ due) t p) (update p.config t s) w
                ∙ rw (e, age_but-turn i s due p.config t p.sessions once (distinct k p there) g)
                    (set-held i k due t ps p sole there has),
          )
    ]
