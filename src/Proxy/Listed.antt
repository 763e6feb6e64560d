-- ===== src/Proxy/Listed.antt =====
-- src/proxy.cc and src/session.cc: what a well-formed table of sessions is.
use ndppd.Base.{
  ℕ, zero, suc, ◌<◌, ◌≡◌, ◌≢◌, refl, ◌∙◌, ap, sym, subst, ◌⊎◌, inl, inr, Bool, true, false, ◌||◌,
  List, [], ◌∷◌, ◌++◌, none, some, ◌==◌, arith, Bool-cases, length, get_elem?, set,
  get_elem?-set_self, get_elem?-set_ne,
}
use ndppd.Session.{Session}
use ndppd.World.{Proxy, World}
use ndppd.Proxy.{find_session}
use ndppd.Proxy.Entries.{holds, Distinct, holds-append, Distinct-append}

abbrev pub mem : ℕ → List ℕ → Bool
mem i [] = false
mem i (j ∷ rest) = (j == i) || mem i rest

-- No number is listed twice.
abbrev pub Once : List ℕ → Type 0
Once [] = Unit {0}
Once (i ∷ is) = (mem i is ≡ false) × Once is

-- Of a table of proxies, a weak list and the next number.
pub record IsListed (ps : List Proxy) (weak : List ℕ) (next : ℕ) : Type 0 where
  pub listed :
      (pid i : ℕ) (p : Proxy)
      → get_elem? ps pid ≡ some p
      → holds i p.sessions ≡ true
      → mem i weak ≡ true
  pub numbered :
      (pid i : ℕ) (p : Proxy) → get_elem? ps pid ≡ some p → holds i p.sessions ≡ true → i < next
  pub owned :
      (pid qid i : ℕ) (p q : Proxy)
      → get_elem? ps pid ≡ some p
      → get_elem? ps qid ≡ some q
      → holds i p.sessions ≡ true
      → holds i q.sessions ≡ true
      → pid ≡ qid
  pub distinct : (pid : ℕ) (p : Proxy) → get_elem? ps pid ≡ some p → Distinct p.sessions
  pub weak_numbered : (i : ℕ) → mem i weak ≡ true → i < next
  pub weak_once : Once weak

abbrev pub Listed : World → Type 0
Listed w = IsListed w.proxies w.session_list w.next_session

pub get_some-lt : (ps : List Proxy) (i : ℕ) (p : Proxy) → get_elem? ps i ≡ some p → i < length ps
get_some-lt [] i p e = absurd (cc)
get_some-lt (x ∷ ps) zero p e = omega arith
get_some-lt (x ∷ ps) (suc i) p e = omega (arith, get_some-lt ps i p e)

pub get_elem?-set :
    (ps : List Proxy) (pid qid : ℕ) (p p' q : Proxy)
    → get_elem? ps pid ≡ some p
    → get_elem? (set ps pid p') qid ≡ some q
    → ((qid ≡ pid) × (q ≡ p')) ⊎ ((qid ≢ pid) × (get_elem? ps qid ≡ some q))
get_elem?-set ps pid qid p p' q e f = elim (Bool-cases (qid == pid)) [
  | inl same ↦
      let same' : qid ≡ pid = ground arith in
      inl (
        same',
        ground (
          arith,
          get_elem?-set_self ps pid p' (get_some-lt ps pid p e),
          ap (get_elem? (set ps pid p')) same',
        ),
      )
  | inr other ↦
      let other' : pid ≢ qid = ground arith in
      inr (ground arith, ground (arith, get_elem?-set_ne ps {i = pid} {j = qid} p' other'))
]

-- A proxy replaced by one that holds no more sessions.
module _ (ps : List Proxy) (weak : List ℕ) (next pid : ℕ) (p p' : Proxy) (v : IsListed ps weak next)
    (at : get_elem? ps pid ≡ some p)
    (fewer : (i : ℕ) → holds i p'.sessions ≡ true → holds i p.sessions ≡ true) where
  -- Who holds a session afterwards held it before.
  held_before :
      (qid i : ℕ) (q : Proxy)
      → get_elem? (set ps pid p') qid ≡ some q
      → holds i q.sessions ≡ true
      → (q0 : Proxy) × (get_elem? ps qid ≡ some q0) × (holds i q0.sessions ≡ true)
  held_before qid i q e h = elim (get_elem?-set ps pid qid p p' q at e) [
    | inl (same, is_p') ↦
        (p, rw same at, fewer i (subst (λ (r : Proxy). holds i r.sessions ≡ true) is_p' h))
    | inr (other, there) ↦ (q, there, h)
  ]

  pub shrink : Distinct p'.sessions → IsListed (set ps pid p') weak next
  shrink apart = record {
    listed = λ qid i q e h. let b = held_before qid i q e h in v.listed qid i b.0 b.1 b.2;
    numbered = λ qid i q e h. let b = held_before qid i q e h in v.numbered qid i b.0 b.1 b.2;
    owned = λ qid rid i q r e f h k.
        let b = held_before qid i q e h in
        let d = held_before rid i r f k in v.owned qid rid i b.0 d.0 b.1 d.1 b.2 d.2;
    distinct = λ qid q e. elim (get_elem?-set ps pid qid p p' q at e) [
      | inl (same, is_p') ↦ rw is_p' apart
      | inr (other, there) ↦ v.distinct qid q there
    ];
    weak_numbered = v.weak_numbered;
    weak_once = v.weak_once;
  }

pub mem-append : (i : ℕ) (xs ys : List ℕ) → mem i (xs ++ ys) ≡ (mem i xs || mem i ys)
mem-append i [] ys = refl
mem-append i (x ∷ xs) ys = ground (arith, mem-append i xs ys)

Once-append : (xs : List ℕ) (n : ℕ) → Once xs → mem n xs ≡ false → Once (xs ++ n ∷ [])
Once-append [] n o h = (refl, tt)
Once-append (x ∷ xs) n o h =
    (ground (arith, mem-append x xs (n ∷ [])), Once-append xs n o.1 (ground arith))

-- The next number given to a session that no proxy holds.
pub grow_weak :
    {ps : List Proxy} {weak : List ℕ} {next : ℕ}
    → IsListed ps weak next
    → IsListed ps (weak ++ next ∷ []) (suc next)
grow_weak {ps} {weak} {next} v = record {
  listed = λ pid i p e h. ground (arith, mem-append i weak (next ∷ []), v.listed pid i p e h);
  numbered = λ pid i p e h. omega (arith, v.numbered pid i p e h);
  owned = v.owned;
  distinct = v.distinct;
  weak_numbered = λ i h. elim (Bool-cases (mem i weak)) [
    | inl old ↦ omega (arith, v.weak_numbered i old)
    | inr fresh ↦ ground (arith, mem-append i weak (next ∷ []))
  ];
  weak_once = Once-append weak next v.weak_once (elim (Bool-cases (mem next weak)) [
    | inl old ↦ absurd (omega (arith, v.weak_numbered next old))
    | inr fresh ↦ fresh
  ]);
}

-- A session appended to a proxy, under a listed number that nobody holds.
module _ (ps : List Proxy) (weak : List ℕ) (next pid : ℕ) (p : Proxy) (i : ℕ) (s : Session)
    (v : IsListed ps weak next) (at : get_elem? ps pid ≡ some p) (in_weak : mem i weak ≡ true)
    (below : i < next)
    (unheld : (qid : ℕ) (q : Proxy) → get_elem? ps qid ≡ some q → holds i q.sessions ≡ false) where
  abbrev grown : Proxy
  grown = record p { sessions = p.sessions ++ (i, s) ∷ [] }

  -- Who holds a session afterwards held it before, or it is the new one.
  held_or_new :
      (qid j : ℕ) (q : Proxy)
      → get_elem? (set ps pid grown) qid ≡ some q
      → holds j q.sessions ≡ true
      → ((q0 : Proxy) × (get_elem? ps qid ≡ some q0) × (holds j q0.sessions ≡ true))
        ⊎ ((j ≡ i) × (qid ≡ pid))
  held_or_new qid j q e h = elim (get_elem?-set ps pid qid p grown q at e) [
    | inl (same, is_grown) ↦
        let h' : holds j (p.sessions ++ (i, s) ∷ []) ≡ true =
          subst (λ (r : Proxy). holds j r.sessions ≡ true) is_grown h in
        elim (Bool-cases (holds j p.sessions)) [
          | inl old ↦ inl (p, rw same at, old)
          | inr fresh ↦ inr (ground (arith, holds-append j p.sessions ((i, s) ∷ [])), same)
        ]
    | inr (other, there) ↦ inl (q, there, h)
  ]

  pub grow : find_session s.taddr p.sessions ≡ none → IsListed (set ps pid grown) weak next
  grow absent = record {
    listed = λ qid j q e h. elim (held_or_new qid j q e h) [
      | inl (q0, e0, h0) ↦ v.listed qid j q0 e0 h0
      | inr (is_new, here) ↦ rw is_new in_weak
    ];
    numbered = λ qid j q e h. elim (held_or_new qid j q e h) [
      | inl (q0, e0, h0) ↦ v.numbered qid j q0 e0 h0
      | inr (is_new, here) ↦ rw is_new below
    ];
    owned = λ qid rid j q r e f h k. elim (held_or_new qid j q e h) [
      | inl (q0, e0, h0) ↦ elim (held_or_new rid j r f k) [
        | inl (r0, f0, k0) ↦ v.owned qid rid j q0 r0 e0 f0 h0 k0
        | inr (is_new, here) ↦
            absurd (ground (arith, unheld qid q0 e0, ap (λ n. holds n q0.sessions) is_new))
      ]
      | inr (is_new, here) ↦ elim (held_or_new rid j r f k) [
        | inl (r0, f0, k0) ↦
            absurd (ground (arith, unheld rid r0 f0, ap (λ n. holds n r0.sessions) is_new))
        | inr (is_new', there) ↦ here ∙ sym there
      ]
    ];
    distinct = λ qid q e. elim (get_elem?-set ps pid qid p grown q at e) [
      | inl (same, is_grown) ↦
          rw is_grown
            (Distinct-append p.sessions i s (v.distinct pid p at) (unheld pid p at) absent)
      | inr (other, there) ↦ v.distinct qid q there
    ];
    weak_numbered = v.weak_numbered;
    weak_once = v.weak_once;
  }
