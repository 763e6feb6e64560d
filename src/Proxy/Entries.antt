-- ===== src/Proxy/Entries.antt =====
-- src/proxy.cc: the list `_sessions` of a proxy, whose entries have numbers and targets of their own.
use ndppd.Base.{
  ℕ, ◌≡◌, refl, inl, inr, Bool, false, ◌||◌, List, [], ◌∷◌, ◌++◌, none, some, ◌==◌, arith,
  Bool-cases,
}
use ndppd.Address.{Address, equal}
use ndppd.Session.{Session}
use ndppd.Proxy.{find_session, put_session}
use ndppd.Proxy.Update.{lookup_session}

abbrev pub holds : ℕ → List (ℕ × Session) → Bool
holds i [] = false
holds i ((j, s) ∷ rest) = (j == i) || holds i rest

-- Neither the number nor the target is that of an entry.
abbrev pub Apart : ℕ → Address → List (ℕ × Session) → Type 0
Apart i a [] = Unit {0}
Apart i a ((j, s) ∷ rest) = ((i == j) ≡ false) × (equal a s.taddr ≡ false) × Apart i a rest

-- No two entries share a number, and the target of an entry does not match that of a later one.
abbrev pub Distinct : List (ℕ × Session) → Type 0
Distinct [] = Unit {0}
Distinct ((i, s) ∷ rest) = Apart i s.taddr rest × Distinct rest

pub holds-append :
    (i : ℕ) (xs ys : List (ℕ × Session)) → holds i (xs ++ ys) ≡ (holds i xs || holds i ys)
holds-append i [] ys = refl
holds-append i ((j, s) ∷ xs) ys = ground (arith, holds-append i xs ys)

Apart-append :
    (i : ℕ) (a : Address) (xs : List (ℕ × Session)) (j : ℕ) (t : Session)
    → Apart i a xs
    → (i == j) ≡ false
    → equal a t.taddr ≡ false
    → Apart i a (xs ++ (j, t) ∷ [])
Apart-append i a [] j t h e f = (e, f, tt)
Apart-append i a ((k, s) ∷ xs) j t h e f = (h.0, h.1, Apart-append i a xs j t h.2 e f)

-- A session that the search did not find can be appended.
pub Distinct-append :
    (xs : List (ℕ × Session)) (j : ℕ) (t : Session)
    → Distinct xs
    → holds j xs ≡ false
    → find_session t.taddr xs ≡ none
    → Distinct (xs ++ (j, t) ∷ [])
unfolding find_session
Distinct-append [] j t d h f = (tt, tt)
Distinct-append ((k, s) ∷ xs) j t d h f =
    let miss : equal s.taddr t.taddr ≡ false = ground arith in
    (
      Apart-append k s.taddr xs j t d.0 (ground arith) miss,
      Distinct-append xs j t d.1 (ground arith) (ground arith),
    )

pub holds-put_session :
    (i j : ℕ) (s : Session) (xs : List (ℕ × Session)) → holds j (put_session i s xs) ≡ holds j xs
unfolding put_session
holds-put_session i j s [] = refl
holds-put_session i j s ((k, t) ∷ xs) = ground (arith, holds-put_session i j s xs)

Apart-put_session :
    (k : ℕ) (a : Address) (i : ℕ) (s s' : Session) (xs : List (ℕ × Session))
    → lookup_session i xs ≡ some s
    → s'.taddr ≡ s.taddr
    → Apart k a xs
    → Apart k a (put_session i s' xs)
unfolding put_session lookup_session
Apart-put_session k a i s s' [] e f h = tt
Apart-put_session k a i s s' ((j, t) ∷ xs) e f h = elim (Bool-cases (j == i)) [
  | inl hit ↦ let same : s'.taddr ≡ t.taddr = ground arith in rw hit (h.0, rw same h.1, h.2)
  | inr miss ↦
      rw miss (h.0, h.1, Apart-put_session k a i s s' xs (rw (miss, lookup_session) at e) f h.2)
]

-- A session written back with its own target.
pub Distinct-put_session :
    (i : ℕ) (s s' : Session) (xs : List (ℕ × Session))
    → lookup_session i xs ≡ some s
    → s'.taddr ≡ s.taddr
    → Distinct xs
    → Distinct (put_session i s' xs)
unfolding put_session lookup_session
Distinct-put_session i s s' [] e f d = tt
Distinct-put_session i s s' ((j, t) ∷ xs) e f d = elim (Bool-cases (j == i)) [
  | inl hit ↦ let same : s'.taddr ≡ t.taddr = ground arith in rw hit (rw same d.0, d.1)
  | inr miss ↦
      let e' : lookup_session i xs ≡ some s = rw (miss, lookup_session) at e in
      rw miss
        (Apart-put_session j t.taddr i s s' xs e' f d.0, Distinct-put_session i s s' xs e' f d.1)
]

lookup-Apart :
    (k i : ℕ) (a : Address) (s : Session) (xs : List (ℕ × Session))
    → Apart k a xs
    → lookup_session i xs ≡ some s
    → (k == i) ≡ false
unfolding lookup_session
lookup-Apart k i a s [] h e = cc
lookup-Apart k i a s ((j, t) ∷ xs) h e = elim (Bool-cases (j == i)) [
  | inl hit ↦ ground arith
  | inr miss ↦ lookup-Apart k i a s xs h.2 (rw (miss, lookup_session) at e)
]

-- The session that the search finds is the one that its number names.
pub find_session-lookup :
    (a : Address) (i : ℕ) (s : Session) (xs : List (ℕ × Session))
    → Distinct xs
    → find_session a xs ≡ some (i, s)
    → lookup_session i xs ≡ some s
unfolding find_session lookup_session
find_session-lookup a i s [] d e = cc
find_session-lookup a i s ((j, t) ∷ xs) d e = elim (Bool-cases (equal t.taddr a)) [
  | inl hit ↦ ground arith
  | inr miss ↦
      let there = find_session-lookup a i s xs d.1 (rw (miss, find_session) at e) in
      rw (lookup-Apart j i t.taddr s xs d.0 there) there
]

pub lookup-append :
    (i : ℕ) (s : Session) (xs : List (ℕ × Session))
    → holds i xs ≡ false
    → lookup_session i (xs ++ (i, s) ∷ []) ≡ some s
unfolding lookup_session
lookup-append i s [] h = ground arith
lookup-append i s ((j, t) ∷ xs) h = ground (arith, lookup-append i s xs (ground arith))
