-- ===== src/Proxy/Aging.antt =====
-- src/session.cc, `update_all`, a description of it without the weak list, and each of its turns.
use ndppd.Base.{
  ℕ, ◌≡◌, refl, ◌∙◌, ap, sym, subst, inl, inr, true, false, List, [], ◌∷◌, some, ◌==◌,
  if◌then◌else◌, arith, Bool-cases,
}
use ndppd.Base.Int.{ℤ}
use ndppd.Address.{Address}
use ndppd.Session.{Config, Session, Verdict, keep, remove, update}
use ndppd.Proxy.{put_session}
use ndppd.Proxy.Update.{lookup_session, remove_session}
use ndppd.Proxy.Entries.{holds, Apart, Distinct}
use ndppd.Proxy.Listed.{mem}

-- An entry with its verdict, in front of the rest.
abbrev pub settle : ℕ → Verdict → List (ℕ × Session) → List (ℕ × Session)
settle i (keep s sent) rest = (i, s) ∷ rest
settle i (remove s) rest = rest

-- The list of a proxy after `update_all`.
abbrev pub age : Config → ℤ → List (ℕ × Session) → List (ℕ × Session)
age c t [] = []
age c t ((i, s) ∷ rest) = settle i (update c t s) (age c t rest)

-- The list while the numbers `due` still wait for their turn.
abbrev pub age_but : List ℕ → Config → ℤ → List (ℕ × Session) → List (ℕ × Session)
age_but due c t [] = []
age_but due c t ((i, s) ∷ rest) =
    if mem i due
    then (i, s) ∷ age_but due c t rest
    else settle i (update c t s) (age_but due c t rest)

pub age_but_nothing :
    (c : Config) (t : ℤ) (xs : List (ℕ × Session)) → age_but [] c t xs ≡ age c t xs
age_but_nothing c t [] = refl
age_but_nothing c t ((i, s) ∷ xs) = rw (age_but_nothing c t xs) refl

pub age_but_all :
    (due : List ℕ) (c : Config) (t : ℤ) (xs : List (ℕ × Session))
    → ((i : ℕ) → holds i xs ≡ true → mem i due ≡ true)
    → age_but due c t xs ≡ xs
age_but_all due c t [] h = refl
age_but_all due c t ((i, s) ∷ xs) h =
    rw (h i (ground arith), age_but_all due c t xs (λ j k. h j (ground arith))) refl

lookup-settle :
    (i j : ℕ) (v : Verdict) (rest : List (ℕ × Session))
    → (j == i) ≡ false
    → lookup_session i (settle j v rest) ≡ lookup_session i rest
unfolding lookup_session
lookup-settle i j (keep s sent) rest h = rw h refl
lookup-settle i j (remove s) rest h = refl

other_number : (i j : ℕ) (due : List ℕ) → mem i due ≡ true → mem j due ≡ false → (j == i) ≡ false
other_number i j due h k = elim (Bool-cases (j == i)) [
  | inl same ↦ let e : j ≡ i = ground arith in absurd (ground (arith, ap (λ n. mem n due) e))
  | inr other ↦ other
]

flip_test : (i j : ℕ) → (j == i) ≡ false → (i == j) ≡ false
flip_test i j h = ground arith

-- A session that is due is still what it was.
pub lookup-age_but :
    (i : ℕ) (due : List ℕ) (c : Config) (t : ℤ) (xs : List (ℕ × Session))
    → mem i due ≡ true
    → lookup_session i (age_but due c t xs) ≡ lookup_session i xs
unfolding lookup_session
lookup-age_but i due c t [] h = refl
lookup-age_but i due c t ((j, s) ∷ xs) h = elim (Bool-cases (mem j due)) [
  | inl later ↦ rw later (ground (arith, lookup-age_but i due c t xs h))
  | inr now ↦
      let other : (j == i) ≡ false = other_number i j due h now in
      rw (now, other)
        (lookup-settle i j (update c t s) (age_but due c t xs) other
          ∙ lookup-age_but i due c t xs h)
]

-- The turn of a number that the list does not have changes nothing.
pub age_but_absent :
    (i : ℕ) (due : List ℕ) (c : Config) (t : ℤ) (xs : List (ℕ × Session))
    → holds i xs ≡ false
    → age_but (i ∷ due) c t xs ≡ age_but due c t xs
age_but_absent i due c t [] h = refl
age_but_absent i due c t ((j, s) ∷ xs) h =
    rw (age_but_absent i due c t xs (ground arith), flip_test i j (ground arith)) refl

-- Without the number `i`, nothing is removed.
remove_absent : (i : ℕ) (xs : List (ℕ × Session)) → holds i xs ≡ false → remove_session i xs ≡ xs
unfolding remove_session
remove_absent i [] h = refl
remove_absent i ((j, s) ∷ xs) h = ground (arith, remove_absent i xs (ground arith))

holds-settle :
    (i j : ℕ) (v : Verdict) (rest : List (ℕ × Session))
    → (j == i) ≡ false
    → holds i (settle j v rest) ≡ holds i rest
holds-settle i j (keep s sent) rest h = rw h refl
holds-settle i j (remove s) rest h = refl

pub holds-age_but :
    (i : ℕ) (due : List ℕ) (c : Config) (t : ℤ) (xs : List (ℕ × Session))
    → holds i xs ≡ false
    → holds i (age_but due c t xs) ≡ false
holds-age_but i due c t [] h = refl
holds-age_but i due c t ((j, s) ∷ xs) h = elim (Bool-cases (mem j due)) [
  | inl later ↦ rw later (ground (arith, holds-age_but i due c t xs (ground arith)))
  | inr now ↦ rw now (
      holds-settle i j (update c t s) (age_but due c t xs) (ground arith)
      ∙ holds-age_but i due c t xs (ground arith))
]

-- The number of an entry is not that of a later one.
Apart-holds : (i : ℕ) (a : Address) (xs : List (ℕ × Session)) → Apart i a xs → holds i xs ≡ false
Apart-holds i a [] h = refl
Apart-holds i a ((j, s) ∷ xs) h =
    ground (arith, flip_test j i (ground arith), Apart-holds i a xs h.2)

-- What the turn of the number `i` does to the list that has it.
abbrev pub turn : ℕ → Verdict → List (ℕ × Session) → List (ℕ × Session)
turn i (keep s sent) xs = put_session i s xs
turn i (remove s) xs = remove_session i xs

turn-settle :
    (i j : ℕ) (o v : Verdict) (rest : List (ℕ × Session))
    → (j == i) ≡ false
    → turn i o (settle j v rest) ≡ settle j v (turn i o rest)
unfolding put_session remove_session
turn-settle i j (keep s' sent') (keep s sent) rest h = rw h refl
turn-settle i j (keep s' sent') (remove s) rest h = refl
turn-settle i j (remove s') (keep s sent) rest h = rw h refl
turn-settle i j (remove s') (remove s) rest h = refl

turn-later :
    (i j : ℕ) (o : Verdict) (s : Session) (rest : List (ℕ × Session))
    → (j == i) ≡ false
    → turn i o ((j, s) ∷ rest) ≡ (j, s) ∷ turn i o rest
turn-later i j o s rest h = turn-settle i j o (keep s []) rest h

turn_here :
    (i : ℕ) (o : Verdict) (s : Session) (rest : List (ℕ × Session))
    → holds i rest ≡ false
    → turn i o ((i, s) ∷ rest) ≡ settle i o rest
unfolding put_session remove_session
turn_here i (keep s' sent') s rest h = ground arith
turn_here i (remove s') s rest h = ground (arith, remove_absent i rest h)

-- The turn of a number that the list has in front.
age_but-turn_here :
    (i : ℕ) (s : Session) (due : List ℕ) (c : Config) (t : ℤ) (xs : List (ℕ × Session))
    → mem i due ≡ false
    → holds i xs ≡ false
    → turn i (update c t s) (age_but (i ∷ due) c t ((i, s) ∷ xs)) ≡ age_but due c t ((i, s) ∷ xs)
age_but-turn_here i s due c t xs h gone =
    let front : age_but (i ∷ due) c t ((i, s) ∷ xs) ≡ (i, s) ∷ age_but due c t xs =
      ground (arith, age_but_absent i due c t xs gone) in
    ap (turn i (update c t s)) front
    ∙ (turn_here i (update c t s) s (age_but due c t xs) (holds-age_but i due c t xs gone)
        ∙ rw h refl)

-- A number with its turn behind it.
age_but-turn_there :
    (i j : ℕ) (o : Verdict) (x : Session) (due : List ℕ) (c : Config) (t : ℤ)
    (xs : List (ℕ × Session))
    → (j == i) ≡ false
    → turn i o (age_but (i ∷ due) c t xs) ≡ age_but due c t xs
    → turn i o (age_but (i ∷ due) c t ((j, x) ∷ xs)) ≡ age_but due c t ((j, x) ∷ xs)
age_but-turn_there i j o x due c t xs there rest = elim (Bool-cases (mem j due)) [
  | inl later ↦
      rw (flip_test i j there, later)
        (turn-later i j o x (age_but (i ∷ due) c t xs) there ∙ ap (λ r. (j, x) ∷ r) rest)
  | inr now ↦
      rw (flip_test i j there, now)
        (turn-settle i j o (update c t x) (age_but (i ∷ due) c t xs) there
          ∙ ap (settle j (update c t x)) rest)
]

-- The turn of a number that the list has.
pub age_but-turn :
    (i : ℕ) (s : Session) (due : List ℕ) (c : Config) (t : ℤ) (xs : List (ℕ × Session))
    → mem i due ≡ false
    → Distinct xs
    → lookup_session i xs ≡ some s
    → turn i (update c t s) (age_but (i ∷ due) c t xs) ≡ age_but due c t xs
unfolding lookup_session
age_but-turn i s due c t [] h d e = cc
age_but-turn i s due c t ((j, x) ∷ xs) h d e = elim (Bool-cases (j == i)) [
  | inl here ↦
      let same : j ≡ i = ground arith in
      let it : x ≡ s = ground arith in
      let gone : holds j xs ≡ false = Apart-holds j x.taddr xs d.0 in
      subst
        (λ (e : ℕ × Session).
          turn i (update c t s) (age_but (i ∷ due) c t (e ∷ xs)) ≡ age_but due c t (e ∷ xs))
        (sym (ap (λ k. (k, x)) same ∙ ap (λ y. (i, y)) it))
        (age_but-turn_here i s due c t xs h (rw same at gone))
  | inr there ↦
      age_but-turn_there i j (update c t s) x due c t xs there
        (age_but-turn i s due c t xs h d.1 (rw (there, lookup_session) at e))
]
