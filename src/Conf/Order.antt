-- ===== src/Conf/Order.antt =====
-- src/conf.cc: the multimap of a block and its order.
use ndppd.Base.{
  ◌≡◌, refl, ◌∙◌, ap, sym, inl, inr, Bool, true, false, List, [], ◌∷◌, ◌++◌, if◌then◌else◌, arith,
  Bool-cases, Bytes, equal_text, equal_text_iff,
}
use ndppd.Conf.{Conf, Entries, end, entry, before, insert, find_all}

-- No key of the entries is less than this one.
abbrev pub AtLeast : Bytes → Entries → Type 0
AtLeast key end = Unit {0}
AtLeast key (entry k c es) = (before k key ≡ false) × AtLeast key es

-- The keys do not decrease.
abbrev pub Sorted : Entries → Type 0
Sorted end = Unit {0}
Sorted (entry k c es) = AtLeast k es × Sorted es

before-irreflexive : (a : Bytes) → before a a ≡ false
unfolding before
before-irreflexive [] = refl
before-irreflexive (x ∷ a) = ground (arith, before-irreflexive a)

before-asym : (a b : Bytes) → before a b ≡ true → before b a ≡ false
unfolding before
before-asym [] [] h = refl
before-asym [] (y ∷ b) h = refl
before-asym (x ∷ a) [] h = cc
before-asym (x ∷ a) (y ∷ b) h = ground (arith, before-asym a b)

-- Not less, twice.
before-chain : (a b c : Bytes) → before b a ≡ false → before c b ≡ false → before c a ≡ false
unfolding before
before-chain [] b c h k = refl
before-chain (x ∷ a) [] c h k = cc
before-chain (x ∷ a) (y ∷ b) [] h k = cc
before-chain (x ∷ a) (y ∷ b) (z ∷ c) h k = ground (arith, before-chain a b c)

AtLeast-chain : (a b : Bytes) (es : Entries) → before b a ≡ false → AtLeast b es → AtLeast a es
AtLeast-chain a b end h k = tt
AtLeast-chain a b (entry c cf es) h k = (before-chain a b c h k.0, AtLeast-chain a b es h k.1)

AtLeast-insert :
    (k key : Bytes) (cf : Conf) (es : Entries)
    → before key k ≡ false
    → AtLeast k es
    → AtLeast k (insert key cf es)
unfolding insert
AtLeast-insert k key cf end h l = (h, tt)
AtLeast-insert k key cf (entry j c es) h l = elim (Bool-cases (before key j)) [
  | inl here ↦ rw here (h, l)
  | inr later ↦ rw later (l.0, AtLeast-insert k key cf es h l.1)
]

-- Inserting keeps the order of the keys.
pub Sorted-insert : (key : Bytes) (cf : Conf) (es : Entries) → Sorted es → Sorted (insert key cf es)
unfolding insert
Sorted-insert key cf end s = (tt, tt)
Sorted-insert key cf (entry k c es) s = elim (Bool-cases (before key k)) [
  | inl here ↦
      let above = before-asym key k here in rw here ((above, AtLeast-chain key k es above s.0), s)
  | inr later ↦ rw later (AtLeast-insert k key cf es later s.0, Sorted-insert key cf es s.1)
]

-- A key that is less than every key of the entries is none of them.
find_all-less :
    (name k : Bytes) (es : Entries) → before name k ≡ true → AtLeast k es → find_all name es ≡ []
unfolding find_all
find_all-less name k end h l = refl
find_all-less name k (entry j c es) h l = elim (Bool-cases (equal_text j name)) [
  | inl same ↦
      let e : j ≡ name = (equal_text_iff j name).0 same in
      absurd (ground (arith, ap (λ x. before x k) e, l.0, h))
  | inr other ↦ rw other (find_all-less name k es h l.1)
]

choose-append :
    (b : Bool) (c : Conf) (xs ys : List Conf)
    → (if b then c ∷ (xs ++ ys) else xs ++ ys) ≡ (if b then c ∷ xs else xs) ++ ys
choose-append true c xs ys = refl
choose-append false c xs ys = refl

-- In a block whose keys are in order, an inserted entry comes last among those of its name, and
-- the entries of every other name stay as they were.
pub find_all-insert :
    (name key : Bytes) (cf : Conf) (es : Entries)
    → Sorted es
    → find_all name (insert key cf es)
      ≡ (if equal_text key name then find_all name es ++ cf ∷ [] else find_all name es)
unfolding insert find_all
find_all-insert name key cf end s = elim (Bool-cases (equal_text key name)) [
  | inl same ↦ rw same refl
  | inr other ↦ rw other refl
]
find_all-insert name key cf (entry k c es) s = elim (Bool-cases (before key k)) [
  | inl here ↦ rw here (elim (Bool-cases (equal_text key name)) [
    | inl same ↦
        let e : key ≡ name = (equal_text_iff key name).0 same in
        let none_yet : find_all name (entry k c es) ≡ [] =
          find_all-less name k (entry k c es) (rw (← e) here) (before-irreflexive k, s.0) in
        rw same (ap (λ r. cf ∷ r) none_yet ∙ ap (λ (r : List Conf). r ++ cf ∷ []) (sym none_yet))
    | inr other ↦ rw other refl
  ])
  | inr later ↦
      rw (later, find_all-insert name key cf es s.1)
        (elim (Bool-cases (equal_text key name)) [
          | inl same ↦ rw same (choose-append (equal_text k name) c (find_all name es) (cf ∷ []))
          | inr other ↦ rw other refl
        ])
]
