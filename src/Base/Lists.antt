-- ===== src/Base/Lists.antt =====
-- Lists measured and indexed by native numbers, under the library's names.
use Prim.Native.Nat.{ℕ, zero, suc, ◌+◌, ◌-◌, ◌<◌, ◌≤◌, min}
use mathlib.Core.Path.{◌≡◌, refl, ap, ap₂, subst}
use mathlib.Core.Logic.{◌≢◌, ◌⊎◌, inl, inr}
use mathlib.Core.List.{List, [], ◌∷◌, ◌++◌, map}
use mathlib.Core.Option.{Option, none, some}
use native.Mathlib.Nat.{zero-add, suc-add}
use native.Mathlib.Omega.{arith}

module _ {ℓ} {A : Type ℓ} where
  abbrev pub length : List A → ℕ
  length [] = 0
  length (x ∷ xs) = suc (length xs)

  abbrev pub get_elem? : List A → ℕ → Option A
  get_elem? [] i = none
  get_elem? (x ∷ xs) zero = some x
  get_elem? (x ∷ xs) (suc i) = get_elem? xs i

  -- A write out of bounds changes nothing.
  abbrev pub set : List A → ℕ → A → List A
  set [] i v = []
  set (x ∷ xs) zero v = v ∷ xs
  set (x ∷ xs) (suc i) v = x ∷ set xs i v

  pub length-append : (xs ys : List A) → length (xs ++ ys) ≡ length xs + length ys
  length-append [] ys = omega arith
  length-append (x ∷ xs) ys = omega (arith, length-append xs ys)

  pub append_nil : (xs : List A) → xs ++ [] ≡ xs
  append_nil [] = refl
  append_nil (x ∷ xs) = ap (◌∷◌ x) (append_nil xs)

  pub append_assoc : (xs ys zs : List A) → (xs ++ ys) ++ zs ≡ xs ++ (ys ++ zs)
  append_assoc [] ys zs = refl
  append_assoc (x ∷ xs) ys zs = ap (◌∷◌ x) (append_assoc xs ys zs)

module _ {ℓ} {A : Type ℓ} where
  pub length-set : (xs : List A) (i : ℕ) (v : A) → length (set xs i v) ≡ length xs
  length-set [] i v = refl
  length-set (x ∷ xs) zero v = refl
  length-set (x ∷ xs) (suc i) v = ap suc (length-set xs i v)

  pub get_elem?-set_self :
      (xs : List A) (i : ℕ) (v : A) → i < length xs → get_elem? (set xs i v) i ≡ some v
  get_elem?-set_self [] i v h = elim h [ ]
  get_elem?-set_self (x ∷ xs) zero v h = refl
  get_elem?-set_self (x ∷ xs) (suc i) v h = get_elem?-set_self xs i v (omega arith)

  pub get_elem?-set_ne :
      (xs : List A) {i j : ℕ} (v : A) → i ≢ j → get_elem? (set xs i v) j ≡ get_elem? xs j
  get_elem?-set_ne [] v h = refl
  get_elem?-set_ne (x ∷ xs) {i = zero} {j = zero} v h = absurd (h refl)
  get_elem?-set_ne (x ∷ xs) {i = zero} {j = suc j} v h = refl
  get_elem?-set_ne (x ∷ xs) {i = suc i} {j = zero} v h = refl
  get_elem?-set_ne (x ∷ xs) {i = suc i} {j = suc j} v h = get_elem?-set_ne xs v (λ e. h (ap suc e))

module _ {ℓ} {A : Type ℓ} where
  abbrev pub get_or : List A → ℕ → A → A
  get_or [] i d = d
  get_or (x ∷ xs) zero d = x
  get_or (x ∷ xs) (suc i) d = get_or xs i d

  abbrev pub take : ℕ → List A → List A
  take zero xs = []
  take (suc n) [] = []
  take (suc n) (x ∷ xs) = x ∷ take n xs

  abbrev pub drop : ℕ → List A → List A
  drop zero xs = xs
  drop (suc n) [] = []
  drop (suc n) (x ∷ xs) = drop n xs

  abbrev pub replicate : ℕ → A → List A
  replicate zero a = []
  replicate (suc n) a = a ∷ replicate n a

  pub take-append-drop : (n : ℕ) (xs : List A) → take n xs ++ drop n xs ≡ xs
  take-append-drop zero xs = refl
  take-append-drop (suc n) [] = refl
  take-append-drop (suc n) (x ∷ xs) = rw (take-append-drop n xs)

  pub length-take : (n : ℕ) (xs : List A) → length (take n xs) ≡ min n (length xs)
  length-take zero xs = omega arith
  length-take (suc n) [] = omega arith
  length-take (suc n) (x ∷ xs) = omega (arith, length-take n xs)

  pub length-drop : (n : ℕ) (xs : List A) → length (drop n xs) ≡ length xs - n
  length-drop zero xs = omega arith
  length-drop (suc n) [] = omega arith
  length-drop (suc n) (x ∷ xs) = omega (arith, length-drop n xs)

  pub length-replicate : (n : ℕ) (a : A) → length (replicate n a) ≡ n
  length-replicate zero a = refl
  length-replicate (suc n) a = ap suc (length-replicate n a)

  pub length-map {κ} : {B : Type κ} (xs : List A) (f : A → B) → length (map f xs) ≡ length xs
  length-map [] f = refl
  length-map (x ∷ xs) f = ap suc (length-map xs f)

module _ {ℓ} {A : Type ℓ} where
  pub get_or-set_self :
      (xs : List A) (i : ℕ) (v d : A) → i < length xs → get_or (set xs i v) i d ≡ v
  get_or-set_self [] i v d h = elim h [ ]
  get_or-set_self (x ∷ xs) zero v d h = refl
  get_or-set_self (x ∷ xs) (suc i) v d h = get_or-set_self xs i v d (omega arith)

  pub get_or-set_ne :
      (xs : List A) (i j : ℕ) (v d : A) → i ≢ j → get_or (set xs i v) j d ≡ get_or xs j d
  get_or-set_ne [] i j v d h = refl
  get_or-set_ne (x ∷ xs) zero zero v d h = absurd (h refl)
  get_or-set_ne (x ∷ xs) zero (suc j) v d h = refl
  get_or-set_ne (x ∷ xs) (suc i) zero v d h = refl
  get_or-set_ne (x ∷ xs) (suc i) (suc j) v d h = get_or-set_ne xs i j v d (λ e. h (ap suc e))

  pub get_or-replicate_self : (n i : ℕ) (a : A) → get_or (replicate n a) i a ≡ a
  get_or-replicate_self zero i a = refl
  get_or-replicate_self (suc n) zero a = refl
  get_or-replicate_self (suc n) (suc i) a = get_or-replicate_self n i a

  pub get_or-replicate : (n i : ℕ) (a d : A) → i < n → get_or (replicate n a) i d ≡ a
  get_or-replicate zero i a d h = elim h [ ]
  get_or-replicate (suc n) zero a d h = refl
  get_or-replicate (suc n) (suc i) a d h = get_or-replicate n i a d (omega arith)

  pub get_or_ext :
      (d : A) (n : ℕ) (xs ys : List A)
      → length xs ≡ n
      → length ys ≡ n
      → ((i : ℕ) → i < n → get_or xs i d ≡ get_or ys i d)
      → xs ≡ ys
  get_or_ext d n [] [] p q h = refl
  get_or_ext d n [] (y ∷ ys) p q h = absurd (omega arith)
  get_or_ext d n (x ∷ xs) [] p q h = absurd (omega arith)
  get_or_ext d zero (x ∷ xs) (y ∷ ys) p q h = absurd (omega arith)
  get_or_ext d (suc n) (x ∷ xs) (y ∷ ys) p q h =
      ap₂ ◌∷◌ (h 0 (omega arith))
        (get_or_ext d n xs ys (omega arith) (omega arith) (λ i lt. h (suc i) (omega arith)))

module _ {ℓ} {A : Type ℓ} where
  pub take_past :
      (n k : ℕ) (xs ys : List A) → length xs ≡ n → take (n + k) (xs ++ ys) ≡ xs ++ take k ys
  take_past zero k [] ys e = rw zero-add
  take_past zero k (x ∷ xs) ys e = absurd (omega arith)
  take_past (suc n) k [] ys e = absurd (omega arith)
  take_past (suc n) k (x ∷ xs) ys e = rw suc-add (ap (◌∷◌ x) (take_past n k xs ys (omega arith)))

  pub drop_past : (n k : ℕ) (xs ys : List A) → length xs ≡ n → drop (n + k) (xs ++ ys) ≡ drop k ys
  drop_past zero k [] ys e = rw zero-add
  drop_past zero k (x ∷ xs) ys e = absurd (omega arith)
  drop_past (suc n) k [] ys e = absurd (omega arith)
  drop_past (suc n) k (x ∷ xs) ys e = rw suc-add (drop_past n k xs ys (omega arith))

  -- The part in front, and the rest.
  pub take_front : (n : ℕ) (xs ys : List A) → length xs ≡ n → take n (xs ++ ys) ≡ xs
  take_front zero [] ys e = refl
  take_front zero (x ∷ xs) ys e = absurd (omega arith)
  take_front (suc n) [] ys e = absurd (omega arith)
  take_front (suc n) (x ∷ xs) ys e = ap (◌∷◌ x) (take_front n xs ys (omega arith))

  pub drop_front : (n : ℕ) (xs ys : List A) → length xs ≡ n → drop n (xs ++ ys) ≡ ys
  drop_front zero [] ys e = refl
  drop_front zero (x ∷ xs) ys e = absurd (omega arith)
  drop_front (suc n) [] ys e = absurd (omega arith)
  drop_front (suc n) (x ∷ xs) ys e = drop_front n xs ys (omega arith)

  pub take_all : (n : ℕ) (xs : List A) → length xs ≤ n → take n xs ≡ xs
  take_all zero [] h = refl
  take_all zero (x ∷ xs) h = absurd (omega arith)
  take_all (suc n) [] h = refl
  take_all (suc n) (x ∷ xs) h = ap (◌∷◌ x) (take_all n xs (omega arith))

-- Something that holds of every element.
module _ {ℓ κ} {A : Type ℓ} where
  abbrev pub Every : (A → Type κ) → List A → Type κ
  Every P [] = Unit {κ}
  Every P (x ∷ xs) = P x × Every P xs

  pub Every-get :
      (P : A → Type κ) (xs : List A) (i : ℕ) (x : A) → Every P xs → get_elem? xs i ≡ some x → P x
  Every-get P [] i x h e = absurd cc
  Every-get P (y ∷ ys) zero x h e = subst P (ground arith) h.0
  Every-get P (y ∷ ys) (suc i) x h e = Every-get P ys i x h.1 e

  pub Every-set :
      (P : A → Type κ) (xs : List A) (i : ℕ) (v : A) → Every P xs → P v → Every P (set xs i v)
  Every-set P [] i v h k = h
  Every-set P (x ∷ xs) zero v h k = (k, h.1)
  Every-set P (x ∷ xs) (suc i) v h k = (h.0, Every-set P xs i v h.1 k)

  pub Every-append :
      (P : A → Type κ) (xs ys : List A) → Every P xs → Every P ys → Every P (xs ++ ys)
  Every-append P [] ys h k = k
  Every-append P (x ∷ xs) ys h k = (h.0, Every-append P xs ys h.1 k)

  pub Every-map : (P Q : A → Type κ) (xs : List A) → ((x : A) → P x → Q x) → Every P xs → Every Q xs
  Every-map P Q [] f h = h
  Every-map P Q (x ∷ xs) f h = (f x h.0, Every-map P Q xs f h.1)

module _ {ℓ} {A : Type ℓ} where
  -- What stands at `j` after a write at `i`.
  pub get_set-cases :
      (xs : List A) (i j : ℕ) (v y : A)
      → get_elem? (set xs i v) j ≡ some y
      → ((j ≡ i) × (y ≡ v)) ⊎ ((j ≢ i) × (get_elem? xs j ≡ some y))
  get_set-cases [] i j v y e = absurd cc
  get_set-cases (x ∷ xs) zero zero v y e = inl (refl, ground arith)
  get_set-cases (x ∷ xs) zero (suc j) v y e = inr ((λ f. absurd (omega arith)), e)
  get_set-cases (x ∷ xs) (suc i) zero v y e = inr ((λ f. absurd (omega arith)), e)
  get_set-cases (x ∷ xs) (suc i) (suc j) v y e = elim (get_set-cases xs i j v y e) [
    | inl (here, same) ↦ inl (ap suc here, same)
    | inr (other, there) ↦ inr ((λ f. other (omega arith)), there)
  ]

  pub get_append-cases :
      (xs : List A) (i : ℕ) (v y : A)
      → get_elem? (xs ++ (v ∷ [])) i ≡ some y
      → ((i ≡ length xs) × (y ≡ v)) ⊎ ((i < length xs) × (get_elem? xs i ≡ some y))
  get_append-cases [] zero v y e = inl (refl, ground arith)
  get_append-cases [] (suc i) v y e = absurd cc
  get_append-cases (x ∷ xs) zero v y e = inr (omega arith, e)
  get_append-cases (x ∷ xs) (suc i) v y e = elim (get_append-cases xs i v y e) [
    | inl (here, same) ↦ inl (ap suc here, same)
    | inr (lt, there) ↦ inr (omega arith, there)
  ]

  pub get_some-below : (xs : List A) (i : ℕ) (y : A) → get_elem? xs i ≡ some y → i < length xs
  get_some-below [] i y e = absurd cc
  get_some-below (x ∷ xs) zero y e = omega arith
  get_some-below (x ∷ xs) (suc i) y e = omega (arith, get_some-below xs i y e)

  pub get_below : (xs : List A) (i : ℕ) → i < length xs → (x : A) × (get_elem? xs i ≡ some x)
  get_below [] i lt = absurd (omega arith)
  get_below (x ∷ xs) zero lt = (x, refl)
  get_below (x ∷ xs) (suc i) lt = get_below xs i (omega arith)
