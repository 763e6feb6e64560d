-- ===== src/Pointers/Keeps.antt =====
-- src/ptr.h: every operation keeps the counts.
use ndppd.Base.{
  get_below, ℕ, ◌+◌, ◌≤◌, ◌≡◌, ◌≢◌, refl, ap, ◌∙◌, sym, Bool, true, false, ◌&&◌, ◌||◌, some, ◌==◌,
  if◌then◌else◌, length-set, get_elem?, get_set-cases, get_some-below, inl, inr, arith, Bool-cases,
}
use ndppd.Pointers.{
  Ref, Handle, Heap, Outcome, ok, invalid, failed, dangling, write_ref, write_handle,
}
use ndppd.Pointers.Counts.{has, strong_at, weak_at, IsCounted, total-set, total-get}

-- A change of handle `h` and of the `ptr_ref` `r` that goes with it.
pub record Fits (s : Heap) (h r : ℕ) (p p' : Handle) (x x' : Ref) : Type 0 where
  pub at_handle : get_elem? s.handles h ≡ some p
  pub at_ref : get_elem? s.refs r ≡ some x
  pub strong_here : x'.sc + strong_at r p ≡ x.sc + strong_at r p'
  pub weak_here : x'.wc + weak_at r p ≡ x.wc + weak_at r p'
  pub strong_else : (k : ℕ) → k ≢ r → strong_at k p ≡ strong_at k p'
  pub weak_else : (k : ℕ) → k ≢ r → weak_at k p ≡ weak_at k p'
  pub is_freed : x'.freed ≡ ((x'.sc == 0) && (x'.wc == 0))
  pub is_alive : (x'.sc == 0) ≡ false → x'.alive ≡ true
  pub same_ref : (k : ℕ) → p'.ref ≡ some k → k ≡ r

module _ (s : Heap) (h r : ℕ) (p p' : Handle) (x x' : Ref) (c : IsCounted s)
    (f : Fits s h r p p' x x') where
  pub Fits-IsCounted : IsCounted (write_handle h p' (write_ref r x' s))
  unfolding write_handle write_ref
  Fits-IsCounted = record {
    strong = λ k y e. elim (get_set-cases s.refs r k x' y e) [
      | inl (here, same) ↦
          rw (here, same)
            (omega (
              arith,
              f.strong_here,
              c.strong r x f.at_ref,
              total-set (strong_at r) s.handles h p p' f.at_handle,
            ))
      | inr (other, there) ↦ omega (
        arith,
        f.strong_else k other,
        c.strong k y there,
        total-set (strong_at k) s.handles h p p' f.at_handle,
      )
    ];
    weak = λ k y e. elim (get_set-cases s.refs r k x' y e) [
      | inl (here, same) ↦
          rw (here, same)
            (omega (
              arith,
              f.weak_here,
              c.weak r x f.at_ref,
              total-set (weak_at r) s.handles h p p' f.at_handle,
            ))
      | inr (other, there) ↦ omega (
        arith,
        f.weak_else k other,
        c.weak k y there,
        total-set (weak_at k) s.handles h p p' f.at_handle,
      )
    ];
    freed = λ k y e. elim (get_set-cases s.refs r k x' y e) [
      | inl (here, same) ↦ rw same f.is_freed
      | inr (other, there) ↦ c.freed k y there
    ];
    alive = λ k y e nz. elim (get_set-cases s.refs r k x' y e) [
      | inl (here, same) ↦ rw same (f.is_alive (ap (λ (z : Ref). z.sc == 0) (sym same) ∙ nz))
      | inr (other, there) ↦ c.alive k y there nz
    ];
    known = λ g k q e a. rw (length-set s.refs r x') (elim (get_set-cases s.handles h g p' q e) [
      | inl (here, same) ↦
          let at_r : k ≡ r = f.same_ref k (ap (λ (z : Handle). z.ref) (sym same) ∙ a) in
          rw at_r (get_some-below s.refs r x f.at_ref)
      | inr (other, there) ↦ c.known g k q there a
    ]);
  }

-- No assertion fails and nothing dangles; what is left is counted.
abbrev pub Keeps : Outcome → Type 0
Keeps (ok s) = IsCounted s
Keeps invalid = Unit {0}
Keeps failed = ⊥
Keeps dangling = ⊥

pub Keeps-if :
    (b : Bool) (m m' : Outcome)
    → (b ≡ true → Keeps m)
    → (b ≡ false → Keeps m')
    → Keeps (if b then m else m')
Keeps-if true m m' f g = f refl
Keeps-if false m m' f g = g refl

pub has_here : (r : ℕ) → has r (some r) ≡ 1
has_here r = ground arith

pub has_else : (k r : ℕ) → k ≢ r → has k (some r) ≡ 0
has_else k r ne = ground arith

-- The two counts of a handle that counts as weak, and of one that does not.
pub as_weak :
    (r : ℕ) (p : Handle)
    → (p.weak || p.releasing) ≡ true
    → (strong_at r p ≡ 0) × (weak_at r p ≡ has r p.ref)
as_weak r p e = rw e (refl, refl)

pub as_strong :
    (r : ℕ) (p : Handle)
    → (p.weak || p.releasing) ≡ false
    → (strong_at r p ≡ has r p.ref) × (weak_at r p ≡ 0)
as_strong r p e = rw e (refl, refl)

module _ (s : Heap) (c : IsCounted s) where
  pub ref_of :
      (g r : ℕ) (q : Handle)
      → get_elem? s.handles g ≡ some q
      → q.ref ≡ some r
      → (x : Ref) × (get_elem? s.refs r ≡ some x)
  ref_of g r q e a = get_below s.refs r (c.known g r q e a)

  -- The counts of a `ptr_ref` that a handle has.
  pub counted_weak :
      (g r : ℕ) (q : Handle) (x : Ref)
      → get_elem? s.handles g ≡ some q
      → q.ref ≡ some r
      → get_elem? s.refs r ≡ some x
      → (q.weak || q.releasing) ≡ true
      → 1 ≤ x.wc
  counted_weak g r q x e a b w =
      let one : weak_at r q ≡ 1 = (as_weak r q w).1 ∙ ap (has r) a ∙ has_here r in
      omega (arith, one, total-get (weak_at r) s.handles g q e, c.weak r x b)

  pub counted_strong :
      (g r : ℕ) (q : Handle) (x : Ref)
      → get_elem? s.handles g ≡ some q
      → q.ref ≡ some r
      → get_elem? s.refs r ≡ some x
      → (q.weak || q.releasing) ≡ false
      → 1 ≤ x.sc
  counted_strong g r q x e a b w =
      let one : strong_at r q ≡ 1 = (as_strong r q w).0 ∙ ap (has r) a ∙ has_here r in
      omega (arith, one, total-get (strong_at r) s.handles g q e, c.strong r x b)

  pub not_freed :
      (g r : ℕ) (q : Handle) (x : Ref)
      → get_elem? s.handles g ≡ some q
      → q.ref ≡ some r
      → get_elem? s.refs r ≡ some x
      → x.freed ≡ false
  not_freed g r q x e a b = elim (Bool-cases (q.weak || q.releasing)) [
    | inl w ↦ let some_weak = counted_weak g r q x e a b w in c.freed r x b ∙ ground arith
    | inr w ↦ let some_strong = counted_strong g r q x e a b w in c.freed r x b ∙ ground arith
  ]
