-- ===== src/Pointers/Fresh.antt =====
-- src/ptr.h: a new handle, and a `ptr_ref` for a new object.
use ndppd.Base.{
  ℕ, suc, ◌<◌, ◌≡◌, refl, ap, ◌∙◌, sym, Bool, true, false, ◌||◌, List, [], ◌∷◌, ◌++◌, none, some,
  if◌then◌else◌, length, length-append, get_elem?, get_set-cases, get_append-cases, inl, inr, arith,
  Bool-cases, Option-cases,
}
use ndppd.Pointers.{with_handle, Ref, Handle, Heap, ok, write_handle, construct, acquire_object}
use ndppd.Pointers.Counts.{has, strong_at, weak_at, total, IsCounted, total-set, total-append}
use ndppd.Pointers.Keeps.{Keeps, has_here, has_else, as_weak, as_strong}

-- A handle counts nothing for a `ptr_ref` that it does not have.
nothing_at : (k : ℕ) (p : Handle) → has k p.ref ≡ 0 → (strong_at k p ≡ 0) × (weak_at k p ≡ 0)
nothing_at k p e = elim (Bool-cases (p.weak || p.releasing)) [
  | inl w ↦ ((as_weak k p w).0, (as_weak k p w).1 ∙ e)
  | inr w ↦ ((as_strong k p w).0 ∙ e, (as_strong k p w).1)
]

total_nothing :
    (f : Handle → ℕ) (ps : List Handle)
    → ((h : ℕ) (p : Handle) → get_elem? ps h ≡ some p → f p ≡ 0)
    → total f ps ≡ 0
total_nothing f [] all = refl
total_nothing f (p ∷ ps) all =
    omega (arith, all 0 p refl, total_nothing f ps (λ h q e. all (suc h) q e))

module _ (s : Heap) (c : IsCounted s) where
  pub construct-IsCounted : (weak : Bool) → IsCounted (construct weak s)
  unfolding construct
  construct-IsCounted weak =
      let p : Handle = record { weak = weak; ref = none; releasing = false } in
      record {
        strong = λ r x e. omega (
          arith,
          c.strong r x e,
          total-append (strong_at r) s.handles (p ∷ []),
          (nothing_at r p refl).0,
        );
        weak = λ r x e. omega (
          arith,
          c.weak r x e,
          total-append (weak_at r) s.handles (p ∷ []),
          (nothing_at r p refl).1,
        );
        freed = c.freed;
        alive = c.alive;
        known = λ h r q e a. elim (get_append-cases s.handles h p q e) [
          | inl (here, same) ↦ absurd cc
          | inr (lt, there) ↦ c.known h r q there a
        ];
      }

  -- No handle has the number that comes next.
  unknown :
      (g : ℕ) (q : Handle)
      → get_elem? s.handles g ≡ some q
      → (strong_at (length s.refs) q ≡ 0) × (weak_at (length s.refs) q ≡ 0)
  unknown g q e = nothing_at (length s.refs) q (elim (Option-cases q.ref) [
    | inl a ↦ ap (has (length s.refs)) a
    | inr (k, a) ↦
        let lt = c.known g k q e a in
        ap (has (length s.refs)) a ∙ has_else (length s.refs) k (λ f. absurd (omega arith))
  ])

  module _ (h : ℕ) (p : Handle) (e : get_elem? s.handles h ≡ some p) (empty : p.ref ≡ none)
      (idle : p.releasing ≡ false) where
    -- The handle afterwards, and the new `ptr_ref`.
    abbrev p' : Handle
    p' = record p { ref = some (length s.refs) }

    abbrev made : Ref
    made = record {
      alive = true;
      sc = if p.weak then 0 else 1;
      wc = if p.weak then 1 else 0;
      freed = false;
    }

    abbrev after : Heap
    after = write_handle h p' (record s { refs = s.refs ++ made ∷ [] })

    made_counts : (strong_at (length s.refs) p' ≡ made.sc) × (weak_at (length s.refs) p' ≡ made.wc)
    made_counts = elim (Bool-cases p.weak) [
      | inl w ↦
          let c' = as_weak (length s.refs) p' (ground arith) in
          (c'.0 ∙ rw w refl, c'.1 ∙ has_here (length s.refs) ∙ rw w refl)
      | inr w ↦
          let c' = as_strong (length s.refs) p' (ground arith) in
          (c'.0 ∙ has_here (length s.refs) ∙ rw w refl, c'.1 ∙ rw w refl)
    ]

    else_counts : (k : ℕ) → k < length s.refs → (strong_at k p' ≡ 0) × (weak_at k p' ≡ 0)
    else_counts k lt = nothing_at k p' (has_else k (length s.refs) (λ f. absurd (omega arith)))

    before : (k : ℕ) → (strong_at k p ≡ 0) × (weak_at k p ≡ 0)
    before k = nothing_at k p (ap (has k) empty)

    after-IsCounted : IsCounted after
    unfolding write_handle
    after-IsCounted = record {
      strong = λ k y f. elim (get_append-cases s.refs k made y f) [
        | inl (here, same) ↦
            rw (here, same)
              (omega (
                arith,
                made_counts.0,
                (before (length s.refs)).0,
                total-set (strong_at (length s.refs)) s.handles h p p' e,
                total_nothing (strong_at (length s.refs)) s.handles (λ g q f'. (unknown g q f').0),
              ))
        | inr (lt, there) ↦ omega (
          arith,
          (else_counts k lt).0,
          (before k).0,
          c.strong k y there,
          total-set (strong_at k) s.handles h p p' e,
        )
      ];
      weak = λ k y f. elim (get_append-cases s.refs k made y f) [
        | inl (here, same) ↦
            rw (here, same)
              (omega (
                arith,
                made_counts.1,
                (before (length s.refs)).1,
                total-set (weak_at (length s.refs)) s.handles h p p' e,
                total_nothing (weak_at (length s.refs)) s.handles (λ g q f'. (unknown g q f').1),
              ))
        | inr (lt, there) ↦ omega (
          arith,
          (else_counts k lt).1,
          (before k).1,
          c.weak k y there,
          total-set (weak_at k) s.handles h p p' e,
        )
      ];
      freed = λ k y f. elim (get_append-cases s.refs k made y f) [
        | inl (here, same) ↦
            rw same (elim (Bool-cases p.weak) [ inl w ↦ rw w refl | inr w ↦ rw w refl ])
        | inr (lt, there) ↦ c.freed k y there
      ];
      alive = λ k y f nz. elim (get_append-cases s.refs k made y f) [
        | inl (here, same) ↦ rw same refl
        | inr (lt, there) ↦ c.alive k y there nz
      ];
      known = λ g k q f a.
          rw (length-append s.refs (made ∷ [])) (elim (get_set-cases s.handles h g p' q f) [
            | inl (here, same) ↦
                let at_new : some (length s.refs) ≡ some k =
                  ap (λ (z : Handle). z.ref) (sym same) ∙ a in
                let lt : k ≡ length s.refs = cc in omega (arith, lt)
            | inr (other, there) ↦ omega (arith, c.known g k q there a)
          ]);
    }

    acquire_object_at : acquire_object h s ≡ ok after
    unfolding acquire_object
    acquire_object_at = rw (e, with_handle) refl

    pub acquire_object-Keeps : Keeps (acquire_object h s)
    acquire_object-Keeps = rw acquire_object_at after-IsCounted
