-- ===== src/Pointers/Acquire.antt =====
-- src/ptr.h: `acquire` and the operators that call it.
use ndppd.Base.{
  ℕ, suc, ◌≡◌, refl, ap, ◌∙◌, sym, true, false, ◌||◌, none, some, ◌==◌, if◌then◌else◌, get_elem?,
  inl, inr, arith, Option-cases,
}
use ndppd.Pointers.{
  with_handle, with_ref, Ref, Handle, Heap, ok, invalid, write_ref, write_handle, acquire,
  acquire_from,
}
use ndppd.Pointers.Counts.{has, IsCounted}
use ndppd.Pointers.Keeps.{
  Fits, Fits-IsCounted, Keeps, Keeps-if, has_here, has_else, as_weak, as_strong, ref_of, not_freed,
}

module _ (s : Heap) (c : IsCounted s) where
  -- An empty handle takes a `ptr_ref` that another one has.
  acquire_at :
      (h r : ℕ) (p : Handle) (x : Ref)
      → get_elem? s.handles h ≡ some p
      → get_elem? s.refs r ≡ some x
      → x.freed ≡ false
      → acquire h (some r) s ≡ (
          if x.sc == 0
          then invalid
          else if p.weak
          then ok (
              write_handle h
                (record p { ref = some r })
                (write_ref r (record x { wc = suc x.wc }) s))
          else ok (
              write_handle h
                (record p { ref = some r })
                (write_ref r (record x { sc = suc x.sc }) s)))
  unfolding acquire
  acquire_at h r p x e b there = rw (e, acquire, with_handle) (rw (b, with_ref) (rw there refl))

  taken_weak :
      (h r : ℕ) (p : Handle) (x : Ref)
      → get_elem? s.handles h ≡ some p
      → get_elem? s.refs r ≡ some x
      → p.ref ≡ none
      → p.weak ≡ true
      → x.freed ≡ false
      → (x.sc == 0) ≡ false
      → Fits s h r p (record p { ref = some r }) x (record x { wc = suc x.wc })
  taken_weak h r p x e b empty w there nz =
      let p' : Handle = record p { ref = some r } in
      let before = λ (k : ℕ). as_weak k p (ground arith) in
      let after = λ (k : ℕ). as_weak k p' (ground arith) in
      let nothing = λ (k : ℕ). ap (has k) empty in
      record {
        at_handle = e;
        at_ref = b;
        strong_here = omega (arith, (before r).0, (after r).0);
        weak_here = omega (arith, (before r).1, nothing r, (after r).1, has_here r);
        strong_else = λ k ne. (before k).0 ∙ sym (after k).0;
        weak_else = λ k ne. (before k).1 ∙ nothing k ∙ sym ((after k).1 ∙ has_else k r ne);
        is_freed = there ∙ ground arith;
        is_alive = λ nz'. c.alive r x b nz';
        same_ref = λ k same. ground arith;
      }

  taken_strong :
      (h r : ℕ) (p : Handle) (x : Ref)
      → get_elem? s.handles h ≡ some p
      → get_elem? s.refs r ≡ some x
      → p.ref ≡ none
      → (p.weak || p.releasing) ≡ false
      → x.freed ≡ false
      → (x.sc == 0) ≡ false
      → Fits s h r p (record p { ref = some r }) x (record x { sc = suc x.sc })
  taken_strong h r p x e b empty w there nz =
      let p' : Handle = record p { ref = some r } in
      let before = λ (k : ℕ). as_strong k p w in
      let after = λ (k : ℕ). as_strong k p' w in
      let nothing = λ (k : ℕ). ap (has k) empty in
      record {
        at_handle = e;
        at_ref = b;
        strong_here = omega (arith, (before r).0, nothing r, (after r).0, has_here r);
        weak_here = omega (arith, (before r).1, (after r).1);
        strong_else = λ k ne. (before k).0 ∙ nothing k ∙ sym ((after k).0 ∙ has_else k r ne);
        weak_else = λ k ne. (before k).1 ∙ sym (after k).1;
        is_freed = there ∙ ground arith;
        is_alive = λ nz'. c.alive r x b nz;
        same_ref = λ k same. ground arith;
      }

  -- `operator=` on an empty handle, from one that is there.
  acquire-Keeps :
      (h r : ℕ) (p : Handle) (x : Ref)
      → get_elem? s.handles h ≡ some p
      → get_elem? s.refs r ≡ some x
      → p.ref ≡ none
      → p.releasing ≡ false
      → x.freed ≡ false
      → Keeps (acquire h (some r) s)
  acquire-Keeps h r p x e b empty idle there = rw (acquire_at h r p x e b there) (
      Keeps-if (x.sc == 0) _ _ (λ none_left. tt)
        (λ some_left.
          Keeps-if p.weak _ _
            (λ w. Fits-IsCounted s h r p _ x _ c (taken_weak h r p x e b empty w there some_left))
            (λ w.
              Fits-IsCounted s h r p _ x _ c
                (taken_strong h r p x e b empty (ground arith) there some_left))))

  acquire_from_at :
      (h g : ℕ) (q : Handle)
      → get_elem? s.handles g ≡ some q
      → acquire_from h g s ≡ acquire h q.ref s
  unfolding acquire_from
  acquire_from_at h g q e = rw (e, with_handle) refl

  pub acquire_from-Keeps :
      (h g : ℕ) (p q : Handle)
      → get_elem? s.handles h ≡ some p
      → p.ref ≡ none
      → p.releasing ≡ false
      → get_elem? s.handles g ≡ some q
      → Keeps (acquire_from h g s)
  unfolding acquire
  acquire_from-Keeps h g p q e empty idle f =
      rw (acquire_from_at h g q f) (elim (Option-cases q.ref) [
        | inl a ↦ rw a c
        | inr (r, a) ↦
            let (x, b) = ref_of s c g r q f a in
            rw a (acquire-Keeps h r p x e b empty idle (not_freed s c g r q x f a b))
      ])
