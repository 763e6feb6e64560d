-- ===== src/Pointers/Release.antt =====
-- src/ptr.h: `release`, on both sides of `delete ptr`.
use ndppd.Base.{
  ℕ, suc, ◌-◌, ◌≡◌, refl, ap, ◌∙◌, sym, true, false, ◌&&◌, ◌||◌, none, some, ◌==◌, get_elem?, inl,
  inr, arith, Option-cases,
}
use ndppd.Pointers.{
  with_handle, with_ref, Ref, Handle, Heap, ok, settle, cleared, release_ref, release_start,
  finish_ref, release_end,
}
use ndppd.Pointers.Counts.{has, strong_at, weak_at, IsCounted}
use ndppd.Pointers.Keeps.{
  Fits, Fits-IsCounted, Keeps, Keeps-if, has_here, has_else, as_weak, as_strong, ref_of,
  counted_weak, counted_strong, not_freed,
}

module _ (s : Heap) (c : IsCounted s) where
  -- `release` by a weak handle, and the end of one that has deleted its object.
  dropped_weak :
      (h r : ℕ) (p : Handle) (x : Ref)
      → get_elem? s.handles h ≡ some p
      → p.ref ≡ some r
      → get_elem? s.refs r ≡ some x
      → (p.weak || p.releasing) ≡ true
      → Fits s h r p (cleared p) x (settle (record x { wc = x.wc - 1 }))
  unfolding settle
  dropped_weak h r p x e a b w =
      let counted = counted_weak s c h r p x e a b w in
      let before = λ (k : ℕ). as_weak k p w in
      let ref_at = λ (k : ℕ). ap (has k) a in
      record {
        at_handle = e;
        at_ref = b;
        strong_here = omega (arith, (before r).0, strong_nothing r);
        weak_here = omega (arith, (before r).1, ref_at r, has_here r, weak_nothing r);
        strong_else = λ k ne. (before k).0 ∙ sym (strong_nothing k);
        weak_else = λ k ne. (before k).1 ∙ ref_at k ∙ has_else k r ne ∙ sym (weak_nothing k);
        is_freed = refl;
        is_alive = λ nz. c.alive r x b nz;
        same_ref = λ k same. absurd cc;
      }
    where
      strong_nothing : (k : ℕ) → strong_at k (cleared p) ≡ 0
      strong_nothing k = ground arith

      weak_nothing : (k : ℕ) → weak_at k (cleared p) ≡ 0
      weak_nothing k = ground arith

  dropped_strong :
      (h r : ℕ) (p : Handle) (x : Ref)
      → get_elem? s.handles h ≡ some p
      → p.ref ≡ some r
      → get_elem? s.refs r ≡ some x
      → (p.weak || p.releasing) ≡ false
      → Fits s h r p (cleared p) x (settle (record x { sc = x.sc - 1 }))
  unfolding settle
  dropped_strong h r p x e a b w =
      let counted = counted_strong s c h r p x e a b w in
      let before = λ (k : ℕ). as_strong k p w in
      let ref_at = λ (k : ℕ). ap (has k) a in
      record {
        at_handle = e;
        at_ref = b;
        strong_here = omega (arith, (before r).0, ref_at r, has_here r, strong_nothing r);
        weak_here = omega (arith, (before r).1, weak_nothing r);
        strong_else = λ k ne. (before k).0 ∙ ref_at k ∙ has_else k r ne ∙ sym (strong_nothing k);
        weak_else = λ k ne. (before k).1 ∙ sym (weak_nothing k);
        is_freed = refl;
        is_alive = λ nz. c.alive r x b (ground arith);
        same_ref = λ k same. absurd cc;
      }
    where
      strong_nothing : (k : ℕ) → strong_at k (cleared p) ≡ 0
      strong_nothing k = ground arith

      weak_nothing : (k : ℕ) → weak_at k (cleared p) ≡ 0
      weak_nothing k = ground arith

  -- The last strong handle, which goes on to delete the object.
  deleting :
      (h r : ℕ) (p : Handle) (x : Ref)
      → get_elem? s.handles h ≡ some p
      → p.ref ≡ some r
      → get_elem? s.refs r ≡ some x
      → (p.weak || p.releasing) ≡ false
      → x.sc - 1 ≡ 0
      → Fits s h r p
          (record p { releasing = true })
          x
          (record x { sc = 0; alive = false; wc = suc x.wc })
  deleting h r p x e a b w last =
      let p' : Handle = record p { releasing = true } in
      let counted = counted_strong s c h r p x e a b w in
      let before = λ (k : ℕ). as_strong k p w in
      let after = λ (k : ℕ). as_weak k p' (ground arith) in
      let ref_at = λ (k : ℕ). ap (has k) a in
      record {
        at_handle = e;
        at_ref = b;
        strong_here = omega (arith, (before r).0, ref_at r, has_here r, (after r).0);
        weak_here = omega (arith, (before r).1, (after r).1, ref_at r, has_here r);
        strong_else = λ k ne. (before k).0 ∙ ref_at k ∙ has_else k r ne ∙ sym (after k).0;
        weak_else = λ k ne. (before k).1 ∙ sym ((after k).1 ∙ ref_at k ∙ has_else k r ne);
        is_freed = not_freed s c h r p x e a b ∙ ground arith;
        is_alive = λ nz. absurd cc;
        same_ref = λ k same. some_same (sym same ∙ a);
      }
    where
      some_same : {j k : ℕ} → some j ≡ some k → j ≡ k
      some_same same = cc

  release_start_at :
      (h r : ℕ) (p : Handle) (x : Ref)
      → get_elem? s.handles h ≡ some p
      → p.ref ≡ some r
      → get_elem? s.refs r ≡ some x
      → x.freed ≡ false
      → release_start h s ≡ release_ref h r p x s
  unfolding release_start
  release_start_at h r p x e a b there =
      rw (e, release_start, with_handle) (simp a (rw (b, with_ref) (simp there refl)))

  release_end_at :
      (h r : ℕ) (p : Handle) (x : Ref)
      → get_elem? s.handles h ≡ some p
      → p.ref ≡ some r
      → get_elem? s.refs r ≡ some x
      → x.freed ≡ false
      → release_end h s ≡ finish_ref h r p x s
  unfolding release_end
  release_end_at h r p x e a b there =
      rw (e, release_end, with_handle) (simp a (rw (b, with_ref) (simp there refl)))

  release_start_nothing :
      (h : ℕ) (p : Handle)
      → get_elem? s.handles h ≡ some p
      → p.ref ≡ none
      → release_start h s ≡ ok s
  unfolding release_start
  release_start_nothing h p e a = rw (e, release_start, with_handle) (rw a refl)

  release_end_nothing :
      (h : ℕ) (p : Handle) → get_elem? s.handles h ≡ some p → p.ref ≡ none → release_end h s ≡ ok s
  unfolding release_end
  release_end_nothing h p e a = rw (e, release_end, with_handle) (rw a refl)

  release_ref-Keeps :
      (h r : ℕ) (p : Handle) (x : Ref)
      → get_elem? s.handles h ≡ some p
      → p.ref ≡ some r
      → get_elem? s.refs r ≡ some x
      → p.releasing ≡ false
      → Keeps (release_ref h r p x s)
  unfolding release_ref
  release_ref-Keeps h r p x e a b idle =
      Keeps-if p.weak _ _
        (λ w.
          let one = counted_weak s c h r p x e a b (ground arith) in
          Keeps-if (x.wc == 0) _ _ (λ none_left. absurd (ground arith))
            (λ some_left.
              Fits-IsCounted s h r p _ x _ c (dropped_weak h r p x e a b (ground arith))))
        (λ w.
          let one = counted_strong s c h r p x e a b (ground arith) in
          Keeps-if (x.sc == 0) _ _ (λ none_left. absurd (ground arith))
            (λ some_left.
              Keeps-if ((x.sc - 1 == 0) && x.alive) _ _
                (λ last.
                  Fits-IsCounted s h r p _ x _ c
                    (deleting h r p x e a b (ground arith) (ground arith)))
                (λ more.
                  Fits-IsCounted s h r p _ x _ c (dropped_strong h r p x e a b (ground arith)))))

  pub release_start-Keeps :
      (h : ℕ) (p : Handle)
      → get_elem? s.handles h ≡ some p
      → p.releasing ≡ false
      → Keeps (release_start h s)
  release_start-Keeps h p e idle = elim (Option-cases p.ref) [
    | inl a ↦ rw (release_start_nothing h p e a) c
    | inr (r, a) ↦
        let (x, b) = ref_of s c h r p e a in
        rw (release_start_at h r p x e a b (not_freed s c h r p x e a b))
          (release_ref-Keeps h r p x e a b idle)
  ]

  finish_ref-Keeps :
      (h r : ℕ) (p : Handle) (x : Ref)
      → get_elem? s.handles h ≡ some p
      → p.ref ≡ some r
      → get_elem? s.refs r ≡ some x
      → p.releasing ≡ true
      → Keeps (finish_ref h r p x s)
  unfolding finish_ref
  finish_ref-Keeps h r p x e a b busy =
      Fits-IsCounted s h r p _ x _ c (dropped_weak h r p x e a b (ground arith))

  pub release_end-Keeps :
      (h : ℕ) (p : Handle)
      → get_elem? s.handles h ≡ some p
      → p.releasing ≡ true
      → Keeps (release_end h s)
  release_end-Keeps h p e busy = elim (Option-cases p.ref) [
    | inl a ↦ rw (release_end_nothing h p e a) c
    | inr (r, a) ↦
        let (x, b) = ref_of s c h r p e a in
        rw (release_end_at h r p x e a b (not_freed s c h r p x e a b))
          (finish_ref-Keeps h r p x e a b busy)
  ]
