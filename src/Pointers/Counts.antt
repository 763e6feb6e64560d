-- ===== src/Pointers/Counts.antt =====
-- src/ptr.h: the counts of a `ptr_ref` against the handles that have it.
use ndppd.Base.{
  ℕ, zero, suc, ◌+◌, ◌≤◌, ◌<◌, ◌≡◌, true, false, ◌&&◌, ◌||◌, List, [], ◌∷◌, ◌++◌, Option, none,
  some, ◌==◌, if◌then◌else◌, length, get_elem?, set, arith,
}
use ndppd.Pointers.{Ref, Handle, Heap}

-- One, where the handle has this `ptr_ref`.
abbrev pub has : ℕ → Option ℕ → ℕ
has r none = 0
has r (some k) = if k == r then 1 else 0

-- A handle whose object is being deleted counts as a weak one.
abbrev pub strong_at : ℕ → Handle → ℕ
strong_at r p = if p.weak || p.releasing then 0 else has r p.ref

abbrev pub weak_at : ℕ → Handle → ℕ
weak_at r p = if p.weak || p.releasing then has r p.ref else 0

abbrev pub total : (Handle → ℕ) → List Handle → ℕ
total f [] = 0
total f (p ∷ ps) = f p + total f ps

-- Every count is the number of handles, a `ptr_ref` is deleted exactly when both are 0, and an
-- object is there while it has a strong handle.
pub record IsCounted (s : Heap) : Type 0 where
  pub strong :
      (r : ℕ) (x : Ref) → get_elem? s.refs r ≡ some x → x.sc ≡ total (strong_at r) s.handles
  pub weak : (r : ℕ) (x : Ref) → get_elem? s.refs r ≡ some x → x.wc ≡ total (weak_at r) s.handles
  pub freed :
      (r : ℕ) (x : Ref) → get_elem? s.refs r ≡ some x → x.freed ≡ ((x.sc == 0) && (x.wc == 0))
  pub alive : (r : ℕ) (x : Ref) → get_elem? s.refs r ≡ some x → (x.sc == 0) ≡ false → x.alive ≡ true
  pub known :
      (h r : ℕ) (p : Handle) → get_elem? s.handles h ≡ some p → p.ref ≡ some r → r < length s.refs

pub total-set :
    (f : Handle → ℕ) (ps : List Handle) (h : ℕ) (p p' : Handle)
    → get_elem? ps h ≡ some p
    → total f (set ps h p') + f p ≡ total f ps + f p'
total-set f [] h p p' e = absurd cc
total-set f (q ∷ ps) zero p p' e = let same : q ≡ p = ground arith in rw same (omega arith)
total-set f (q ∷ ps) (suc h) p p' e = omega (arith, total-set f ps h p p' e)

pub total-get :
    (f : Handle → ℕ) (ps : List Handle) (h : ℕ) (p : Handle)
    → get_elem? ps h ≡ some p
    → f p ≤ total f ps
total-get f [] h p e = absurd cc
total-get f (q ∷ ps) zero p e = let same : q ≡ p = ground arith in rw same (omega arith)
total-get f (q ∷ ps) (suc h) p e = omega (arith, total-get f ps h p e)

pub total-append :
    (f : Handle → ℕ) (ps qs : List Handle) → total f (ps ++ qs) ≡ total f ps + total f qs
total-append f [] qs = omega arith
total-append f (p ∷ ps) qs = omega (arith, total-append f ps qs)
