-- ===== src/Pointers/Uses.antt =====
-- src/ptr.h: any sequence of uses of pointers, from a program that has none.
use ndppd.Base.{
  ℕ, ◌≡◌, refl, ap, ◌∙◌, Bool, true, false, not, ◌||◌, [], Option, none, some, get_elem?, arith,
  subst,
}
use ndppd.Pointers.{
  Ref, Handle, Heap, Outcome, ok, construct, acquire_object, acquire_from, release_start,
  release_end, is_null,
}
use ndppd.Pointers.Counts.{IsCounted}
use ndppd.Pointers.Keeps.{Keeps, ref_of, counted_strong}
use ndppd.Pointers.Acquire.{acquire_from-Keeps}
use ndppd.Pointers.Fresh.{construct-IsCounted, acquire_object-Keeps}
use ndppd.Pointers.Release.{release_start-Keeps, release_end-Keeps}

-- What a program does with a pointer object, by the numbers of the handles.
pub data Use : Type 0 where
  declare : Bool → Use
  hold_object : ℕ → Use
  copy_from : ℕ → ℕ → Use
  start_release : ℕ → Use
  end_release : ℕ → Use

abbrev pub run_use : Use → Heap → Outcome
run_use (declare weak) s = ok (construct weak s)
run_use (hold_object h) s = acquire_object h s
run_use (copy_from h g) s = acquire_from h g s
run_use (start_release h) s = release_start h s
run_use (end_release h) s = release_end h s

-- A handle that is empty, one that is not at `delete ptr`, and one that is.
abbrev pub IsEmpty : ℕ → Heap → Type 0
IsEmpty h s =
    (p : Handle) × (get_elem? s.handles h ≡ some p) × (p.ref ≡ none) × (p.releasing ≡ false)

abbrev pub IsThere : ℕ → Bool → Heap → Type 0
IsThere h busy s = (p : Handle) × (get_elem? s.handles h ≡ some p) × (p.releasing ≡ busy)

-- What C++ and the callers see to: `acquire` is on a handle that has been released, and what is copied
-- or released is there.
abbrev pub IsAllowed : Use → Heap → Type 0
IsAllowed (declare weak) s = Unit {0}
IsAllowed (hold_object h) s = IsEmpty h s
IsAllowed (copy_from h g) s = IsEmpty h s × IsThere g false s
IsAllowed (start_release h) s = IsThere h false s
IsAllowed (end_release h) s = IsThere h true s

abbrev pub no_pointers : Heap
no_pointers = record { refs = []; handles = [] }

pub data Reaches : Heap → Type 0 where
  at_start : Reaches no_pointers
  next : {s s' : Heap} → Reaches s → (u : Use) → IsAllowed u s → run_use u s ≡ ok s' → Reaches s'

use-Keeps : (s : Heap) → IsCounted s → (u : Use) → IsAllowed u s → Keeps (run_use u s)
use-Keeps s c (declare weak) allowed = construct-IsCounted s c weak
use-Keeps s c (hold_object h) (p, e, empty, idle) = acquire_object-Keeps s c h p e empty idle
use-Keeps s c (copy_from h g) ((p, e, empty, idle), (q, f, there)) =
    acquire_from-Keeps s c h g p q e empty idle f
use-Keeps s c (start_release h) (p, e, idle) = release_start-Keeps s c h p e idle
use-Keeps s c (end_release h) (p, e, busy) = release_end-Keeps s c h p e busy

no_pointers-IsCounted : IsCounted no_pointers
no_pointers-IsCounted = record {
  strong = λ r x e. absurd cc;
  weak = λ r x e. absurd cc;
  freed = λ r x e. absurd cc;
  alive = λ r x e nz. absurd cc;
  known = λ h r p e a. absurd cc;
}

Reaches-IsCounted : (s : Heap) → Reaches s → IsCounted s
Reaches-IsCounted s at_start = no_pointers-IsCounted
Reaches-IsCounted s' (next {s = s} before u allowed e) =
    subst Keeps e (use-Keeps s (Reaches-IsCounted s before) u allowed)

-- However a program uses pointers, from one that has none: the strong and the weak count of
-- every `ptr_ref` are the numbers of the handles that have it, it is deleted exactly when both
-- are 0, and the next use fails no assertion, uses nothing that has been deleted, and keeps
-- this. A use makes a handle, gives an empty one an object or a copy of another, or releases
-- one; an object is deleted between the two halves of a release, and a handle whose object is
-- being deleted counts as a weak one.
pub reached-Keeps :
    (s : Heap) → Reaches s → (u : Use) → IsAllowed u s → IsCounted s × Keeps (run_use u s)
reached-Keeps s reached u allowed =
    let c = Reaches-IsCounted s reached in (c, use-Keeps s c u allowed)

null_test :
    (s : Heap) (o : Option ℕ) (r : ℕ) (x : Ref)
    → o ≡ some r
    → get_elem? s.refs r ≡ some x
    → (elim o [
      | none ↦ true
      | some k ↦ elim (get_elem? s.refs k) [ none ↦ true | some y ↦ not y.alive ]
    ])
      ≡ not x.alive
null_test s o r x a b = rw a (simp b refl)

-- `is_null` of a handle whose `ptr_ref` is there.
is_null_at :
    (s : Heap) (p : Handle) (r : ℕ) (x : Ref)
    → p.ref ≡ some r
    → get_elem? s.refs r ≡ some x
    → is_null p s ≡ not x.alive
unfolding is_null
is_null_at s p r x a b = null_test s p.ref r x a b

-- However a program uses pointers, a handle, strong or weak, is not null while a strong handle
-- that is not deleting its object has the same `ptr_ref`.
pub strong-not_null :
    (s : Heap) (h r : ℕ) (p q : Handle)
    → Reaches s
    → get_elem? s.handles h ≡ some p
    → p.ref ≡ some r
    → (p.weak || p.releasing) ≡ false
    → q.ref ≡ some r
    → is_null q s ≡ false
strong-not_null s h r p q reached e a strong a' =
    let c = Reaches-IsCounted s reached in
    let (x, b) = ref_of s c h r p e a in
    let one = counted_strong s c h r p x e a b strong in
    is_null_at s q r x a' b ∙ ap not (c.alive r x b (ground arith))
