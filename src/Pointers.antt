-- ===== src/Pointers.antt =====
-- src/ptr.h: reference counts. A `ptr_ref` has a number, and so has a pointer object, which is called a
-- handle. The destructor of an object runs between `release_start` and `release_end` of the handle that
-- is the last strong one: what it does to other handles, its own members included, are operations of
-- their own in between.
pub mod Counts
pub mod Keeps
pub mod Acquire
pub mod Fresh
pub mod Release
pub mod Uses
use ndppd.Base.{
  ℕ, suc, ◌+◌, ◌-◌, Bool, true, false, not, ◌&&◌, ◌||◌, List, [], ◌∷◌, ◌++◌, Option, none, some,
  ◌==◌, if◌then◌else◌, length, get_elem?, set,
}

pub record Ref : Type 0 where
  -- whether `ptr` is still set
  pub alive : Bool
  pub sc : ℕ
  pub wc : ℕ
  -- whether the `ptr_ref` itself has been deleted
  pub freed : Bool

pub record Handle : Type 0 where
  pub weak : Bool
  pub ref : Option ℕ
  -- whether its call of `release` is at `delete ptr`
  pub releasing : Bool

pub record Heap : Type 0 where
  pub refs : List Ref
  pub handles : List Handle

pub data Outcome : Type 0 where
  ok : Heap → Outcome
  -- throw new invalid_pointer
  invalid : Outcome
  -- an `assert` fails
  failed : Outcome
  -- a `ptr_ref` is used that has been deleted, or a handle that is not there
  dangling : Outcome

unfoldable pub write_ref : ℕ → Ref → Heap → Heap
write_ref r x s = record s { refs = set s.refs r x }

unfoldable pub write_handle : ℕ → Handle → Heap → Heap
write_handle h p s = record s { handles = set s.handles h p }

-- `if (!_ref->sc && !_ref->wc) delete _ref;`
unfoldable pub settle : Ref → Ref
settle x = record x { freed = (x.sc == 0) && (x.wc == 0) }

-- A handle by its number, and a `ptr_ref`.
abbrev pub with_handle : ℕ → Heap → (Handle → Outcome) → Outcome
with_handle h s f = elim (get_elem? s.handles h) [ none ↦ dangling | some p ↦ f p ]

abbrev pub with_ref : ℕ → Heap → (Ref → Outcome) → Outcome
with_ref r s f = elim (get_elem? s.refs r) [
  | none ↦ dangling
  | some x ↦ if x.freed then dangling else f x
]

-- `_ref = 0`
abbrev pub cleared : Handle → Handle
cleared p = record p { ref = none; releasing = false }

-- `ptr(bool weak)`
unfoldable pub construct : Bool → Heap → Heap
construct weak s = record s {
  handles = s.handles ++ record { weak = weak; ref = none; releasing = false } ∷ [];
}

-- `acquire(void*)` with an object, by a handle that has no `_ref`.
unfoldable pub acquire_object : ℕ → Heap → Outcome
acquire_object h s = with_handle h s (λ p.
    let x : Ref = record {
      alive = true;
      sc = if p.weak then 0 else 1;
      wc = if p.weak then 1 else 0;
      freed = false;
    } in
    ok (
      write_handle h (record p { ref = some (length s.refs) })
        (record s { refs = s.refs ++ x ∷ [] })))

-- `acquire(ptr_ref*)` by a handle that has no `_ref`, behind the call of `release`.
unfoldable pub acquire : ℕ → Option ℕ → Heap → Outcome
acquire h none s = ok s
acquire h (some r) s = with_handle h s (λ p. with_ref r s (λ x.
    if x.sc == 0
    then invalid
    else if p.weak
    then ok
        (write_handle h (record p { ref = some r }) (write_ref r (record x { wc = suc x.wc }) s))
    else ok
        (write_handle h (record p { ref = some r }) (write_ref r (record x { sc = suc x.sc }) s))))

-- `operator=` and the constructors that copy, from handle `g`.
unfoldable pub acquire_from : ℕ → ℕ → Heap → Outcome
acquire_from h g s = with_handle g s (λ q. acquire h q.ref s)

-- `release()` on a handle's `ptr_ref`, as far as the end, or as far as `delete ptr`.
unfoldable pub release_ref : ℕ → ℕ → Handle → Ref → Heap → Outcome
release_ref h r p x s =
    if p.weak
    then (if x.wc == 0
        then failed
        else ok (write_handle h (cleared p) (write_ref r (settle (record x { wc = x.wc - 1 })) s)))
    else if x.sc == 0
    then failed
    else if (x.sc - 1 == 0) && x.alive
    then ok (
        write_handle h (record p { releasing = true })
          (write_ref r (record x { sc = 0; alive = false; wc = suc x.wc }) s))
    else ok (write_handle h (cleared p) (write_ref r (settle (record x { sc = x.sc - 1 })) s))

unfoldable pub release_start : ℕ → Heap → Outcome
release_start h s =
    with_handle h s
      (λ p. elim p.ref [ none ↦ ok s | some r ↦ with_ref r s (λ x. release_ref h r p x s) ])

-- The same behind `delete ptr`.
unfoldable pub finish_ref : ℕ → ℕ → Handle → Ref → Heap → Outcome
finish_ref h r p x s =
    ok (write_handle h (cleared p) (write_ref r (settle (record x { wc = x.wc - 1 })) s))

unfoldable pub release_end : ℕ → Heap → Outcome
release_end h s =
    with_handle h s
      (λ p. elim p.ref [ none ↦ ok s | some r ↦ with_ref r s (λ x. finish_ref h r p x s) ])

-- `is_null()`
unfoldable pub is_null : Handle → Heap → Bool
is_null p s = elim p.ref [
  | none ↦ true
  | some r ↦ elim (get_elem? s.refs r) [ none ↦ true | some x ↦ not x.alive ]
]
