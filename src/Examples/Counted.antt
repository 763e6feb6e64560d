-- ===== src/Examples/Counted.antt =====
-- src/ptr.h: a strong and a weak handle on one object, and its deletion.
use ndppd.Base.{◌≡◌, refl, true, false, [], ◌∷◌, some}
use ndppd.Pointers.{
  Ref, Handle, Heap, ok, construct, acquire_object, acquire, acquire_from, release_ref,
  release_start, write_handle, write_ref, is_null,
}
use ndppd.Pointers.Counts.{IsCounted}
use ndppd.Pointers.Keeps.{Keeps}
use ndppd.Pointers.Uses.{
  declare, hold_object, copy_from, start_release, run_use, Reaches, at_start, next, reached-Keeps,
  strong-not_null,
}

abbrev object : Ref
object = record { alive = true; sc = 1; wc = 1; freed = false }

abbrev owner : Handle
owner = record { weak = false; ref = some 0; releasing = false }

abbrev observer : Handle
observer = record { weak = true; ref = some 0; releasing = false }

abbrev shared : Heap
shared = record { refs = object ∷ []; handles = owner ∷ observer ∷ [] }

shared-Reaches : Reaches shared
unfolding construct acquire_object acquire_from acquire write_handle write_ref
shared-Reaches =
    next
      (next (next (next at_start (declare false) tt refl) (declare true) tt refl) (hold_object 0)
        (_, refl, refl, refl) refl)
      (copy_from 1 0) ((_, refl, refl, refl), (_, refl, refl)) refl

reached-Keeps_example : IsCounted shared × Keeps (run_use (start_release 0) shared)
reached-Keeps_example = reached-Keeps shared shared-Reaches (start_release 0) (owner, refl, refl)

strong-not_null_example : is_null observer shared ≡ false
strong-not_null_example =
    strong-not_null shared 0 0 owner observer shared-Reaches refl refl refl refl

-- The observer outlives the object.
deleted_test :
    release_start 0 shared
    ≡ ok record {
      refs = record { alive = false; sc = 0; wc = 2; freed = false } ∷ [];
      handles = record { weak = false; ref = some 0; releasing = true } ∷ observer ∷ [];
    }
unfolding release_start release_ref write_handle write_ref
deleted_test = refl
