-- ===== src/Iface/Map.antt =====
-- src/iface.cc: `iface::_map` in the order of its keys, and the descriptors for `poll`.
pub mod Walk
use ndppd.Base.{
  ℕ, suc, ◌+◌, ◌*◌, ◌<◌, ◌≡◌, refl, ap, Bool, true, List, [], ◌∷◌, Option, none, some, ltb, ◌==◌,
  if◌then◌else◌, get_elem?, arith, Bytes,
}
use ndppd.Base.Int.{ℤ}
use ndppd.Conf.{before}
use ndppd.World.{Iface}

-- A key, and the number of the interface.
abbrev pub Entry : Type 0
Entry = Bytes × ℕ

unfoldable pub insert_name : Bytes → ℕ → List Entry → List Entry
insert_name name n [] = (name, n) ∷ []
insert_name name n ((key, k) ∷ map) =
    if before name key then (name, n) ∷ (key, k) ∷ map else (key, k) ∷ insert_name name n map

-- The entries of the interfaces from number `n` on.
unfoldable pub map_from : ℕ → List Iface → List Entry
map_from n [] = []
map_from n (f ∷ fs) = insert_name f.name n (map_from (suc n) fs)

-- `_map`. Every interface of the table is alive, so `cleanup` has nothing to erase.
unfoldable pub iface_map : List Iface → List Entry
iface_map fs = map_from 0 fs

-- `_map.begin()`
unfoldable pub first : List Entry → Option ℕ
first [] = none
first ((key, k) ∷ map) = some k

-- The iterator at interface `n`, moved on: `none` is `_map.end()`.
unfoldable pub next : ℕ → List Entry → Option ℕ
next n [] = none
next n ((key, k) ∷ map) = if k == n then first map else next n map

-- The loop of `fixup_pollfds()`: two descriptors for each interface.
unfoldable pub fixup_pollfds : List Iface → List Entry → List ℤ
fixup_pollfds fs [] = []
fixup_pollfds fs ((key, k) ∷ map) = elim (get_elem? fs k) [
  | none ↦ fixup_pollfds fs map
  | some f ↦ f.ifd ∷ f.pfd ∷ fixup_pollfds fs map
]
