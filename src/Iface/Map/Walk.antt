-- ===== src/Iface/Map/Walk.antt =====
-- src/iface.cc: an iterator of `iface::_map` meets every interface once.
use ndppd.Base.{
  get_below, ℕ, suc, ◌+◌, ◌*◌, ◌≤◌, ◌<◌, ◌≡◌, ◌≢◌, refl, sym, false, List, [], ◌∷◌, ◌++◌, ◌==◌, inl,
  inr, length, arith, Bytes, Bool-cases,
}
use ndppd.Conf.{before}
use ndppd.World.{Iface}
use ndppd.Iface.Map.{Entry, insert_name, map_from, iface_map, first, next, fixup_pollfds}

-- Numbers from `lo` up to `hi`.
abbrev pub Within : ℕ → ℕ → List Entry → Type 0
Within lo hi [] = Unit {0}
Within lo hi ((key, k) ∷ map) = (lo ≤ k) × (k < hi) × Within lo hi map

abbrev Lacks : ℕ → List Entry → Type 0
Lacks n [] = Unit {0}
Lacks n ((key, k) ∷ map) = (k ≢ n) × Lacks n map

-- No number is there twice.
abbrev pub Once : List Entry → Type 0
Once [] = Unit {0}
Once ((key, k) ∷ map) = Lacks k map × Once map

Lacks-Within : (n lo hi : ℕ) (map : List Entry) → n < lo → Within lo hi map → Lacks n map
Lacks-Within n lo hi [] lt h = tt
Lacks-Within n lo hi ((key, k) ∷ map) lt h =
    ((λ e. absurd (omega (arith, h.0))), Lacks-Within n lo hi map lt h.2)

Within-weaken : (lo hi : ℕ) (map : List Entry) → Within (suc lo) hi map → Within lo hi map
Within-weaken lo hi [] h = tt
Within-weaken lo hi ((key, k) ∷ map) h = (omega (arith, h.0), h.1, Within-weaken lo hi map h.2)

module _ (name : Bytes) (n : ℕ) where
  Within-insert :
      (lo hi : ℕ) (map : List Entry)
      → lo ≤ n
      → n < hi
      → Within lo hi map
      → Within lo hi (insert_name name n map)
  unfolding insert_name
  Within-insert lo hi [] le lt h = (le, lt, tt)
  Within-insert lo hi ((key, k) ∷ map) le lt h = elim (Bool-cases (before name key)) [
    | inl e ↦ rw e (le, lt, h)
    | inr e ↦ rw e (h.0, h.1, Within-insert lo hi map le lt h.2)
  ]

  Lacks-insert : (j : ℕ) (map : List Entry) → n ≢ j → Lacks j map → Lacks j (insert_name name n map)
  unfolding insert_name
  Lacks-insert j [] ne h = (ne, tt)
  Lacks-insert j ((key, k) ∷ map) ne h = elim (Bool-cases (before name key)) [
    | inl e ↦ rw e (ne, h)
    | inr e ↦ rw e (h.0, Lacks-insert j map ne h.1)
  ]

  Once-insert : (map : List Entry) → Lacks n map → Once map → Once (insert_name name n map)
  unfolding insert_name
  Once-insert [] l h = (tt, tt)
  Once-insert ((key, k) ∷ map) l h = elim (Bool-cases (before name key)) [
    | inl e ↦ rw e (l, h)
    | inr e ↦ rw e (Lacks-insert k map (λ same. l.0 (sym same)) h.0, Once-insert map l.1 h.1)
  ]

map_from-Within : (n hi : ℕ) (fs : List Iface) → n + length fs ≡ hi → Within n hi (map_from n fs)
unfolding map_from
map_from-Within n hi [] e = tt
map_from-Within n hi (f ∷ fs) e =
    Within-insert f.name n n hi (map_from (suc n) fs) (omega arith) (omega arith)
      (Within-weaken n hi (map_from (suc n) fs) (map_from-Within (suc n) hi fs (omega arith)))

map_from-Once : (n : ℕ) (fs : List Iface) → Once (map_from n fs)
unfolding map_from
map_from-Once n [] = tt
map_from-Once n (f ∷ fs) =
    Once-insert f.name n (map_from (suc n) fs)
      (Lacks-Within n (suc n) (suc n + length fs) (map_from (suc n) fs) (omega arith)
        (map_from-Within (suc n) (suc n + length fs) fs refl))
      (map_from-Once (suc n) fs)

Lacks-middle :
    (j : ℕ) (pre post : List Entry) (key : Bytes) (k : ℕ)
    → Lacks j (pre ++ ((key, k) ∷ post))
    → k ≢ j
Lacks-middle j [] post key k h = h.0
Lacks-middle j ((key', k') ∷ pre) post key k h = Lacks-middle j pre post key k h.1

pub Within-at :
    (lo hi : ℕ) (pre post : List Entry) (key : Bytes) (k : ℕ)
    → Within lo hi (pre ++ ((key, k) ∷ post))
    → k < hi
Within-at lo hi [] post key k h = h.1
Within-at lo hi ((key', k') ∷ pre) post key k h = Within-at lo hi pre post key k h.2

-- The iterator at an entry moves on to the one behind it.
pub next-Once :
    (pre post : List Entry) (key : Bytes) (k : ℕ)
    → Once (pre ++ ((key, k) ∷ post))
    → next k (pre ++ ((key, k) ∷ post)) ≡ first post
unfolding next
next-Once [] post key k h = ground arith
next-Once ((key', k') ∷ pre) post key k h =
    let other : k ≢ k' = Lacks-middle k' pre post key k h.0 in
    let differs : (k' == k) ≡ false = ground arith in rw differs (next-Once pre post key k h.1)

-- Two descriptors for each entry.
length-fixup_pollfds :
    (fs : List Iface) (map : List Entry)
    → Within 0 (length fs) map
    → length (fixup_pollfds fs map) ≡ length map * 2
unfolding fixup_pollfds
length-fixup_pollfds fs [] h = refl
length-fixup_pollfds fs ((key, k) ∷ map) h =
    let (f, e) = get_below fs k h.1 in
    let rest = length-fixup_pollfds fs map h.2 in rw (e, fixup_pollfds) (omega arith)

module _ (fs : List Iface) where
  pub iface_map-Within : Within 0 (length fs) (iface_map fs)
  unfolding iface_map
  iface_map-Within = map_from-Within 0 (length fs) fs (omega arith)

  pub iface_map-Once : Once (iface_map fs)
  unfolding iface_map
  iface_map-Once = map_from-Once 0 fs

  pub length-pollfds : length (fixup_pollfds fs (iface_map fs)) ≡ length (iface_map fs) * 2
  length-pollfds = length-fixup_pollfds fs (iface_map fs) iface_map-Within
