-- ===== src/Address/Kinds.antt =====
-- src/address.cc: how the kinds of addresses exclude one another.
use ndppd.Base.{ℕ, zero, suc, ◌≡◌, refl, true, false, List, [], ◌∷◌, take, drop, arith}
use ndppd.Address.{Address, word, nonzero, all_bytes, is_empty, is_unicast, is_multicast}

all_bytes-drop : (n : ℕ) (xs : List ℕ) → all_bytes 0 xs ≡ true → all_bytes 0 (drop n xs) ≡ true
all_bytes-drop zero xs h = h
all_bytes-drop (suc n) [] h = refl
all_bytes-drop (suc n) (x ∷ xs) h = all_bytes-drop n xs (ground arith)

nonzero-take : (n : ℕ) (xs : List ℕ) → all_bytes 0 xs ≡ true → nonzero (take n xs) ≡ false
unfolding nonzero
nonzero-take zero xs h = refl
nonzero-take (suc n) [] h = refl
nonzero-take (suc n) (x ∷ xs) h = ground (arith, nonzero-take n xs)

nonzero-word : (i : ℕ) (xs : List ℕ) → all_bytes 0 xs ≡ true → nonzero (word xs i) ≡ false
unfolding word
nonzero-word i xs h = nonzero-take 4 _ (all_bytes-drop _ xs h)

-- The unset address `::` is no unicast address.
pub is_unicast-is_empty : (a : Address) → is_unicast a ≡ true → is_empty a ≡ false
unfolding is_unicast is_empty
is_unicast-is_empty a h = ground (arith, nonzero-word 2 a.addr, nonzero-word 3 a.addr)

-- No address is both.
pub is_unicast-is_multicast : (a : Address) → is_unicast a ≡ true → is_multicast a ≡ false
unfolding is_unicast is_multicast
is_unicast-is_multicast a h = ground arith
