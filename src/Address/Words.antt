-- ===== src/Address/Words.antt =====
-- src/address.cc: `operator==` on words, and byte by byte.
use Prim.Native.Nat.{bit_and, bit_or, bit_xor}
use ndppd.Base.{
  ℕ, zero, suc, ◌+◌, ◌*◌, ◌≤◌, ◌<◌, ◌≡◌, refl, sym, ap, ◌∙◌, Bool, true, not, ◌&&◌, ◌||◌, List, [],
  ◌∷◌, ◌==◌, length, length-take, length-drop, take, drop, arith,
}
use native.Mathlib.Nat.{zero-add, suc-add}
use ndppd.Base.Bits.{bit_or-zero_iff}
use ndppd.Address.{Address, word, zip_with, nonzero, masked_word, differing, equal}

-- Every byte of `xs` agrees with that of `ys` under that of `ms`.
abbrev pub agree : List ℕ → List ℕ → List ℕ → Bool
agree (x ∷ xs) (y ∷ ys) (m ∷ ms) = (bit_and (bit_xor x y) m == 0) && agree xs ys ms
agree _ _ _ = true

agree-nil : (xs ms : List ℕ) → agree xs [] ms ≡ true
agree-nil [] ms = refl
agree-nil (x ∷ xs) ms = refl

agree_nil_mask : (xs ys : List ℕ) → agree xs ys [] ≡ true
agree_nil_mask [] ys = refl
agree_nil_mask (x ∷ xs) [] = refl
agree_nil_mask (x ∷ xs) (y ∷ ys) = refl

agree_split :
    (n : ℕ) (xs ys ms : List ℕ)
    → agree xs ys ms
      ≡ (agree (take n xs) (take n ys) (take n ms) && agree (drop n xs) (drop n ys) (drop n ms))
agree_split zero xs ys ms = refl
agree_split (suc n) (x ∷ xs) (y ∷ ys) (m ∷ ms) = ground (arith, agree_split n xs ys ms)
agree_split (suc n) [] _ _ = refl
agree_split (suc n) (x ∷ xs) [] ms = sym (agree-nil (drop n xs) (drop (suc n) ms))
agree_split (suc n) (x ∷ xs) (y ∷ ys) [] = sym (agree_nil_mask (drop n xs) (drop n ys))

masked : List ℕ → List ℕ → List ℕ → List ℕ
unfolding zip_with
masked xs ys ms = zip_with bit_and (zip_with bit_xor xs ys) ms

nonzero-masked : (xs ys ms : List ℕ) → nonzero (masked xs ys ms) ≡ not (agree xs ys ms)
unfolding nonzero masked
nonzero-masked (x ∷ xs) (y ∷ ys) (m ∷ ms) = ground (arith, nonzero-masked xs ys ms)
nonzero-masked [] _ _ = refl
nonzero-masked (x ∷ xs) [] _ = refl
nonzero-masked (x ∷ xs) (y ∷ ys) [] = refl

length-zip_with :
    (f : ℕ → ℕ → ℕ) (n : ℕ) (xs ys : List ℕ)
    → length xs ≡ n
    → length ys ≡ n
    → length (zip_with f xs ys) ≡ n
unfolding zip_with
length-zip_with f n [] ys p q = p
length-zip_with f n (x ∷ xs) [] p q = q
length-zip_with f zero (x ∷ xs) (y ∷ ys) p q = absurd (omega arith)
length-zip_with f (suc n) (x ∷ xs) (y ∷ ys) p q =
    omega (arith, length-zip_with f n xs ys (omega arith) (omega arith))

nonzero-zip_with_or :
    (xs ys : List ℕ)
    → length xs ≡ length ys
    → nonzero (zip_with bit_or xs ys) ≡ (nonzero xs || nonzero ys)
unfolding nonzero zip_with
nonzero-zip_with_or [] [] e = refl
nonzero-zip_with_or [] (y ∷ ys) e = absurd (omega arith)
nonzero-zip_with_or (x ∷ xs) [] e = absurd (omega arith)
nonzero-zip_with_or (x ∷ xs) (y ∷ ys) e =
    ground (arith, bit_or-zero_iff x y, nonzero-zip_with_or xs ys (omega arith))

drop-drop : (m n : ℕ) (xs : List ℕ) → drop n (drop m xs) ≡ drop (m + n) xs
drop-drop zero n xs = rw zero-add
drop-drop (suc m) n (x ∷ xs) = rw suc-add (drop-drop m n xs)
drop-drop (suc m) zero [] = rw suc-add
drop-drop (suc m) (suc n) [] = rw suc-add

drop_all : (n : ℕ) (xs : List ℕ) → length xs ≤ n → drop n xs ≡ []
drop_all zero [] h = refl
drop_all zero (x ∷ xs) h = absurd (omega arith)
drop_all (suc n) [] h = refl
drop_all (suc n) (x ∷ xs) h = drop_all n xs (omega arith)

agree_word : Address → Address → ℕ → Bool
agree_word a b i = agree (word a.addr i) (word b.addr i) (word a.mask i)

-- Agreement from byte `k` on.
agree_from : Address → Address → ℕ → Bool
agree_from a b k = agree (drop k a.addr) (drop k b.addr) (drop k a.mask)

agree_from_word :
    (a b : Address) (i : ℕ)
    → agree_from a b (4 * i) ≡ (agree_word a b i && agree_from a b (4 * i + 4))
unfolding agree_from agree_word word
agree_from_word a b i =
    agree_split 4 (drop (4 * i) a.addr) (drop (4 * i) b.addr) (drop (4 * i) a.mask)
    ∙ rw (drop-drop (4 * i) 4 a.addr, drop-drop (4 * i) 4 b.addr, drop-drop (4 * i) 4 a.mask)

agree_from_end : (a b : Address) → length a.addr ≡ 16 → agree_from a b 16 ≡ true
unfolding agree_from
agree_from_end a b h = rw (drop_all 16 a.addr (omega arith))

-- The four words of two addresses.
agree_words :
    (a b : Address)
    → length a.addr ≡ 16
    → agree a.addr b.addr a.mask
      ≡ (agree_word a b 0 && (agree_word a b 1 && (agree_word a b 2 && agree_word a b 3)))
unfolding agree_from
agree_words a b h = ground (
  arith,
  agree_from_word a b 0,
  agree_from_word a b 1,
  agree_from_word a b 2,
  agree_from_word a b 3,
  agree_from_end a b h,
)

length-word : (bytes : List ℕ) (i : ℕ) → length bytes ≡ 16 → i < 4 → length (word bytes i) ≡ 4
unfolding word
length-word bytes i h lt =
    omega (arith, length-take {0} 4 (drop (4 * i) bytes), length-drop {0} (4 * i) bytes)

module _ (a b : Address) (ha : length a.addr ≡ 16) (hb : length b.addr ≡ 16)
    (hm : length a.mask ≡ 16) where
  length-masked_word : (i : ℕ) → i < 4 → length (masked_word a b i) ≡ 4
  unfolding masked_word
  length-masked_word i lt =
      length-zip_with bit_and 4 _ _
        (length-zip_with bit_xor 4 _ _ (length-word a.addr i ha lt) (length-word b.addr i hb lt))
        (length-word a.mask i hm lt)

  nonzero-masked_word : (i : ℕ) → nonzero (masked_word a b i) ≡ not (agree_word a b i)
  unfolding masked_word agree_word masked
  nonzero-masked_word i = nonzero-masked (word a.addr i) (word b.addr i) (word a.mask i)

  -- A word of four bytes, `|`-ed onto an accumulator of four bytes.
  nonzero-or_word :
      (acc : List ℕ) (i : ℕ)
      → i < 4
      → length acc ≡ 4
      → (nonzero (zip_with bit_or acc (masked_word a b i))
          ≡ (nonzero acc || not (agree_word a b i)))
        × (length (zip_with bit_or acc (masked_word a b i)) ≡ 4)
  nonzero-or_word acc i lt e = (
    nonzero-zip_with_or acc (masked_word a b i) (e ∙ sym (length-masked_word i lt))
        ∙ ap (◌||◌ (nonzero acc)) (nonzero-masked_word i),
    length-zip_with bit_or 4 acc (masked_word a b i) e (length-masked_word i lt),
  )

  nonzero-differing : nonzero (differing a b) ≡ not (agree a.addr b.addr a.mask)
  unfolding differing
  nonzero-differing =
      let w0 = masked_word a b 0 in
      let w1 = zip_with bit_or w0 (masked_word a b 1) in
      let w2 = zip_with bit_or w1 (masked_word a b 2) in
      let e1 = nonzero-or_word w0 1 (omega arith) (length-masked_word 0 (omega arith)) in
      let e2 = nonzero-or_word w1 2 (omega arith) e1.1 in
      let e3 = nonzero-or_word w2 3 (omega arith) e2.1 in
      ground (arith, nonzero-masked_word 0, e1.0, e2.0, e3.0, agree_words a b ha)

  pub equal-agree : equal a b ≡ agree a.addr b.addr a.mask
  unfolding equal
  equal-agree = ground (arith, nonzero-differing)
