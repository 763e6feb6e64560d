-- ===== src/NdProxy/Words.antt =====
-- nd-proxy.c: the sum of the words of a frame, which is what a checksum is of.
use ndppd.Base.{
  ℕ, zero, suc, ◌+◌, ◌-◌, ◌*◌, ◌≤◌, ◌<◌, ◌≡◌, refl, ◌∙◌, ap, sym, arith, [], ◌∷◌, ◌++◌, none, some,
  leb, length, get_elem?, Bytes, Bool-cases, inl, inr, Every,
}
use ndppd.Iface.Packets.{copy_to}
use ndppd.Iface.Packets.Layout.{copy_over}

abbrev pub word_sum : Bytes → ℕ
word_sum [] = 0
word_sum (a ∷ []) = a * 256
word_sum (a ∷ b ∷ rest) = a * 256 + b + word_sum rest

abbrev pub IsBytes : Bytes → Type 0
IsBytes = Every (λ b. b < 256)

pub word_sum-append :
    (i : ℕ) (xs ys : Bytes) → length xs ≡ 2 * i → word_sum (xs ++ ys) ≡ word_sum xs + word_sum ys
word_sum-append zero [] ys e = omega arith
word_sum-append zero (x ∷ xs) ys e = absurd (omega arith)
word_sum-append (suc i) [] ys e = absurd (omega arith)
word_sum-append (suc i) (a ∷ []) ys e = absurd (omega arith)
word_sum-append (suc i) (a ∷ b ∷ xs) ys e = omega (arith, word_sum-append i xs ys (omega arith))

-- A buffer in three parts, of which the middle is what stands at an offset.
pub record Parts (off n : ℕ) (buf : Bytes) : Type 0 where
  pub pre : Bytes
  pub mid : Bytes
  pub post : Bytes
  pub whole : buf ≡ pre ++ (mid ++ post)
  pub before : length pre ≡ off
  pub here : length mid ≡ n

cut_front : (n : ℕ) (buf : Bytes) → n ≤ length buf → Parts 0 n buf
cut_front zero buf le = record {
  pre = [];
  mid = [];
  post = buf;
  whole = refl;
  before = refl;
  here = refl;
}
cut_front (suc n) [] le = absurd (omega arith)
cut_front (suc n) (x ∷ buf) le = let p = cut_front n buf (omega arith) in front p
  where
    front : Parts 0 n buf → Parts 0 (suc n) (x ∷ buf)
    front p = record {
      pre = [];
      mid = x ∷ p.mid;
      post = p.post;
      whole = ap (◌∷◌ x) (p.whole ∙ ap (λ r. r ++ (p.mid ++ p.post)) (nothing p.pre p.before));
      before = refl;
      here = omega (arith, p.here);
    }
      where
        nothing : (xs : Bytes) → length xs ≡ 0 → xs ≡ []
        nothing [] e = refl
        nothing (y ∷ ys) e = absurd (omega arith)

pub cut : (off n : ℕ) (buf : Bytes) → off + n ≤ length buf → Parts off n buf
cut zero n buf le = cut_front n buf (omega arith)
cut (suc off) n [] le = absurd (omega arith)
cut (suc off) n (x ∷ buf) le =
    let p = cut off n buf (omega arith) in
    record {
      pre = x ∷ p.pre;
      mid = p.mid;
      post = p.post;
      whole = ap (◌∷◌ x) p.whole;
      before = omega (arith, p.before);
      here = p.here;
    }

pub get_behind : (pre ys : Bytes) (k : ℕ) → get_elem? (pre ++ ys) (length pre + k) ≡ get_elem? ys k
get_behind [] ys k = let e : 0 + k ≡ k = omega arith in ap (get_elem? ys) e
get_behind (x ∷ pre) ys k =
    let e : length (x ∷ pre) + k ≡ suc (length pre + k) = omega arith in
    ap (get_elem? (x ∷ (pre ++ ys))) e ∙ get_behind pre ys k

-- A copy that succeeds: what was there, and what is there now.
pub record Copied (off : ℕ) (bytes buf after : Bytes) : Type 0 where
  pub parts : Parts off (length bytes) buf
  pub copied : after ≡ parts.pre ++ (bytes ++ parts.post)

pub copy_to-Copied :
    (off : ℕ) (bytes buf after : Bytes)
    → copy_to off bytes buf ≡ some after
    → Copied off bytes buf after
unfolding copy_to
copy_to-Copied off bytes buf after e = elim (Bool-cases (leb (off + length bytes) (length buf))) [
  | inr over ↦ let nothing : none ≡ some after = sym (rw over refl) ∙ e in absurd cc
  | inl fits ↦
      let p = cut off (length bytes) buf (ground arith) in
      let now : some (p.pre ++ (bytes ++ p.post)) ≡ some after =
        sym
          (ap (copy_to off bytes) p.whole ∙ copy_over off p.pre bytes p.mid p.post p.before p.here)
        ∙ e in
      record { parts = p; copied = some_same (sym now) }
]
  where
    some_same : {x y : Bytes} → some x ≡ some y → x ≡ y
    some_same same = cc

module _ (off : ℕ) (bytes buf after : Bytes) (c : Copied off bytes buf after) where
  pub Copied-sum :
      (i j : ℕ)
      → off ≡ 2 * i
      → length bytes ≡ 2 * j
      → word_sum after + word_sum c.parts.mid ≡ word_sum buf + word_sum bytes
  Copied-sum i j e f =
      let p = c.parts in
      omega (
        arith,
        ap word_sum c.copied ∙ word_sum-append i p.pre (bytes ++ p.post) (p.before ∙ e),
        word_sum-append j bytes p.post f,
        ap word_sum p.whole ∙ word_sum-append i p.pre (p.mid ++ p.post) (p.before ∙ e),
        word_sum-append j p.mid p.post (p.here ∙ f),
      )

  -- Behind what is copied, nothing changes.
  pub Copied-behind : (k : ℕ) → off + length bytes ≤ k → get_elem? after k ≡ get_elem? buf k
  Copied-behind k le =
      let p = c.parts in
      let k' = k - off - length bytes in
      let at_after =
        ap (λ b. get_elem? b k) c.copied
        ∙ ap (get_elem? (p.pre ++ (bytes ++ p.post))) (omega (arith, p.before))
        ∙ get_behind p.pre (bytes ++ p.post) (length bytes + k')
        ∙ get_behind bytes p.post k' in
      let at_before =
        ap (λ b. get_elem? b k) p.whole
        ∙ ap (get_elem? (p.pre ++ (p.mid ++ p.post))) (omega (arith, p.before, p.here))
        ∙ get_behind p.pre (p.mid ++ p.post) (length p.mid + k')
        ∙ get_behind p.mid p.post k' in
      at_after ∙ sym at_before
