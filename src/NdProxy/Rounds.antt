-- ===== src/NdProxy/Rounds.antt =====
-- nd-proxy.c: one round of the loop of `update_slla_option`.
use ndppd.Base.{
  ℕ, suc, ◌+◌, ◌*◌, ◌%◌, ◌≤◌, ◌<◌, ◌≡◌, refl, ◌∙◌, ap, sym, subst, arith, [], ◌∷◌, ◌++◌, Option,
  none, some, length, get_elem?, Bytes, Every-append, Every-get,
}
use ndppd.Iface.Packets.{copy_to}
use ndppd.NdProxy.{word_at, word_bytes, update_word, update_cksum}
use ndppd.NdProxy.Checksum.{update_cksum-sum}
use ndppd.NdProxy.Forward.{Given, Given-bind}
use ndppd.NdProxy.Words.{
  word_sum, IsBytes, Parts, Copied, copy_to-Copied, Copied-sum, Copied-behind, get_behind,
}

-- The two bytes of a word that has been read.
pub record Word (off : ℕ) (buf : Bytes) (w : ℕ) : Type 0 where
  pub high : ℕ
  pub low : ℕ
  pub at_high : get_elem? buf off ≡ some high
  pub at_low : get_elem? buf (suc off) ≡ some low
  pub value : w ≡ high * 256 + low

word_at-Word : (off : ℕ) (buf : Bytes) → Given (Word off buf) (word_at off buf)
unfolding word_at
word_at-Word off buf = Given-bind _ (get_elem? buf off) _ (λ high e.
    Given-bind _ (get_elem? buf (suc off)) _
      (λ low f. record { high = high; low = low; at_high = e; at_low = f; value = refl }))

pub read_back : (off : ℕ) (buf : Bytes) (w : ℕ) → word_at off buf ≡ some w → Word off buf w
read_back off buf w e = subst (Given (Word off buf)) e (word_at-Word off buf)

pub Word-small : (off : ℕ) (buf : Bytes) (w : ℕ) → IsBytes buf → Word off buf w → w < 65536
Word-small off buf w b r = omega (
  arith,
  r.value,
  Every-get (λ x. x < 256) buf off r.high b r.at_high,
  Every-get (λ x. x < 256) buf (suc off) r.low b r.at_low,
)

-- The words of the bytes in the middle of a buffer.
two_bytes :
    (mid post : Bytes) (high low : ℕ)
    → length mid ≡ 2
    → get_elem? (mid ++ post) 0 ≡ some high
    → get_elem? (mid ++ post) 1 ≡ some low
    → word_sum mid ≡ high * 256 + low
two_bytes (a ∷ b ∷ []) post high low two e f =
    let same_a : a ≡ high = cc in let same_b : b ≡ low = cc in omega arith
two_bytes [] post high low two e f = absurd (omega arith)
two_bytes (a ∷ []) post high low two e f = absurd (omega arith)
two_bytes (a ∷ b ∷ c ∷ rest) post high low two e f = absurd (omega arith)

pub middle_get :
    (off n k : ℕ) (buf : Bytes) (p : Parts off n buf) (x : ℕ)
    → get_elem? buf (off + k) ≡ some x
    → get_elem? (p.mid ++ p.post) k ≡ some x
middle_get off n k buf p x e =
    let there : off + k ≡ length p.pre + k = omega (arith, p.before) in
    sym (get_behind p.pre (p.mid ++ p.post) k)
    ∙ ap (get_elem? (p.pre ++ (p.mid ++ p.post))) (sym there)
    ∙ ap (λ b. get_elem? b (off + k)) (sym p.whole)
    ∙ e

pub middle_two :
    (off : ℕ) (buf : Bytes) (p : Parts off 2 buf) (w : ℕ) → Word off buf w → word_sum p.mid ≡ w
middle_two off buf p w r =
    let at0 : off + 0 ≡ off = omega arith in
    let at1 : off + 1 ≡ suc off = omega arith in
    two_bytes p.mid p.post r.high r.low p.here
      (middle_get off 2 0 buf p r.high (ap (get_elem? buf) at0 ∙ r.at_high))
      (middle_get off 2 1 buf p r.low (ap (get_elem? buf) at1 ∙ r.at_low))
    ∙ sym r.value

word_bytes-sum : (w : ℕ) → w < 65536 → word_sum (word_bytes w) ≡ w
unfolding word_bytes
word_bytes-sum w lt = omega arith

Every-parts : (xs ys : Bytes) → IsBytes (xs ++ ys) → IsBytes xs × IsBytes ys
Every-parts [] ys h = (tt, h)
Every-parts (x ∷ xs) ys h = let rest = Every-parts xs ys h.1 in ((h.0, rest.0), rest.1)

replaced :
    (pre mid bytes post : Bytes)
    → IsBytes (pre ++ (mid ++ post))
    → IsBytes bytes
    → IsBytes (pre ++ (bytes ++ post))
replaced pre mid bytes post h g =
    let front = Every-parts pre (mid ++ post) h in
    let back = Every-parts mid post front.1 in
    Every-append _ pre (bytes ++ post) front.0 (Every-append _ bytes post g back.1)

-- One round: the checksum makes up for the new word.
pub record Round (mac : Bytes) (slla i : ℕ) (buf after : Bytes) : Type 0 where
  pub old : ℕ
  pub new : ℕ
  pub at_old : Word (slla + 2 * i) buf old
  pub at_new : Word (2 * i) mac new
  pub balanced : (word_sum after + new) % 65535 ≡ (word_sum buf + old) % 65535
  pub bytes : IsBytes after
  pub behind : (k : ℕ) → 58 ≤ k → get_elem? after k ≡ get_elem? buf k

balance :
    (before after cksum cksum' old new : ℕ)
    → after + cksum ≡ before + cksum'
    → (cksum' + new) % 65535 ≡ (cksum + old) % 65535
    → (after + new) % 65535 ≡ (before + old) % 65535
balance before after cksum cksum' old new e f = omega arith

pub update_word-Round :
    (mac buf : Bytes) (slla i : ℕ)
    → IsBytes buf
    → IsBytes mac
    → Given (Round mac slla i buf) (update_word mac slla i buf)
unfolding update_word word_bytes
update_word-Round mac buf slla i b m = Given-bind _ (word_at 56 buf) _ (λ cksum e1.
    Given-bind _ (word_at (slla + 2 * i) buf) _ (λ old e2.
      Given-bind _ (word_at (2 * i) mac) _ (λ new e3.
        Given-bind-done (copy_to 56 (word_bytes (update_cksum cksum old new)) buf) (λ after e4.
          round (read_back 56 buf cksum e1) (read_back (slla + 2 * i) buf old e2)
            (read_back (2 * i) mac new e3) (copy_to-Copied 56 _ buf after e4)))))
  where
    Given-bind-done :
        (r : Option Bytes)
        → ((a : Bytes) → r ≡ some a → Round mac slla i buf a)
        → Given (Round mac slla i buf) r
    Given-bind-done none f = tt
    Given-bind-done (some a) f = f a refl

    round :
        {cksum old new : ℕ} {after : Bytes}
        → Word 56 buf cksum
        → Word (slla + 2 * i) buf old
        → Word (2 * i) mac new
        → Copied 56 (word_bytes (update_cksum cksum old new)) buf after
        → Round mac slla i buf after
    round {cksum = cksum} {old = old} {new = new} {after = after} r1 r2 r3 c =
        let (small, sums) =
          update_cksum-sum cksum old new (Word-small 56 buf cksum b r1) (Word-small _ buf old b r2)
            (Word-small _ mac new m r3) in
        let kept = Copied-sum 56 _ buf after c 28 1 refl refl in
        let was = middle_two 56 buf c.parts cksum r1 in
        let now = word_bytes-sum (update_cksum cksum old new) small in
        record {
          old = old;
          new = new;
          at_old = r2;
          at_new = r3;
          balanced =
              balance (word_sum buf) (word_sum after) cksum (update_cksum cksum old new) old new
                (omega (arith, kept, was, now)) sums;
          bytes = subst IsBytes (sym c.copied) (
              replaced c.parts.pre c.parts.mid (word_bytes (update_cksum cksum old new))
                c.parts.post (subst IsBytes c.parts.whole b) (omega arith, (omega arith, tt)));
          behind = λ k le. Copied-behind 56 _ buf after c k (omega arith);
        }
