-- ===== src/NdProxy/Update.antt =====
-- nd-proxy.c, `update_slla_option`: the checksum of the whole message.
use ndppd.Base.{
  ℕ, zero, suc, ◌+◌, ◌-◌, ◌*◌, ◌%◌, ◌≤◌, ◌≡◌, refl, ◌∙◌, ap, sym, subst, ◌||◌, ◌==◌, arith, [], ◌∷◌,
  ◌++◌, Option, none, some, length, take, get_elem?, Bytes, take_all, append_nil,
}
use ndppd.Iface.Packets.{◌>>=◌, copy_to}
use ndppd.NdProxy.{update_word, update_slla_option, find_option, find_from, option_start}
use ndppd.NdProxy.Forward.{Given, Given-bind, Given-if}
use ndppd.NdProxy.Words.{word_sum, IsBytes, Parts, Copied, copy_to-Copied, Copied-sum}
use ndppd.NdProxy.Rounds.{Word, middle_get, Round, update_word-Round}

-- An option stands at an even place behind the header of the message.
IsEven : ℕ → ℕ → Type 0
IsEven start pos = (t : ℕ) × (pos ≡ start + 2 * t)

EvenAt : ℕ → Option ℕ → Type 0
EvenAt start none = Unit {0}
EvenAt start (some pos) = IsEven start pos

find_from-EvenAt :
    (rounds : ℕ) (buf : Bytes) (start pos len type : ℕ)
    → IsEven start pos
    → Given (EvenAt start) (find_from rounds buf pos len type)
unfolding find_from EvenAt IsEven
find_from-EvenAt zero buf start pos len type even = tt
find_from-EvenAt (suc rounds) buf start pos len type (t, e) =
    Given-if _ (len == 0) _ _ (λ done. tt)
      (λ more. Given-bind _ (get_elem? buf (pos + 1)) _ (λ size f.
        Given-bind _ (get_elem? buf pos) _ (λ found g.
          Given-if _ (found == type) _ _ (λ here. (t, e))
            (λ further.
              find_from-EvenAt rounds buf start (pos + (2 + size * 8)) _ type
                (t + (1 + size * 4), omega arith)))))

option_start-IsEven : (type : ℕ) → Given (IsEven 8) (option_start type)
unfolding option_start IsEven
option_start-IsEven type =
    Given-if _ (type == 133) _ _ (λ e1. (0, refl))
      (λ n1.
        Given-if _ (type == 134) _ _ (λ e2. (4, refl))
          (λ n2.
            Given-if _ ((type == 135) || (type == 136)) _ _ (λ e3. (8, refl))
              (λ n3. Given-if _ (type == 137) _ _ (λ e4. (16, refl)) (λ n4. tt))))

find_option-EvenAt : (len type : ℕ) (buf : Bytes) → Given (EvenAt 62) (find_option len type buf)
unfolding find_option EvenAt IsEven
find_option-EvenAt len type buf =
    Given-bind _ (get_elem? buf 54) _
      (λ icmp_type e. started (option_start icmp_type) (option_start-IsEven icmp_type))
  where
    started :
        (o : Option ℕ)
        → Given (IsEven 8) o
        → Given (EvenAt 62) (elim o [
          | none ↦ some none
          | some start ↦ find_from (len - start) buf (54 + start) (len - start) type
        ])
    started none h = tt
    started (some start) (t, e) =
        find_from-EvenAt (len - start) buf 62 (54 + start) (len - start) type (t, omega arith)

-- Six bytes are three words.
six_bytes :
    (mid post : Bytes) (a b c d e f : ℕ)
    → length mid ≡ 6
    → get_elem? (mid ++ post) 0 ≡ some a
    → get_elem? (mid ++ post) 1 ≡ some b
    → get_elem? (mid ++ post) 2 ≡ some c
    → get_elem? (mid ++ post) 3 ≡ some d
    → get_elem? (mid ++ post) 4 ≡ some e
    → get_elem? (mid ++ post) 5 ≡ some f
    → word_sum mid ≡ (a * 256 + b) + (c * 256 + d) + (e * 256 + f)
six_bytes [] post a b c d e f six g0 g1 g2 g3 g4 g5 = absurd (omega arith)
six_bytes (u ∷ []) post a b c d e f six g0 g1 g2 g3 g4 g5 = absurd (omega arith)
six_bytes (u ∷ v ∷ []) post a b c d e f six g0 g1 g2 g3 g4 g5 = absurd (omega arith)
six_bytes (u ∷ v ∷ w ∷ []) post a b c d e f six g0 g1 g2 g3 g4 g5 = absurd (omega arith)
six_bytes (u ∷ v ∷ w ∷ x ∷ []) post a b c d e f six g0 g1 g2 g3 g4 g5 = absurd (omega arith)
six_bytes (u ∷ v ∷ w ∷ x ∷ y ∷ []) post a b c d e f six g0 g1 g2 g3 g4 g5 = absurd (omega arith)
six_bytes (u ∷ v ∷ w ∷ x ∷ y ∷ z ∷ q ∷ rest) post a b c d e f six g0 g1 g2 g3 g4 g5 =
    absurd (omega arith)
six_bytes (u ∷ v ∷ w ∷ x ∷ y ∷ z ∷ []) post a b c d e f six g0 g1 g2 g3 g4 g5 =
    let h0 : u ≡ a = cc in
    let h1 : v ≡ b = cc in
    let h2 : w ≡ c = cc in
    let h3 : x ≡ d = cc in let h4 : y ≡ e = cc in let h5 : z ≡ f = cc in omega arith

middle_six :
    (off n : ℕ) (buf : Bytes) (p : Parts off n buf) (w0 w1 w2 : ℕ)
    → n ≡ 6
    → Word (off + 2 * 0) buf w0
    → Word (off + 2 * 1) buf w1
    → Word (off + 2 * 2) buf w2
    → word_sum p.mid ≡ w0 + w1 + w2
middle_six off n buf p w0 w1 w2 six r0 r1 r2 =
    let at1 : off + 1 ≡ suc (off + 0) = omega arith in
    let at3 : off + 3 ≡ suc (off + 2) = omega arith in
    let at5 : off + 5 ≡ suc (off + 4) = omega arith in
    omega (
      arith,
      six_bytes p.mid p.post r0.high r0.low r1.high r1.low r2.high r2.low (p.here ∙ six)
          (middle_get off n 0 buf p r0.high r0.at_high)
          (middle_get off n 1 buf p r0.low (ap (get_elem? buf) at1 ∙ r0.at_low))
          (middle_get off n 2 buf p r1.high r1.at_high)
          (middle_get off n 3 buf p r1.low (ap (get_elem? buf) at3 ∙ r1.at_low))
          (middle_get off n 4 buf p r2.high r2.at_high)
          (middle_get off n 5 buf p r2.low (ap (get_elem? buf) at5 ∙ r2.at_low)),
      r0.value,
      r1.value,
      r2.value,
    )

Word-behind :
    (off : ℕ) (before after : Bytes) (w : ℕ)
    → 58 ≤ off
    → ((k : ℕ) → 58 ≤ k → get_elem? after k ≡ get_elem? before k)
    → Word off before w
    → Word off after w
Word-behind off before after w le same r = record {
  high = r.high;
  low = r.low;
  at_high = same off le ∙ r.at_high;
  at_low = same (suc off) (omega arith) ∙ r.at_low;
  value = r.value;
}

-- The three rounds and the copy.
total_after :
    (mac buf b1 b2 b3 after : Bytes) (t : ℕ)
    → length mac ≡ 6
    → Round mac (64 + 2 * t) 0 buf b1
    → Round mac (64 + 2 * t) 1 b1 b2
    → Round mac (64 + 2 * t) 2 b2 b3
    → Copied (64 + 2 * t) mac b3 after
    → word_sum after % 65535 ≡ word_sum buf % 65535
total_after mac buf b1 b2 b3 after t six x0 x1 x2 c =
    let off : ℕ = 64 + 2 * t in
    let olds =
      middle_six off (length mac) b3 c.parts x0.old x1.old x2.old six
        (Word-behind _ b2 b3 _ (omega arith) x2.behind (
          Word-behind _ b1 b2 _ (omega arith) x1.behind
            (Word-behind _ buf b1 _ (omega arith) x0.behind x0.at_old)))
        (Word-behind _ b2 b3 _ (omega arith) x2.behind
          (Word-behind _ b1 b2 _ (omega arith) x1.behind x1.at_old))
        (Word-behind _ b2 b3 _ (omega arith) x2.behind x2.at_old) in
    let itself : Parts 0 6 mac = record {
      pre = [];
      mid = mac;
      post = [];
      whole = sym (append_nil mac);
      before = refl;
      here = six;
    } in
    let news = middle_six 0 6 mac itself x0.new x1.new x2.new refl x0.at_new x1.at_new x2.at_new in
    let sums = Copied-sum off mac b3 after c (32 + t) 3 (omega arith) six in
    omega (arith, olds, news, sums, x0.balanced, x1.balanced, x2.balanced)

-- In nd-proxy, for a frame of bytes and an address of 6 bytes: `update_slla_option` keeps the
-- sum of the 16-bit words of the frame modulo 2 ^ 16 - 1, so that a checksum that was right
-- stays right, if no access goes past the end of the buffer.
pub update_slla_option-word_sum :
    (len : ℕ) (mac buf : Bytes)
    → length mac ≡ 6
    → IsBytes mac
    → IsBytes buf
    → Given
        (λ after. word_sum after % 65535 ≡ word_sum buf % 65535)
        (update_slla_option len mac buf)
unfolding update_slla_option EvenAt IsEven
update_slla_option-word_sum len mac buf six m b =
    Given-bind _ (find_option len 1 buf) _
      (λ found e. changed found (subst (Given (EvenAt 62)) e (find_option-EvenAt len 1 buf)))
  where
    rounds :
        (slla i : ℕ) (before after : Bytes)
        → IsBytes before
        → update_word mac slla i before ≡ some after
        → Round mac slla i before after
    rounds slla i before after b' f =
        subst (Given (Round mac slla i before)) f (update_word-Round mac before slla i b' m)

    done :
        (r : Option Bytes)
        → ((after : Bytes) → r ≡ some after → word_sum after % 65535 ≡ word_sum buf % 65535)
        → Given (λ after. word_sum after % 65535 ≡ word_sum buf % 65535) r
    done none f = tt
    done (some after) f = f after refl

    changed :
        (found : Option ℕ)
        → EvenAt 62 found
        → Given
            (λ after. word_sum after % 65535 ≡ word_sum buf % 65535)
            (elim found [
              | none ↦ some buf
              | some pos ↦
                  (update_word mac (pos + 2) 0 buf >>= λ b1.
                  update_word mac (pos + 2) 1 b1 >>= λ b2.
                  update_word mac (pos + 2) 2 b2 >>= λ b3. copy_to (pos + 2) (take 6 mac) b3)
            ])
    changed none even = refl
    changed (some pos) (t, at_pos) = Given-bind _ (update_word mac (pos + 2) 0 buf) _ (λ b1 f1.
        let x0 = rounds (pos + 2) 0 buf b1 b f1 in
        Given-bind _ (update_word mac (pos + 2) 1 b1) _ (λ b2 f2.
          let x1 = rounds (pos + 2) 1 b1 b2 x0.bytes f2 in
          Given-bind _ (update_word mac (pos + 2) 2 b2) _ (λ b3 f3.
            let x2 = rounds (pos + 2) 2 b2 b3 x1.bytes f3 in
            done (copy_to (pos + 2) (take 6 mac) b3) (λ after f4.
              let place : pos + 2 ≡ 64 + 2 * t = omega (arith, at_pos) in
              let whole : take 6 mac ≡ mac = take_all 6 mac (omega arith) in
              let f5 : copy_to (pos + 2) mac b3 ≡ some after =
                ap (λ h. copy_to (pos + 2) h b3) (sym whole) ∙ f4 in
              total_after mac buf b1 b2 b3 after t six (subst (λ o. Round mac o 0 buf b1) place x0)
                (subst (λ o. Round mac o 1 b1 b2) place x1)
                (subst (λ o. Round mac o 2 b2 b3) place x2)
                (subst (λ o. Copied o mac b3 after) place
                  (copy_to-Copied (pos + 2) mac b3 after f5))))))
