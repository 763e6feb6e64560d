-- ===== src/NdProxy/Forward.antt =====
-- nd-proxy.c: where `handle_fd` sends a frame.
use ndppd.Base.{
  ℕ, suc, ◌+◌, ◌-◌, ◌≤◌, ◌≡◌, ◌≢◌, refl, ◌∙◌, ap, sym, Bool, true, false, ◌==◌, if◌then◌else◌,
  arith, List, [], ◌∷◌, ◌++◌, Option, none, some, ltb, leb, length, take, drop, get_elem?, Bytes,
  Bool-cases, inl, inr, Every, Every-map, Every-append, take_front, take_past, take_all,
  length-take, drop_front, subst,
}
use ndppd.Iface.Packets.{◌>>=◌, copy_to}
use ndppd.NdProxy.{
  Port, Frame, is_ignored, is_proxied, update_slla_option, proxy_rsra, forward, handle_fd,
}

-- A result that, where there is one, has this property.
abbrev pub Given : {A : Type 0} → (A → Type 0) → Option A → Type 0
Given P none = Unit {0}
Given P (some a) = P a

pub Given-bind :
    {A B : Type 0} (P : B → Type 0) (m : Option A) (f : A → Option B)
    → ((a : A) → m ≡ some a → Given P (f a))
    → Given P (m >>= f)
Given-bind P none f h = tt
Given-bind P (some a) f h = h a refl

pub Given-if :
    {A : Type 0} (P : A → Type 0) (b : Bool) (m m' : Option A)
    → (b ≡ true → Given P m)
    → (b ≡ false → Given P m')
    → Given P (if b then m else m')
Given-if P true m m' f g = f refl
Given-if P false m m' f g = g refl

-- The frame of a port: its index, and its address as the source in the Ethernet header.
abbrev pub SentBy : Port → Frame → Type 0
SentBy p f = (f.ifindex ≡ p.ifindex) × (take 6 (drop 6 f.bytes) ≡ p.hwaddr)

-- A frame of another port than number `n`.
abbrev pub IsElsewhere : List Port → ℕ → Frame → Type 0
IsElsewhere ports n f = (m : ℕ) × (p : Port) × (m ≢ n) × (get_elem? ports m ≡ some p) × SentBy p f

-- The source address of a frame into which it has been copied.
source_at :
    (k : ℕ) (pre hwaddr post : Bytes)
    → length pre ≡ 6
    → length hwaddr ≡ 6
    → take 6 (drop 6 (take (6 + (6 + k)) (pre ++ (hwaddr ++ post)))) ≡ hwaddr
source_at k pre hwaddr post a b =
    ap (λ r. take 6 (drop 6 r))
      (take_past 6 (6 + k) pre (hwaddr ++ post) a
        ∙ ap (λ r. pre ++ r) (take_past 6 k hwaddr post b))
    ∙ ap (λ r. take 6 r) (drop_front 6 pre (hwaddr ++ take k post) a)
    ∙ take_front 6 hwaddr (take k post) b

copied_at :
    (len : ℕ) (hwaddr buf b2 : Bytes)
    → 62 ≤ len
    → length hwaddr ≡ 6
    → copy_to 6 (take 6 hwaddr) buf ≡ some b2
    → take 6 (drop 6 (take len b2)) ≡ hwaddr
unfolding copy_to
copied_at len hwaddr buf b2 le six e = elim (Bool-cases (leb (6 + length hwaddr) (length buf))) [
  | inl fits ↦
      let whole : take 6 hwaddr ≡ hwaddr = take_all 6 hwaddr (omega arith) in
      let post : Bytes = drop (6 + length hwaddr) buf in
      let copied : some (take 6 buf ++ (hwaddr ++ post)) ≡ some b2 =
        sym (rw (whole, fits) refl) ∙ e in
      let same : take 6 buf ++ (hwaddr ++ post) ≡ b2 = cc in
      let (k, at_k) : (k : ℕ) × (len ≡ 6 + (6 + k)) = (len - 12, omega arith) in
      rw (at_k) (
        ap (λ b. take 6 (drop 6 (take (6 + (6 + k)) b))) (sym same)
        ∙ source_at k (take 6 buf) hwaddr post (ground (arith, length-take 6 buf)) six)
  | inr over ↦
      let whole : take 6 hwaddr ≡ hwaddr = take_all 6 hwaddr (omega arith) in
      let nothing : none ≡ some b2 = sym (rw (whole, over) refl) ∙ e in absurd cc
]

-- What `proxy_rsra` sends goes out on its interface.
proxy_rsra-SentBy :
    (p : Port) (len : ℕ) (buf : Bytes)
    → 62 ≤ len
    → length p.hwaddr ≡ 6
    → Given (λ r. Every (SentBy p) r.1) (proxy_rsra p len buf)
unfolding proxy_rsra
proxy_rsra-SentBy p len buf le six = Given-bind _ (get_elem? buf 22) _ (λ src e1.
    Given-bind _ (get_elem? buf 38) _ (λ dst e2. Given-bind _ (get_elem? buf 0) _ (λ d0 e3.
      Given-bind _ (get_elem? buf 1) _ (λ d1 e4.
        Given-if _ (is_ignored src dst d0 d1) _ _ (λ ignored. tt)
          (λ proxied. Given-bind _ (update_slla_option (len - 54) p.hwaddr buf) _ (λ b1 e5.
            Given-bind _ (copy_to 6 (take 6 p.hwaddr) b1) _
              (λ b2 e6. ((refl, copied_at len p.hwaddr b1 b2 le six e6), tt))))))))

-- The two cases of the loop.
forward_own :
    (n k : ℕ) (p : Port) (ports : List Port) (len : ℕ) (buf : Bytes)
    → (k == n) ≡ true
    → forward n k (p ∷ ports) len buf ≡ forward n (suc k) ports len buf
unfolding forward
forward_own n k p ports len buf e = rw (e, forward) refl

forward_other :
    (n k : ℕ) (p : Port) (ports : List Port) (len : ℕ) (buf : Bytes)
    → (k == n) ≡ false
    → forward n k (p ∷ ports) len buf ≡ (
        proxy_rsra p len buf >>= λ sent.
        forward n (suc k) ports len sent.0 >>= λ rest. some (rest.0, sent.1 ++ rest.1))
unfolding forward
forward_other n k p ports len buf e = rw (e, forward) refl

module _ (all : List Port) (n len : ℕ) (le : 62 ≤ len)
    (six : (m : ℕ) (p : Port) → get_elem? all m ≡ some p → length p.hwaddr ≡ 6) where
  forward_end : (k : ℕ) (buf : Bytes) → forward n k [] len buf ≡ some (buf, [])
  unfolding forward
  forward_end k buf = refl

  forward-IsElsewhere :
      (k : ℕ) (ports : List Port) (buf : Bytes)
      → ((j : ℕ) (p : Port) → get_elem? ports j ≡ some p → get_elem? all (k + j) ≡ some p)
      → Given (λ r. Every (IsElsewhere all n) r.1) (forward n k ports len buf)
  forward-IsElsewhere k [] buf there = rw (forward_end k buf) tt
  forward-IsElsewhere k (p ∷ ports) buf there =
      let behind = λ (j : ℕ) (q : Port) (e : get_elem? ports j ≡ some q).
        subst (λ i. get_elem? all i ≡ some q) (omega arith) (there (suc j) q e) in
      elim (Bool-cases (k == n)) [
        | inl same ↦
            rw (forward_own n k p ports len buf same) (forward-IsElsewhere (suc k) ports buf behind)
        | inr other ↦
            let elsewhere : k ≢ n = λ same. absurd (ground arith) in
            let here : get_elem? all k ≡ some p =
              subst (λ i. get_elem? all i ≡ some p) (omega arith) (there 0 p refl) in
            rw (forward_other n k p ports len buf other) (
              Given-bind _ (proxy_rsra p len buf) _ (λ sent e.
                let sent_here : Every (SentBy p) sent.1 =
                  subst (Given (λ r. Every (SentBy p) r.1)) e
                    (proxy_rsra-SentBy p len buf le (six k p here)) in
                Given-bind _ (forward n (suc k) ports len sent.0) _ (λ rest f.
                  let sent_there : Every (IsElsewhere all n) rest.1 =
                    subst (Given (λ r. Every (IsElsewhere all n) r.1)) f
                      (forward-IsElsewhere (suc k) ports sent.0 behind) in
                  Every-append (IsElsewhere all n) sent.1 rest.1
                    (Every-map (SentBy p) (IsElsewhere all n) sent.1
                      (λ fr by_p. (k, p, elsewhere, here, by_p)) sent_here)
                    sent_there)))
      ]

-- In nd-proxy, with interfaces whose addresses have 6 bytes: whatever arrives on an interface,
-- every frame that `handle_fd` sends is for the index of another interface of the table and has
-- the address of that interface as its source, if no access goes past the end of the buffer.
pub handle_fd-IsElsewhere :
    (ports : List Port) (n : ℕ) (receipt : Option (ℕ × Bytes))
    → ((m : ℕ) (p : Port) → get_elem? ports m ≡ some p → length p.hwaddr ≡ 6)
    → Given (Every (IsElsewhere ports n)) (handle_fd ports n receipt)
unfolding handle_fd
handle_fd-IsElsewhere ports n none six = tt
handle_fd-IsElsewhere ports n (some (len, buf)) six =
    Given-if _ (ltb len 62) _ _ (λ short. tt)
      (λ long. Given-bind _ (get_elem? ports n) _ (λ p e.
        Given-bind _ (get_elem? buf 54) _ (λ type e'.
          Given-if _ (is_proxied type p.flags) _ _
            (λ proxied. Given-bind _ (forward n 0 ports len buf) _ (λ r f.
              subst (Given (λ r'. Every (IsElsewhere ports n) r'.1)) f (
                forward-IsElsewhere ports n len (ground arith) six 0 ports buf
                  (λ j q there. subst (λ i. get_elem? ports i ≡ some q) (omega arith) there))))
            (λ ignored. tt))))
