-- ===== src/Iface/Flags/Change.antt =====
-- src/iface.cc: what a change does to one flag of a device and to the others.
use Prim.Native.Nat.{bit_and, bit_and-bitwise, bit_or, min, max}
use ndppd.Base.{
  ℕ, zero, suc, ◌-◌, ◌*◌, ◌/◌, ◌^◌, ◌≤◌, ◌<◌, ◌≡◌, refl, ap, ◌∙◌, sym, Bool, true, false, not, ◌&&◌,
  ◌==◌, if◌then◌else◌, ◌⊎◌, inl, inr, Bool-cases, arith, holds_from, holds_from-at, ==_iff,
}
use native.Mathlib.Nat.{pow-suc}
use ndppd.Base.Int.{ℤ, pos, negsuc, leb_ℤ}
use ndppd.Base.Bits.{digit, digit_bit, exceeds, bit_and_two_pow, lowest_or, lowest_and}
use ndppd.Iface.Flags.{Ioctls, truth, is_set, change_flag, put_back}

digit-bit_or : (j x y : ℕ) → digit (bit_or x y) j ≡ max (digit x j) (digit y j)
digit-bit_or zero x y = omega (arith, lowest_or x y)
digit-bit_or (suc j) x y =
    let half : bit_or x y / 2 ≡ bit_or (x / 2) (y / 2) = omega (arith, lowest_or x y) in
    rw half (digit-bit_or j (x / 2) (y / 2))

digit-bit_and : (j x y : ℕ) → digit (bit_and x y) j ≡ min (digit x j) (digit y j)
digit-bit_and zero x y = omega (arith, lowest_and x y)
digit-bit_and (suc j) x y =
    let half : bit_and x y / 2 ≡ bit_and (x / 2) (y / 2) = omega (arith, lowest_and x y) in
    rw half (digit-bit_and j (x / 2) (y / 2))

bit_or-below : (n x y : ℕ) → x < 2 ^ n → y < 2 ^ n → bit_or x y < 2 ^ n
bit_or-below zero x y hx hy =
    let none_x : x ≡ 0 = omega arith in
    let none_y : y ≡ 0 = omega arith in rw (none_x, none_y) (omega arith)
bit_or-below (suc n) x y hx hy = omega (
  arith,
  pow-suc 2 n,
  lowest_or x y,
  bit_or-below n (x / 2) (y / 2) (omega (arith, pow-suc 2 n)) (omega (arith, pow-suc 2 n)),
)

bit_and-below : (n x y : ℕ) → x < 2 ^ n → bit_and x y < 2 ^ n
bit_and-below zero x y hx =
    let none_x : x ≡ 0 = omega arith in rw none_x (simp bit_and-bitwise (omega arith))
bit_and-below (suc n) x y hx = omega (
  arith,
  pow-suc 2 n,
  lowest_and x y,
  bit_and-below n (x / 2) (y / 2) (omega (arith, pow-suc 2 n)),
)

-- A mask of one bit, and its complement in 16 bits.
abbrev pub is_bit : ℕ → ℕ → Bool
is_bit k j =
    (digit (2 ^ k) j == truth (j == k)) && (digit (2 ^ 16 - 1 - 2 ^ k) j == truth (not (j == k)))

pub bit_8 : holds_from (is_bit 8) 0 16 ≡ true
unfolding holds_from
bit_8 = refl

pub bit_9 : holds_from (is_bit 9) 0 16 ≡ true
unfolding holds_from
bit_9 = refl

both : (a b : Bool) → (a && b) ≡ true → (a ≡ true) × (b ≡ true)
both true true h = (refl, refl)
both true false h = cc
both false b h = cc

as_truth : (d : ℕ) → d ≤ 1 → truth (is_set (pos d)) ≡ d
as_truth zero h = refl
as_truth (suc zero) h = refl
as_truth (suc (suc d)) h = absurd (omega arith)

-- What a change that succeeds does to the flag `k`.
record Changed (k x : ℕ) (on : Bool) (r : ℤ × ℕ) : Type 0 where
  old : r.0 ≡ pos (digit x k)
  small : r.1 < 2 ^ 16
  bits : (j : ℕ) → j < 16 → digit r.1 j ≡ (if j == k then truth on else digit x j)

-- A change to on: what the interface keeps, and the flags.
pub record Turned (k x : ℕ) (r : ℤ × ℕ) : Type 0 where
  pub small : r.1 < 2 ^ 16
  pub others : (j : ℕ) → j < 16 → (j == k) ≡ false → digit r.1 j ≡ digit x j
  pub noted : ((r.0 ≡ negsuc 0) × (digit r.1 k ≡ digit x k)) ⊎ (r.0 ≡ pos (digit x k))

module _ (k : ℕ) (table : holds_from (is_bit k) 0 16 ≡ true) (lt : k < 16)
    (fits : 2 ^ k < 2 ^ 16) where
  mask_bit :
      (j : ℕ)
      → j < 16
      → (digit (2 ^ k) j ≡ truth (j == k)) × (digit (2 ^ 16 - 1 - 2 ^ k) j ≡ truth (not (j == k)))
  mask_bit j lt =
      let all =
        both (digit (2 ^ k) j == truth (j == k)) _
          (holds_from-at (is_bit k) 0 16 j table (omega arith) lt) in
      ((==_iff _ _).0 all.0, (==_iff _ _).0 all.1)

  test_flag : (x : ℕ) → truth (not (bit_and x (2 ^ k) == 0)) ≡ digit x k
  test_flag x = flag_of (digit x k) (digit_bit x k) (bit_and_two_pow k x) (exceeds k)
    where
      flag_of :
          (d : ℕ)
          → d ≤ 1
          → bit_and x (2 ^ k) ≡ d * 2 ^ k
          → k < 2 ^ k
          → truth (not (bit_and x (2 ^ k) == 0)) ≡ d
      flag_of zero h e lt = let off : (bit_and x (2 ^ k) == 0) ≡ true = ground arith in rw off refl
      flag_of (suc zero) h e lt =
          let on : (bit_and x (2 ^ k) == 0) ≡ false = ground arith in rw on refl
      flag_of (suc (suc d)) h e lt = absurd (omega arith)

  max_bit : (d : ℕ) (b : Bool) → d ≤ 1 → max d (truth b) ≡ (if b then 1 else d)
  max_bit d true h = omega arith
  max_bit d false h = omega arith

  min_bit : (d : ℕ) (b : Bool) → d ≤ 1 → min d (truth (not b)) ≡ (if b then 0 else d)
  min_bit d true h = omega arith
  min_bit d false h = omega arith

  -- The two ways to write the flag.
  written :
      (on : Bool) (x : ℕ)
      → x < 2 ^ 16
      → Changed k x on
          (pos (digit x k), if on then bit_or x (2 ^ k) else bit_and x (2 ^ 16 - 1 - 2 ^ k))
  written true x small = record {
    old = refl;
    small = bit_or-below 16 x (2 ^ k) small fits;
    bits = λ j h.
        digit-bit_or j x (2 ^ k)
        ∙ ap (max (digit x j)) (mask_bit j h).0
        ∙ max_bit (digit x j) (j == k) (digit_bit x j);
  }
  written false x small = record {
    old = refl;
    small = bit_and-below 16 x (2 ^ 16 - 1 - 2 ^ k) small;
    bits = λ j h.
        digit-bit_and j x (2 ^ 16 - 1 - 2 ^ k)
        ∙ ap (min (digit x j)) (mask_bit j h).1
        ∙ min_bit (digit x j) (j == k) (digit_bit x j);
  }

  -- Nothing to do: the flag is as it should be.
  kept :
      (on : Bool) (x : ℕ) → x < 2 ^ 16 → truth on ≡ digit x k → Changed k x on (pos (digit x k), x)
  kept on x small e = record { old = refl; small = small; bits = λ j h. same_bit j }
    where
      same_bit : (j : ℕ) → digit x j ≡ (if j == k then truth on else digit x j)
      same_bit j = elim (Bool-cases (j == k)) [
        | inl here ↦ let same : j ≡ k = (==_iff j k).0 here in rw here (ap (digit x) same ∙ sym e)
        | inr there ↦ rw there refl
      ]

  -- A call of `allmulti` or of `promiscuous`: it fails and changes nothing, or it succeeds.
  change_flag-cases :
      (sys : Ioctls) (state : ℤ) (x : ℕ)
      → x < 2 ^ 16
      → (change_flag (2 ^ k) sys state x ≡ (negsuc 0, x))
        ⊎ Changed k x (is_set state) (change_flag (2 ^ k) sys state x)
  unfolding change_flag
  change_flag-cases sys state x small = elim (Bool-cases sys.reads) [
    | inr e ↦ rw e (inl refl)
    | inl e ↦ rw e (
        rw (test_flag x) (elim (Bool-cases (truth (is_set state) == digit x k)) [
          | inl as_wanted ↦
              rw as_wanted (inr (kept (is_set state) x small ((==_iff _ _).0 as_wanted)))
          | inr other ↦ rw other (elim (Bool-cases sys.writes) [
            | inl f ↦ rw f (inr (written (is_set state) x small))
            | inr f ↦ rw f (inl refl)
          ])
        ]))
  ]

  -- The flag is put back, by a call that succeeds, where it was changed.
  put_back-Changed :
      (sys : Ioctls) (d x : ℕ)
      → sys.reads ≡ true
      → sys.writes ≡ true
      → x < 2 ^ 16
      → Changed k x (is_set (pos d)) (change_flag (2 ^ k) sys (pos d) x)
  unfolding change_flag
  put_back-Changed sys d x r w small =
      rw (r, w)
        (rw (test_flag x) (elim (Bool-cases (truth (is_set (pos d)) == digit x k)) [
          | inl as_wanted ↦ rw as_wanted (kept (is_set (pos d)) x small ((==_iff _ _).0 as_wanted))
          | inr other ↦ rw other (written (is_set (pos d)) x small)
        ]))

  pub turn_on : (sys : Ioctls) (x : ℕ) → x < 2 ^ 16 → Turned k x (change_flag (2 ^ k) sys (pos 1) x)
  turn_on sys x small = elim (change_flag-cases sys (pos 1) x small) [
    | inl e ↦ rw e (record { small = small; others = λ j h ne. refl; noted = inl (refl, refl) })
    | inr c ↦ record {
      small = c.small;
      others = λ j h ne. c.bits j h ∙ rw ne refl;
      noted = inr c.old;
    }
  ]

  -- The flag comes back, and the others are as they are.
  pub turn_back :
      (sys : Ioctls) (x y : ℕ) (p : ℤ)
      → sys.reads ≡ true
      → sys.writes ≡ true
      → y < 2 ^ 16
      → ((p ≡ negsuc 0) × (digit y k ≡ digit x k)) ⊎ (p ≡ pos (digit x k))
      → (put_back (change_flag (2 ^ k) sys) p y < 2 ^ 16)
        × (digit (put_back (change_flag (2 ^ k) sys) p y) k ≡ digit x k)
        × ((j : ℕ)
            → j < 16
            → (j == k) ≡ false
            → digit (put_back (change_flag (2 ^ k) sys) p y) j ≡ digit y j)
  unfolding put_back
  turn_back sys x y p r w small (inl (e, same)) = rw e (small, same, λ j h ne. refl)
  turn_back sys x y p r w small (inr e) =
      let c = put_back-Changed sys (digit x k) y r w small in
      let there : leb_ℤ (pos 0) (pos (digit x k)) ≡ true = ground arith in
      let itself : (k == k) ≡ true = ground arith in
      rw e (
        rw there (
          c.small,
          c.bits k lt ∙ rw itself (as_truth (digit x k) (digit_bit x k)),
          λ j h ne. c.bits j h ∙ rw ne refl,
        ))
