-- ===== src/Iface/Flags/Restore.antt =====
-- src/iface.cc: the flags of a device after the destructor.
use ndppd.Base.{
  ℕ, ◌^◌, ◌<◌, ◌≡◌, refl, ◌∙◌, Bool, true, false, ◌==◌, ◌⊎◌, inl, inr, Bool-cases, arith, ==_iff,
}
use ndppd.Base.Int.{ℤ, pos, negsuc}
use ndppd.Base.Bits.{digit, digits_ext}
use ndppd.Iface.Flags.{
  Ioctls, change_flag, allmulti, promiscuous, set_flags, put_back, restore_flags,
}
use ndppd.Iface.Flags.Change.{bit_8, bit_9, Turned, turn_on, turn_back}

module _ (sys3 sys4 : Ioctls) (r3 : sys3.reads ≡ true) (w3 : sys3.writes ≡ true)
    (r4 : sys4.reads ≡ true) (w4 : sys4.writes ≡ true) where
  -- Flag 9, then perhaps flag 8, changed; both put back.
  there_and_back :
      (x x2 : ℕ) (a : ℤ × ℕ) (p : ℤ)
      → x < 2 ^ 16
      → x2 < 2 ^ 16
      → Turned 9 x a
      → ((j : ℕ) → j < 16 → (j == 8) ≡ false → digit x2 j ≡ digit a.1 j)
      → ((p ≡ negsuc 0) × (digit x2 8 ≡ digit a.1 8)) ⊎ (p ≡ pos (digit a.1 8))
      → put_back (change_flag (2 ^ 8) sys4) p (put_back (change_flag (2 ^ 9) sys3) a.0 x2) ≡ x
  there_and_back x x2 a p small small2 on9 others8 noted8 =
      let t9 = on8_9 on9.noted in
      let back9 = turn_back 9 bit_9 (omega arith) (omega arith) sys3 x x2 a.0 r3 w3 small2 t9 in
      let x3 = put_back (change_flag (2 ^ 9) sys3) a.0 x2 in
      let same8 : digit x3 8 ≡ digit x2 8 = back9.2 8 (omega arith) refl in
      let back8 =
        turn_back 8 bit_8 (omega arith) (omega arith) sys4 a.1 x3 p r4 w4 back9.0
          (carried x3 same8 noted8) in
      digits_ext 16 _ x back8.0 small (λ j lt. every x3 _ back9.1 back9.2 back8.1 back8.2 j lt)
    where
      on8_9 :
          ((a.0 ≡ negsuc 0) × (digit a.1 9 ≡ digit x 9)) ⊎ (a.0 ≡ pos (digit x 9))
          → ((a.0 ≡ negsuc 0) × (digit x2 9 ≡ digit x 9)) ⊎ (a.0 ≡ pos (digit x 9))
      on8_9 (inl (e, same)) = inl (e, others8 9 (omega arith) refl ∙ same)
      on8_9 (inr e) = inr e

      carried :
          (y : ℕ)
          → digit y 8 ≡ digit x2 8
          → ((p ≡ negsuc 0) × (digit x2 8 ≡ digit a.1 8)) ⊎ (p ≡ pos (digit a.1 8))
          → ((p ≡ negsuc 0) × (digit y 8 ≡ digit a.1 8)) ⊎ (p ≡ pos (digit a.1 8))
      carried y same (inl (e, f)) = inl (e, same ∙ f)
      carried y same (inr e) = inr e

      every :
          (y z : ℕ)
          → digit y 9 ≡ digit x 9
          → ((j : ℕ) → j < 16 → (j == 9) ≡ false → digit y j ≡ digit x2 j)
          → digit z 8 ≡ digit a.1 8
          → ((j : ℕ) → j < 16 → (j == 8) ≡ false → digit z j ≡ digit y j)
          → (j : ℕ) → j < 16
          → digit z j ≡ digit x j
      every y z y9 yj z8 zj j lt = elim (Bool-cases (j == 8)) [
        | inl e ↦
            let same : j ≡ 8 = (==_iff j 8).0 e in rw same (z8 ∙ on9.others 8 (omega arith) refl)
        | inr e ↦ elim (Bool-cases (j == 9)) [
          | inl f ↦ let same : j ≡ 9 = (==_iff j 9).0 f in rw same (zj 9 (omega arith) refl ∙ y9)
          | inr f ↦ zj j lt e ∙ yj j lt f ∙ others8 j lt e ∙ on9.others j lt f
        ]
      ]

  -- Whatever calls succeed in `open_pfd`, and whether it is asked for `promiscuous`: where
  -- those of the destructor succeed, the flags of the device, 16 bits, are what they were
  -- before.
  pub restore_flags-set_flags :
      (sys1 sys2 : Ioctls) (promisc : Bool) (flags : ℕ)
      → flags < 2 ^ 16
      → restore_flags sys3 sys4
          (set_flags sys1 sys2 promisc flags).0
          (set_flags sys1 sys2 promisc flags).1
        ≡ flags
  unfolding restore_flags set_flags allmulti promiscuous
  restore_flags-set_flags sys1 sys2 true flags small =
      let on9 = turn_on 9 bit_9 (omega arith) (omega arith) sys1 flags small in
      let a = change_flag (2 ^ 9) sys1 (pos 1) flags in
      let on8 = turn_on 8 bit_8 (omega arith) (omega arith) sys2 a.1 on9.small in
      let b = change_flag (2 ^ 8) sys2 (pos 1) a.1 in
      there_and_back flags b.1 a b.0 small on8.small on9 on8.others on8.noted
  restore_flags-set_flags sys1 sys2 false flags small =
      let on9 = turn_on 9 bit_9 (omega arith) (omega arith) sys1 flags small in
      let a = change_flag (2 ^ 9) sys1 (pos 1) flags in
      there_and_back flags a.1 a (negsuc 0) small on9.small on9 (λ j lt ne. refl) (inl (refl, refl))
