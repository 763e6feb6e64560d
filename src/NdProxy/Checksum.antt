-- ===== src/NdProxy/Checksum.antt =====
-- nd-proxy.c, `update_slla_option`: the arithmetic of the checksum.
use ndppd.Base.{
  ℕ, zero, suc, ◌+◌, ◌*◌, ◌/◌, ◌%◌, ◌≤◌, ◌<◌, ◌≡◌, refl, ◌∙◌, ◌==◌, arith, Bool-cases, inl, inr,
}
use ndppd.NdProxy.{fold_carry, complement, update_cksum}

-- One round keeps the sum modulo 2 ^ 16 - 1.
carry-mod : (sum : ℕ) → (sum % 65536 + sum / 65536) % 65535 ≡ sum % 65535
carry-mod sum = omega arith

fold_carry-mod : (rounds sum : ℕ) → fold_carry rounds sum % 65535 ≡ sum % 65535
unfolding fold_carry
fold_carry-mod zero sum = refl
fold_carry-mod (suc rounds) sum = elim (Bool-cases (sum / 65536 == 0)) [
  | inl done ↦ rw done refl
  | inr more ↦ rw more (fold_carry-mod rounds _ ∙ carry-mod sum)
]

-- Two rounds are enough for a sum of three words.
fold_carry-word : (sum : ℕ) → sum ≤ 3 * 65535 → fold_carry 2 sum < 65536
unfolding fold_carry
fold_carry-word sum le = elim (Bool-cases (sum / 65536 == 0)) [
  | inl done ↦ rw done (ground arith)
  | inr more ↦ rw more (elim (Bool-cases ((sum % 65536 + sum / 65536) / 65536 == 0)) [
    | inl done ↦ rw done (ground arith)
    | inr again ↦ rw again (omega arith)
  ])
]

-- The complement of a sum that is the same as that of the three words.
complement-sum :
    (cksum old new f : ℕ)
    → cksum < 65536
    → old < 65536
    → f < 65536
    → f % 65535 ≡ (complement cksum + complement old + new) % 65535
    → (complement f < 65536) × ((complement f + new) % 65535 ≡ (cksum + old) % 65535)
complement-sum cksum old new f a b c e = (omega arith, omega arith)

-- A new checksum is a word, and with the new word it adds up to what the old ones do.
pub update_cksum-sum :
    (cksum old new : ℕ)
    → cksum < 65536
    → old < 65536
    → new < 65536
    → (update_cksum cksum old new < 65536)
      × ((update_cksum cksum old new + new) % 65535 ≡ (cksum + old) % 65535)
unfolding update_cksum
update_cksum-sum cksum old new a b c =
    let sum : ℕ = complement cksum + complement old + new in
    let le : sum ≤ 3 * 65535 = omega arith in
    let word = fold_carry-word sum le in
    let same = fold_carry-mod 2 sum in complement-sum cksum old new (fold_carry 2 sum) a b word same
