-- ===== src/Examples/Filtering.antt =====
-- src/iface.cc: the packet filter on a machine that computes, and the flags of a device.
use ndppd.Base.{
  ℕ, zero, suc, ◌+◌, ◌<◌, ◌≡◌, ◌≢◌, refl, ◌↔◌, true, false, List, [], ◌∷◌, ◌++◌, ◌==◌, leb,
  if◌then◌else◌, length, drop, replicate, arith, Bytes,
}
use ndppd.Iface.Flags.{Ioctls, set_flags, restore_flags}
use ndppd.Iface.Flags.Restore.{restore_flags-set_flags}
use ndppd.Iface.Filter.{
  Insn, load_half, load_byte, jump_eq, ret, byte_at, half_at, Machine, filter, run-filter_iff,
}

-- With a number of instructions still to be skipped.
go : ℕ → List Insn → ℕ → Bytes → ℕ
go skip [] a frame = 0
go (suc skip) (i ∷ is) a frame = go skip is a frame
go zero (load_half off ∷ is) a frame =
    let rest = go zero is (half_at frame off) frame in
    if leb (off + 2) (length frame) then rest else 0
go zero (load_byte off ∷ is) a frame =
    let rest = go zero is (byte_at frame off) frame in
    if leb (off + 1) (length frame) then rest else 0
go zero (jump_eq k jt jf ∷ is) a frame = go (if a == k then jt else jf) is a frame
go zero (ret k ∷ is) a frame = k

go-drop :
    (n : ℕ) (is : List Insn) (a : ℕ) (frame : Bytes) → go n is a frame ≡ go 0 (drop n is) a frame
unfolding go
go-drop zero is a frame = refl
go-drop (suc n) [] a frame = refl
go-drop (suc n) (i ∷ is) a frame = go-drop n is a frame

machine : Machine
unfolding go
machine = record {
  run = go 0;
  on_half = λ off a is frame le.
      let fits : leb (off + 2) (length frame) ≡ true = ground arith in rw fits refl;
  on_half_out = λ off a is frame lt.
      let over : leb (off + 2) (length frame) ≡ false = ground arith in rw over refl;
  on_byte = λ off a is frame le.
      let fits : leb (off + 1) (length frame) ≡ true = ground arith in rw fits refl;
  on_byte_out = λ off a is frame lt.
      let over : leb (off + 1) (length frame) ≡ false = ground arith in rw over refl;
  on_jump = λ k jt jf a is frame. go-drop (if a == k then jt else jf) is a frame;
  on_ret = λ k a is frame. refl;
}

-- A solicitation's frame, up to the type of its message.
abbrev solicitation_frame : Bytes
solicitation_frame =
    replicate 12 0
    ++ (0x86 ∷ 0xdd ∷ replicate 6 0 ++ (58 ∷ replicate 33 0 ++ (135 ∷ replicate 31 0)))

run-filter_iff_example : (machine.run filter 0 solicitation_frame ≢ 0) ↔ (
    (54 < length solicitation_frame)
    × (half_at solicitation_frame 12 ≡ 0x86dd)
    × (byte_at solicitation_frame 20 ≡ 58)
    × (byte_at solicitation_frame 54 ≡ 135))
run-filter_iff_example = run-filter_iff machine solicitation_frame 0

-- It is kept.
keeps_solicitation : machine.run filter 0 solicitation_frame ≡ 0xffff_ffff
unfolding machine go filter
keeps_solicitation = refl

abbrev works : Ioctls
works = record { reads = true; writes = true }

abbrev refuses : Ioctls
refuses = record { reads = true; writes = false }

-- A device that is up, with neither flag set.
restore_flags-set_flags_example :
    restore_flags works works
      (set_flags works refuses true 0x1043).0
      (set_flags works refuses true 0x1043).1
    ≡ 0x1043
restore_flags-set_flags_example =
    restore_flags-set_flags works works refl refl refl refl works refuses true 0x1043 (omega arith)
