-- ===== src/Iface/Flags.antt =====
-- src/iface.cc: `allmulti`, `promiscuous`, and where `open_pfd` and the destructor call them. The flags
-- of a device, 16 bits, are the kernel's; they are read and written by ioctls, which may fail.
pub mod Change
pub mod Restore
use Prim.Native.Nat.{bit_and, bit_or}
use ndppd.Base.{ℕ, ◌-◌, ◌^◌, Bool, true, false, not, ◌==◌, if◌then◌else◌}
use ndppd.Base.Int.{ℤ, pos, negsuc, leb_ℤ}

-- Whether SIOCGIFFLAGS and SIOCSIFFLAGS succeed.
pub record Ioctls : Type 0 where
  pub reads : Bool
  pub writes : Bool

-- `!!value`, as 0 or 1.
abbrev pub truth : Bool → ℕ
truth b = if b then 1 else 0

abbrev pub is_set : ℤ → Bool
is_set (pos n) = not (n == 0)
is_set (negsuc n) = true

-- What `allmulti(state)` and `promiscuous(state)` do with the flag of this mask: their result, and
-- the flags.
unfoldable pub change_flag : ℕ → Ioctls → ℤ → ℕ → ℤ × ℕ
change_flag mask sys state flags =
    let old = not (bit_and flags mask == 0) in
    if not sys.reads
    then (negsuc 0, flags)
    else if truth (is_set state) == truth old
    then (pos (truth old), flags)
    else if not sys.writes
    then (negsuc 0, flags)
    else (
      pos (truth old),
      if is_set state then bit_or flags mask else bit_and flags (2 ^ 16 - 1 - mask),
    )

-- IFF_ALLMULTI is 0x200.
unfoldable pub allmulti : Ioctls → ℤ → ℕ → ℤ × ℕ
allmulti = change_flag 0x200

-- IFF_PROMISC is 0x100.
unfoldable pub promiscuous : Ioctls → ℤ → ℕ → ℤ × ℕ
promiscuous = change_flag 0x100

-- `_prev_allmulti` and `_prev_promiscuous`
pub record Previous : Type 0 where
  pub allmulti : ℤ
  pub promiscuous : ℤ

-- The end of `open_pfd`: what the interface keeps, and the flags.
unfoldable pub set_flags : Ioctls → Ioctls → Bool → ℕ → Previous × ℕ
set_flags sys sys' promisc flags =
    let (old, flags') = allmulti sys (pos 1) flags in
    if promisc
    then (let (old', flags'') = promiscuous sys' (pos 1) flags' in
        (record { allmulti = old; promiscuous = old' }, flags''))
    else (record { allmulti = old; promiscuous = negsuc 0 }, flags')

-- `if (previous >= 0) change(previous);`
unfoldable pub put_back : (ℤ → ℕ → ℤ × ℕ) → ℤ → ℕ → ℕ
put_back change previous flags = if leb_ℤ (pos 0) previous then (change previous flags).1 else flags

-- The destructor.
unfoldable pub restore_flags : Ioctls → Ioctls → Previous → ℕ → ℕ
restore_flags sys sys' old flags =
    put_back (promiscuous sys') old.promiscuous (put_back (allmulti sys) old.allmulti flags)
