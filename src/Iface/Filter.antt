-- ===== src/Iface/Filter.antt =====
-- src/iface.cc, `open_pfd`: the packet filter. The machine that runs it is the kernel's, and is known by
-- what is documented of its instructions.
use ndppd.Base.{
  ℕ, ◌+◌, ◌-◌, ◌*◌, ◌^◌, ◌≤◌, ◌<◌, ◌≡◌, ◌≢◌, refl, ◌∙◌, ◌↔◌, inl, inr, List, [], ◌∷◌, ◌==◌, ltb,
  if◌then◌else◌, length, get_or, drop, arith, Bytes, Bool-cases,
}

pub data Insn : Type 0 where
  -- BPF_LD | BPF_H | BPF_ABS and BPF_LD | BPF_B | BPF_ABS
  load_half load_byte : ℕ → Insn
  -- BPF_JMP | BPF_JEQ | BPF_K: the value, and how many instructions are skipped
  jump_eq : ℕ → ℕ → ℕ → Insn
  -- BPF_RET | BPF_K
  ret : ℕ → Insn

abbrev pub byte_at : Bytes → ℕ → ℕ
byte_at frame off = get_or frame off 0

abbrev pub half_at : Bytes → ℕ → ℕ
half_at frame off = 256 * byte_at frame off + byte_at frame (off + 1)

-- The filter machine: the value that instructions return with this accumulator on a frame. A load
-- past the end returns 0.
pub record Machine : Type 0 where
  pub run : List Insn → ℕ → Bytes → ℕ
  pub on_half :
      (off a : ℕ) (is : List Insn) (frame : Bytes)
      → off + 2 ≤ length frame
      → run (load_half off ∷ is) a frame ≡ run is (half_at frame off) frame
  pub on_half_out :
      (off a : ℕ) (is : List Insn) (frame : Bytes)
      → length frame < off + 2
      → run (load_half off ∷ is) a frame ≡ 0
  pub on_byte :
      (off a : ℕ) (is : List Insn) (frame : Bytes)
      → off + 1 ≤ length frame
      → run (load_byte off ∷ is) a frame ≡ run is (byte_at frame off) frame
  pub on_byte_out :
      (off a : ℕ) (is : List Insn) (frame : Bytes)
      → length frame < off + 1
      → run (load_byte off ∷ is) a frame ≡ 0
  pub on_jump :
      (k jt jf a : ℕ) (is : List Insn) (frame : Bytes)
      → run (jump_eq k jt jf ∷ is) a frame ≡ run (drop (if a == k then jt else jf) is) a frame
  pub on_ret : (k a : ℕ) (is : List Insn) (frame : Bytes) → run (ret k ∷ is) a frame ≡ k

-- The array `filter`. An Ethernet header has 14 bytes, its type at 12; an IPv6 header has 40, the next
-- header at 6.
unfoldable pub filter : List Insn
filter =
    load_half 12
    ∷ jump_eq 0x86dd 0 5
    ∷ load_byte (14 + 6)
    ∷ jump_eq 58 0 3
    ∷ load_byte (14 + 40)
    ∷ jump_eq 135 0 1
    ∷ ret (2 ^ 32 - 1)
    ∷ ret 0
    ∷ []

module _ (m : Machine) (frame : Bytes) where
  drops : (a : ℕ) → m.run (ret 0 ∷ []) a frame ≡ 0
  drops a = m.on_ret 0 a [] frame

  is_solicit :
      (a : ℕ)
      → m.run (jump_eq 135 0 1 ∷ ret (2 ^ 32 - 1) ∷ ret 0 ∷ []) a frame
        ≡ (if a == 135 then 2 ^ 32 - 1 else 0)
  is_solicit a = elim (Bool-cases (a == 135)) [
    | inl e ↦
        m.on_jump 135 0 1 a (ret (2 ^ 32 - 1) ∷ ret 0 ∷ []) frame
        ∙ rw e (m.on_ret (2 ^ 32 - 1) a (ret 0 ∷ []) frame)
    | inr e ↦ m.on_jump 135 0 1 a (ret (2 ^ 32 - 1) ∷ ret 0 ∷ []) frame ∙ rw e (drops a)
  ]

  -- From the load of the message's type on.
  from_type :
      (a : ℕ)
      → m.run (load_byte 54 ∷ jump_eq 135 0 1 ∷ ret (2 ^ 32 - 1) ∷ ret 0 ∷ []) a frame
        ≡ (if ltb 54 (length frame) then (if byte_at frame 54 == 135 then 2 ^ 32 - 1 else 0) else 0)
  from_type a = elim (Bool-cases (ltb 54 (length frame))) [
    | inl e ↦ m.on_byte 54 a _ frame (ground arith) ∙ is_solicit (byte_at frame 54) ∙ rw e refl
    | inr e ↦ m.on_byte_out 54 a _ frame (ground arith) ∙ rw e refl
  ]

  -- Whether the filter keeps a message, behind the headers.
  abbrev kept_type : ℕ
  kept_type =
      if ltb 54 (length frame) then (if byte_at frame 54 == 135 then 2 ^ 32 - 1 else 0) else 0

  abbrev kept_header : ℕ
  kept_header =
      if ltb 20 (length frame) then (if byte_at frame 20 == 58 then kept_type else 0) else 0

  is_icmp :
      (a : ℕ)
      → m.run
          (jump_eq 58 0 3 ∷ load_byte 54 ∷ jump_eq 135 0 1 ∷ ret (2 ^ 32 - 1) ∷ ret 0 ∷ [])
          a
          frame
        ≡ (if a == 58 then kept_type else 0)
  is_icmp a = elim (Bool-cases (a == 58)) [
    | inl e ↦ m.on_jump 58 0 3 a _ frame ∙ rw e (from_type a)
    | inr e ↦ m.on_jump 58 0 3 a _ frame ∙ rw e (drops a)
  ]

  from_header :
      (a : ℕ)
      → m.run
          (load_byte 20
            ∷ jump_eq 58 0 3
            ∷ load_byte 54
            ∷ jump_eq 135 0 1
            ∷ ret (2 ^ 32 - 1)
            ∷ ret 0
            ∷ [])
          a
          frame
        ≡ kept_header
  from_header a = elim (Bool-cases (ltb 20 (length frame))) [
    | inl e ↦ m.on_byte 20 a _ frame (ground arith) ∙ is_icmp (byte_at frame 20) ∙ rw e refl
    | inr e ↦ m.on_byte_out 20 a _ frame (ground arith) ∙ rw e refl
  ]

  is_ipv6 :
      (a : ℕ)
      → m.run
          (jump_eq 0x86dd 0 5
            ∷ load_byte 20
            ∷ jump_eq 58 0 3
            ∷ load_byte 54
            ∷ jump_eq 135 0 1
            ∷ ret (2 ^ 32 - 1)
            ∷ ret 0
            ∷ [])
          a
          frame
        ≡ (if a == 0x86dd then kept_header else 0)
  is_ipv6 a = elim (Bool-cases (a == 0x86dd)) [
    | inl e ↦ m.on_jump 0x86dd 0 5 a _ frame ∙ rw e (from_header a)
    | inr e ↦ m.on_jump 0x86dd 0 5 a _ frame ∙ rw e (drops a)
  ]

  run-filter :
      (a : ℕ)
      → m.run filter a frame ≡ (
          if ltb 13 (length frame)
          then (if half_at frame 12 == 0x86dd then kept_header else 0)
          else 0)
  unfolding filter
  run-filter a = elim (Bool-cases (ltb 13 (length frame))) [
    | inl e ↦ m.on_half 12 a _ frame (ground arith) ∙ is_ipv6 (half_at frame 12) ∙ rw e refl
    | inr e ↦ m.on_half_out 12 a _ frame (ground arith) ∙ rw e refl
  ]

  -- On a machine that runs packet filters as it is documented, the filter of `open_pfd` keeps
  -- a frame exactly when it has at least 55 bytes, the Ethernet type of IPv6, ICMPv6 as the
  -- next header, and a neighbour solicitation as the type of its message.
  pub run-filter_iff :
      (a : ℕ)
      → (m.run filter a frame ≢ 0) ↔ (
          (54 < length frame)
          × (half_at frame 12 ≡ 0x86dd)
          × (byte_at frame 20 ≡ 58)
          × (byte_at frame 54 ≡ 135))
  run-filter_iff a = rw (run-filter a) tests
    where
      tests :
          ((if ltb 13 (length frame)
              then (if half_at frame 12 == 0x86dd then kept_header else 0)
              else 0)
            ≢ 0)
          ↔ ((54 < length frame)
              × (half_at frame 12 ≡ 0x86dd)
              × (byte_at frame 20 ≡ 58)
              × (byte_at frame 54 ≡ 135))
      tests = ground arith
