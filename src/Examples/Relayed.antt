-- ===== src/Examples/Relayed.antt =====
-- nd-proxy.c: a router solicitation that goes from one interface to another.
use ndppd.Base.{
  Bool, true, ltb, ◌&&◌, ℕ, zero, suc, ◌%◌, ◌≡◌, refl, [], ◌∷◌, ◌++◌, some, length, get_elem?,
  replicate, arith, Bytes, codes, equal_text, Every,
}
use ndppd.Iface.Packets.{copy_to}
use ndppd.NdProxy.{
  Port, handle_fd, forward, proxy_rsra, update_slla_option, update_word, word_at, word_bytes,
  update_cksum, fold_carry, find_option, find_from, option_start, is_ignored, is_proxied,
  parse_interface, at_colon, tokens, add_flags, flag_of,
}
use ndppd.NdProxy.Words.{word_sum, IsBytes}
use ndppd.NdProxy.Update.{update_slla_option-word_sum}
use ndppd.NdProxy.Forward.{Given, IsElsewhere, handle_fd-IsElsewhere}

abbrev inner : Port
inner = record { name = codes "eth1"; flags = 1; ifindex = 2; hwaddr = 2 ∷ 0 ∷ 0 ∷ 0 ∷ 0 ∷ 1 ∷ [] }

abbrev outer : Port
outer = record { name = codes "eth2"; flags = 2; ifindex = 3; hwaddr = 2 ∷ 0 ∷ 0 ∷ 0 ∷ 0 ∷ 7 ∷ [] }

-- A solicitation with the address of its sender, 70 bytes.
abbrev solicitation : ℕ → ℕ → Bytes
solicitation last cksum =
    (0x33 ∷ 0x33 ∷ 0 ∷ 0 ∷ 0 ∷ 2 ∷ 2 ∷ 0 ∷ 0 ∷ 0 ∷ 0 ∷ last ∷ 0x86 ∷ 0xdd ∷ [])
    ++ (replicate 8 0
        ++ ((0xfe ∷ replicate 15 0)
            ++ ((0xff ∷ replicate 15 0)
                ++ (133 ∷ 0 ∷ 0x12 ∷ cksum ∷ 0 ∷ 0 ∷ 0 ∷ 0 ∷ 1 ∷ 1 ∷ 2 ∷ 0 ∷ 0 ∷ 0 ∷ 0 ∷ last
                    ∷ []))))

handle_fd_test :
    handle_fd (inner ∷ outer ∷ []) 0 (some (70, solicitation 9 0x30))
    ≡ some (record { ifindex = 3; bytes = solicitation 7 0x32 } ∷ [])
unfolding handle_fd forward proxy_rsra update_slla_option update_word word_at word_bytes
    update_cksum fold_carry find_option find_from option_start is_ignored is_proxied copy_to
handle_fd_test = refl

parse_interface_test : parse_interface (codes "eth1:RS,,NA") ≡ some (codes "eth1", 9)
unfolding parse_interface at_colon tokens add_flags flag_of equal_text
parse_interface_test = refl

handle_fd-IsElsewhere_example :
    Given
      (Every (IsElsewhere (inner ∷ outer ∷ []) 0))
      (handle_fd (inner ∷ outer ∷ []) 0 (some (70, solicitation 9 0x30)))
handle_fd-IsElsewhere_example =
    handle_fd-IsElsewhere (inner ∷ outer ∷ []) 0 (some (70, solicitation 9 0x30)) six
  where
    six : (m : ℕ) (p : Port) → get_elem? (inner ∷ outer ∷ []) m ≡ some p → length p.hwaddr ≡ 6
    six zero p e = ground arith
    six (suc zero) p e = ground arith
    six (suc (suc m)) p e = absurd cc

below : Bytes → Bool
below [] = true
below (b ∷ bs) = ltb b 256 && below bs

below-IsBytes : (bs : Bytes) → below bs ≡ true → IsBytes bs
unfolding below
below-IsBytes [] h = tt
below-IsBytes (b ∷ bs) h = (ground arith, below-IsBytes bs (ground arith))

update_slla_option-word_sum_example :
    Given
      (λ after. word_sum after % 65535 ≡ word_sum (solicitation 9 0x30) % 65535)
      (update_slla_option 16 outer.hwaddr (solicitation 9 0x30))
unfolding below
update_slla_option-word_sum_example =
    update_slla_option-word_sum 16 outer.hwaddr (solicitation 9 0x30) refl
      (below-IsBytes outer.hwaddr refl) (below-IsBytes (solicitation 9 0x30) refl)
