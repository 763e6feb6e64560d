-- ===== src/Examples/Sessions.antt =====
-- src/session.cc at concrete sessions.
use ndppd.Base.{
  ℕ, ◌≡◌, ◌≢◌, refl, true, false, ◌&&◌, List, [], ◌∷◌, ◌++◌, map, none, replicate, arith, codes,
  if◌then◌else◌,
}
use mathlib.Core.List.{reverse}
use ndppd.Base.Int.{ℤ, pos, leb_ℤ, ◌-ℤ◌}
use ndppd.Address.{
  Address, not_equal, is_empty, reset, word, zip_with, nonzero, masked_word, differing,
}
use ndppd.Output.{advert}
use ndppd.Session.{
  Config, Session, waiting, renewing, valid, invalid, has_pending, send_solicit, target_command,
  handle_auto_wire, handle_auto_unwire, handle_advert, destroy, update,
}
use ndppd.Proxy.{serve}
use ndppd.Session.Life.{advertised, elapsed, step, IsSound, ◌⟶◌, step-⟶, step-IsSound, step-none}
use ndppd.Session.Answer.{
  replies, is_confirmed, sent_by, replies-handle_advert, replies-serve, replies-update,
  replies_after_solicit,
}
use ndppd.Session.Probe.{silence, repeat, silence-waiting, silence-renewing}
use ndppd.Session.Wire.{undo, handle_auto_unwire-handle_auto_wire, destroy_lem}

abbrev host : ℕ → Address
host n = record { addr = 0x11 ∷ 0x11 ∷ replicate 13 0 ++ n ∷ []; mask = replicate 16 255 }

abbrev options : Config
options = record {
  ifa = 0;
  router = true;
  autowire = true;
  retries = pos 3;
  keepalive = true;
  ttl = pos 30000;
  deadtime = pos 3000;
  timeout = pos 500;
}

-- A session that waits for host 1 on interface 1, on behalf of host 2.
abbrev looking : Session
looking = record {
  taddr = host 1;
  autowire = true;
  keepalive = true;
  wired = false;
  wired_via = reset;
  touched = true;
  ifaces = 1 ∷ [];
  pending = host 2 ∷ [];
  ttl = pos 500;
  fails = 1;
  retries = pos 3;
  status = waiting;
}

abbrev renewed : Session
renewed = record looking { status = renewing; pending = [] }

looking-IsSound : IsSound looking
unfolding is_empty reset
looking-IsSound = ground arith

step-IsSound_example : IsSound (handle_advert options looking (host 1) (codes "eth1") false).0
unfolding step
step-IsSound_example =
    step-IsSound options looking _ (advertised (host 1) (codes "eth1") false) looking-IsSound refl

step-⟶_example : waiting ⟶ valid
unfolding step handle_advert ndppd.Session.confirm
step-⟶_example =
    step-⟶ options looking (handle_advert options looking (host 1) (codes "eth1") false).0
      (advertised (host 1) (codes "eth1") false) refl

-- Three tries have failed.
abbrev worn_out : Session
worn_out = record renewed { fails = 3 }

step-none_example :
    (worn_out.status ≢ waiting)
    × ((t : ℤ) × (elapsed (pos 501) ≡ elapsed t) × (leb_ℤ (pos 0) (worn_out.ttl -ℤ t) ≡ false))
unfolding step update ndppd.Session.expire ◌-ℤ◌
step-none_example = step-none options worn_out (elapsed (pos 501)) refl

replies-handle_advert_example :
    (replies (handle_advert options looking (host 1) (codes "eth1") false).1
      ≡ advert 0 (host 2) (host 1) true ∷ [])
    × ((handle_advert options looking (host 1) (codes "eth1") false).0.pending ≡ [])
replies-handle_advert_example = replies-handle_advert options looking (host 1) (codes "eth1") false

replies-serve_example : replies (serve options looking (host 3) (host 1)).1 ≡ (
    if not_equal (host 3) (host 1) && is_confirmed waiting
    then advert 0 (host 3) (host 1) true ∷ []
    else [])
replies-serve_example = replies-serve options looking (host 3) (host 1)

replies-update_example : replies (sent_by (update options (pos 501) looking)) ≡ []
replies-update_example = replies-update options (pos 501) looking

replies_after_solicit_example :
    replies
      (handle_advert options
        (serve options looking (host 3) (host 1)).0
        (host 1)
        (codes "eth1")
        false).1
    ≡ map
        (λ d. advert 0 d (host 1) true)
        (if has_pending (host 3) (host 2 ∷ []) then host 2 ∷ [] else host 2 ∷ host 3 ∷ [])
replies_after_solicit_example =
    replies_after_solicit options looking (host 3) (host 1) (host 1) (codes "eth1") false refl
      (unfold not_equal differing masked_word word zip_with nonzero in refl)

abbrev turns : List ℤ
turns = pos 5000 ∷ pos 5000 ∷ pos 5000 ∷ pos 5000 ∷ []

silence-waiting_example : silence options turns looking ≡ (none, repeat 2 (send_solicit looking))
silence-waiting_example =
    silence-waiting 2 options turns looking refl refl (omega arith) (ground arith) (omega arith)

silence-renewing_example : silence options turns renewed ≡ (none, repeat 2 (send_solicit renewed))
silence-renewing_example =
    silence-renewing 2 options turns renewed refl refl (omega arith) (ground arith) (omega arith)

abbrev wired_twice : Session
wired_twice = record looking { wired = true; wired_via = host 9; ifaces = 1 ∷ 2 ∷ [] }

handle_auto_unwire-handle_auto_wire_example :
    (handle_auto_unwire (handle_auto_wire looking (host 9) (codes "eth1") true).0 (codes "eth1")).1
    ≡ reverse (map undo (handle_auto_wire looking (host 9) (codes "eth1") true).1)
handle_auto_unwire-handle_auto_wire_example =
    handle_auto_unwire-handle_auto_wire looking (host 9) (codes "eth1") true refl

destroy_lem_example :
    destroy wired_twice (codes "eth1" ∷ codes "eth2" ∷ [])
    ≡ (handle_auto_unwire wired_twice (codes "eth1")).1
      ++ target_command (codes "flush") (host 1) reset (codes "eth2") ∷ []
destroy_lem_example = destroy_lem wired_twice (codes "eth1") (codes "eth2" ∷ []) refl
