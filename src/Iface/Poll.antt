-- ===== src/Iface/Poll.antt =====
-- src/iface.cc: `iface::poll_all`. `poll` and `recvmsg` are the kernel's.
pub mod Keeps
pub mod Visits
pub mod Pairs
pub mod Safe
use ndppd.Base.{
  ℕ, suc, ◌+◌, ◌*◌, ◌%◌, Bool, true, false, not, ◌&&◌, List, [], ◌∷◌, Option, none, some, ◌==◌,
  if◌then◌else◌, get_elem?, length, Bytes,
}
use ndppd.Base.Int.{ℤ}
use ndppd.World.{Iface, World, Result, ok, throw, past_end, assertion, ◌>>=◌, deref, Sockets}
use ndppd.Iface.{on_solicit, on_advert}
use ndppd.Iface.Map.{iface_map, first, next, fixup_pollfds}
use ndppd.Iface.Packets.{Receipt, failure, loopback, reading, read_solicit, read_advert}

-- `revents & POLLERR` and `revents & POLLIN`
pub record Event : Type 0 where
  pub error : Bool
  pub readable : Bool

pub data Polled : Type 0 where
  poll_failed timed_out : Polled
  ready : List Event → Polled

-- One round of the kernel: what `poll` gives, what `recvmsg` gives at event `k` on a descriptor, and
-- the bytes that stand on the stack where `msg` is.
pub record Kernel : Type 0 where
  pub poll : List ℤ → Polled
  pub recv : ℕ → ℤ → Receipt
  pub stack : ℕ → Bytes

-- `if (_map_dirty) { ... }`
unfoldable pub refresh_pollfds : World → World
refresh_pollfds w =
    if w.map_dirty
    then record w { pollfds = fixup_pollfds w.ifaces (iface_map w.ifaces); map_dirty = false }
    else w

-- The interface at an iterator.
abbrev pub at : Option ℕ → Result ℕ
at none = throw past_end
at (some n) = ok n

-- `if (i && !(i % 2)) i_it++;`
unfoldable pub advance : ℕ → Option ℕ → List Iface → Option ℕ
advance k it fs =
    if not (k == 0) && (k % 2 == 0)
    then elim it [ none ↦ none | some n ↦ next n (iface_map fs) ]
    else it

-- `read_advert` on interface `n` at event `k`, and what is done with the result.
unfoldable pub receive_advert : Kernel → ℕ → ℕ → World → Result World
receive_advert kernel k n w = deref (get_elem? w.ifaces n) >>= λ f.
    elim (read_advert (kernel.recv k f.ifd) (kernel.stack k) w.addresses) [
      | failure ↦ ok w
      | loopback ↦ ok w
      | reading len (saddr, taddr) ↦ on_advert n saddr taddr w
    ]

-- `read_solicit`
unfoldable pub receive_solicit : Sockets → Kernel → ℕ → ℕ → World → Result World
receive_solicit sys kernel k n w = deref (get_elem? w.ifaces n) >>= λ f.
    elim (read_solicit (kernel.recv k f.pfd) (kernel.stack k) w.addresses) [
      | failure ↦ ok w
      | loopback ↦ ok w
      | reading len (saddr, daddr, taddr) ↦ on_solicit sys n saddr taddr w
    ]

-- `if (is_pfd) { ... } else { ... }`
unfoldable pub receive : Sockets → Kernel → ℕ → ℕ → World → Result World
receive sys kernel k n w =
    if k % 2 == 1 then receive_solicit sys kernel k n w else receive_advert kernel k n w

-- The tests of `revents` in front of a read: whether the loop goes on.
unfoldable pub visit : Event → (World → Result World) → World → Result (Bool × World)
visit e read w =
    if e.error
    then ok (false, w)
    else if not e.readable
    then ok (true, w)
    else (read w >>= λ w'. ok (true, w'))

-- The loop, at event `k`, with `i_it` at `it`. Where a handler opens an interface, the map that the
-- iterator walks has it at once.
unfoldable pub poll_loop :
    Sockets → Kernel → ℕ → Option ℕ → List Event → World → Result (Bool × World)
poll_loop sys kernel k it [] w = ok (true, w)
poll_loop sys kernel k it (e ∷ es) w = at it >>= λ _. at (advance k it w.ifaces) >>= λ n.
    visit e (receive sys kernel k n) w >>= λ r. elim r.0 [
      | false ↦ ok r
      | true ↦ poll_loop sys kernel (suc k) (some n) es r.1
    ]

-- `poll_all()`: false where it returns -1.
unfoldable pub poll_all : Sockets → Kernel → World → Result (Bool × World)
poll_all sys kernel w =
    let w' = refresh_pollfds w in
    if length w'.pollfds == 0
    then ok (true, w')
    else if not (length w'.pollfds == length (iface_map w'.ifaces) * 2)
    then throw assertion
    else elim (kernel.poll w'.pollfds) [
      | poll_failed ↦ ok (false, w')
      | timed_out ↦ ok (true, w')
      | ready events ↦ poll_loop sys kernel 0 (first (iface_map w'.ifaces)) events w'
    ]
