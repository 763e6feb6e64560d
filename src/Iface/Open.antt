-- ===== src/Iface/Open.antt =====
-- src/iface.cc, `open_pfd`, and src/proxy.cc, `proxy::open`.
use ndppd.Base.{ℕ, Bool, true, Option, none, some, if◌then◌else◌, get_elem?, set, Bytes}
use ndppd.Base.Int.{ℤ, pos, leb_ℤ}
use ndppd.World.{World, Sockets, find_iface, open_ifd}
use ndppd.Proxy.Options.{create}

-- The system calls of `open_pfd` on a name: `none` where one fails, else the descriptor.
abbrev pub PacketSockets : Type 0
PacketSockets = Bytes → Option ℤ

-- Whether `_map` has the name with a packet socket.
unfoldable pub listening : World → Option ℕ → Option ℕ
listening w none = none
listening w (some i) = elim (get_elem? w.ifaces i) [
  | none ↦ none
  | some ifa ↦ if leb_ℤ (pos 0) ifa.pfd then some i else none
]

-- The interface of this name, or one that `open_ifd` sets up.
unfoldable pub reuse_or_open : Sockets → Bytes → Option ℕ → World → Option ℕ × World
reuse_or_open sys name (some i) w = (some i, w)
reuse_or_open sys name none w = open_ifd sys name w

-- `ifa->_pfd = fd`
unfoldable pub install_pfd : ℕ → ℤ → World → World
install_pfd i fd w = elim (get_elem? w.ifaces i) [
  | none ↦ w
  | some ifa ↦ record w { ifaces = set w.ifaces i (record ifa { pfd = fd }); map_dirty = true }
]

-- `iface::open_pfd(name, promiscuous)`. The flags of the device that it sets are those of
-- Iface.Flags.
unfoldable pub open_pfd : Sockets → PacketSockets → Bytes → World → Option ℕ × World
open_pfd sys packet name w = elim (listening w (find_iface name w.ifaces)) [
  | some i ↦ (some i, w)
  | none ↦
      (let (found, w') = reuse_or_open sys name (find_iface name w.ifaces) w in
        elim found [
          | none ↦ (none, w')
          | some i ↦ elim (packet name) [
            | none ↦ (none, w')
            | some fd ↦ (some i, install_pfd i fd w')
          ]
        ])
]

-- `proxy::open(ifname, promiscuous)`: the number of the proxy.
unfoldable pub open_proxy : Sockets → PacketSockets → Bytes → Bool → World → Option ℕ × World
open_proxy sys packet ifname promiscuous w =
    let (ifa, w') = open_pfd sys packet ifname w in
    elim ifa [
      | none ↦ (none, w')
      | some i ↦ (let (pid, w'') = create i promiscuous w' in (some pid, w''))
    ]
