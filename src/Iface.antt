-- ===== src/Iface.antt =====
-- src/iface.cc: what `poll_all` does with a message that has been read on interface `i`.
pub mod Keeps
pub mod Safe
pub mod NoFault
pub mod Calm
pub mod Relevant
pub mod Packets
pub mod Map
pub mod Poll
pub mod Open
pub mod Filter
pub mod Flags
use ndppd.Base.{
  ℕ, Bool, true, false, not, ◌&&◌, List, [], ◌∷◌, Option, none, some, if◌then◌else◌, get_elem?,
  Bytes, equal_text,
}
use ndppd.Address.{Address, equal, is_unicast}
use ndppd.Output.{Output, advert}
use ndppd.World.{
  Rule, Proxy, Route, Iface, World, Result, ok, throw, indeterminate, ◌>>=◌, deref, send,
  iface_name, Sockets,
}
use ndppd.Proxy.{handle_solicit, handle_stateless_advert, handle_advert}

-- `iface::is_local(addr)`, over `address::_addresses`.
unfoldable pub is_local : Address → List Route → Bool
is_local a [] = false
is_local a (r ∷ rs) = if equal r.addr a then true else is_local a rs

-- `ru->daughter() && ru->daughter()->name() == name`
unfoldable pub has_daughter : World → Bytes → Rule → Bool
has_daughter w name ru = elim ru.daughter [
  | none ↦ false
  | some d ↦ equal_text (iface_name w d) name
]

unfoldable pub any_daughter : World → Bytes → List Rule → Bool
any_daughter w name [] = false
any_daughter w name (ru ∷ rules) =
    if has_daughter w name ru then true else any_daughter w name rules

-- The loop of `handle_local` over the proxies that this interface serves.
unfoldable pub any_serves : World → Bytes → List ℕ → Result Bool
any_serves w name [] = ok false
any_serves w name (pid ∷ pids) = deref (get_elem? w.proxies pid) >>= λ p.
    (let rest = any_serves w name pids in if any_daughter w name p.rules then ok true else rest)

-- The outer loop of `handle_local`, over the addresses of this machine.
unfoldable pub find_local : World → List ℕ → Address → List Route → Result Bool
find_local w serves taddr [] = ok false
find_local w serves taddr (ad ∷ ads) =
    let rest = find_local w serves taddr ads in
    if equal ad.addr taddr
    then (any_serves w ad.ifname serves >>= λ found. if found then ok true else rest)
    else rest

-- `ifa->handle_local(saddr, taddr)`
unfoldable pub handle_local : ℕ → Address → Address → World → Result (Bool × World)
handle_local i saddr taddr w = deref (get_elem? w.ifaces i) >>= λ ifa.
    find_local w ifa.serves taddr w.addresses >>= λ found.
    if found then ok (true, send (advert i saddr taddr false ∷ []) w) else ok (false, w)

-- `ru->autovia()`
unfoldable pub read_autovia : Rule → Result Bool
read_autovia ru = elim ru.autovia [ none ↦ throw indeterminate | some b ↦ ok b ]

-- The body of the inner loop of `handle_reverse_advert`.
unfoldable pub reverse_rule : Sockets → ℕ → Address → Bytes → Rule → World → Result World
reverse_rule sys pid saddr ifname ru w =
    if equal ru.addr saddr
    then (deref ru.daughter >>= λ d.
        if equal_text (iface_name w d) ifname
        then (read_autovia ru >>= λ via. handle_stateless_advert sys pid saddr saddr ifname via w)
        else ok w)
    else ok w

unfoldable pub reverse_rules : Sockets → ℕ → Address → Bytes → List Rule → World → Result World
reverse_rules sys pid saddr ifname [] w = ok w
reverse_rules sys pid saddr ifname (ru ∷ rules) w =
    reverse_rule sys pid saddr ifname ru w >>= reverse_rules sys pid saddr ifname rules

unfoldable pub reverse_parents : Sockets → Address → Bytes → List ℕ → World → Result World
reverse_parents sys saddr ifname [] w = ok w
reverse_parents sys saddr ifname (pid ∷ pids) w = deref (get_elem? w.proxies pid) >>= λ p.
    reverse_rules sys pid saddr ifname p.rules w >>= reverse_parents sys saddr ifname pids

-- `ifa->handle_reverse_advert(saddr, ifname)`
unfoldable pub handle_reverse_advert : Sockets → ℕ → Address → Bytes → World → Result World
handle_reverse_advert sys i saddr ifname w =
    if not (is_unicast saddr)
    then ok w
    else (deref (get_elem? w.ifaces i) >>= λ ifa. reverse_parents sys saddr ifname ifa.parents w)

unfoldable pub solicit_serves : Sockets → Address → Address → List ℕ → World → Result World
solicit_serves sys saddr taddr [] w = ok w
solicit_serves sys saddr taddr (pid ∷ pids) w =
    handle_solicit sys pid saddr taddr w >>= solicit_serves sys saddr taddr pids

-- A solicitation read on interface `i`.
unfoldable pub on_solicit : Sockets → ℕ → Address → Address → World → Result World
on_solicit sys i saddr taddr w = handle_local i saddr taddr w >>= λ local.
    if local.0
    then ok local.1
    else (handle_reverse_advert sys i saddr (iface_name local.1 i) local.1 >>= λ w'.
        deref (get_elem? w'.ifaces i) >>= λ ifa. solicit_serves sys saddr taddr ifa.serves w')

-- The first rule that lets an advertisement for `taddr` in from the interface of this name.
unfoldable pub relevant_rule : World → Bytes → Address → List Rule → Option Rule
relevant_rule w name taddr [] = none
relevant_rule w name taddr (ru ∷ rules) =
    if equal ru.addr taddr && has_daughter w name ru
    then some ru
    else relevant_rule w name taddr rules

unfoldable pub advert_parents : Address → Address → Bytes → List ℕ → World → Result World
advert_parents saddr taddr name [] w = ok w
advert_parents saddr taddr name (pid ∷ pids) w = deref (get_elem? w.proxies pid) >>= λ p.
    elim (relevant_rule w name taddr p.rules) [
      | none ↦ advert_parents saddr taddr name pids w
      | some ru ↦ read_autovia ru >>= λ via.
          handle_advert pid saddr taddr name via w >>= advert_parents saddr taddr name pids
    ]

-- An advertisement read on interface `i`.
unfoldable pub on_advert : ℕ → Address → Address → World → Result World
on_advert i saddr taddr w =
    deref (get_elem? w.ifaces i) >>= λ ifa. advert_parents saddr taddr ifa.name ifa.parents w
