-- ===== src/Session.antt =====
-- src/session.cc and src/session.h: one session, a target address that is looked for on behalf of a
-- proxy. A method returns the session as it leaves it and what it sends, in order. Integers are not
-- cut to 32 bits. The proxy `_pr` is the one whose list holds the session; a method takes its options.
-- The fields `_saddr` and `_daddr`, which nothing reads, are left out, and so is the text that is logged.
pub mod Life
pub mod Probe
pub mod Wire
pub mod Answer
use ndppd.Base.{
  ℕ, suc, ◌+◌, Bool, true, false, not, ◌&&◌, ◌||◌, List, [], ◌∷◌, ◌++◌, map, ◌==◌, if◌then◌else◌,
  Bytes, codes,
}
use ndppd.Base.Int.{ℤ, pos, ◌-ℤ◌, ltb_ℤ, leb_ℤ}
use ndppd.Address.{Address, equal, not_equal, is_empty, reset, is_unicast, is_multicast}
use ndppd.Output.{Token, word, shown, Output, solicit, advert, system}

-- The options of a proxy that its sessions read, src/proxy.h.
pub record Config : Type 0 where
  pub ifa : ℕ
  pub router : Bool
  pub autowire : Bool
  pub retries : ℤ
  pub keepalive : Bool
  pub ttl : ℤ
  pub deadtime : ℤ
  pub timeout : ℤ

pub data Status : Type 0 where
  waiting renewing valid invalid : Status

pub record Session : Type 0 where
  pub taddr : Address
  pub autowire : Bool
  pub keepalive : Bool
  pub wired : Bool
  pub wired_via : Address
  pub touched : Bool
  pub ifaces : List ℕ
  pub pending : List Address
  pub ttl : ℤ
  pub fails : ℕ
  pub retries : ℤ
  pub status : Status

-- `new session()` has zeroed the fields, so the status is WAITING and no try has failed.
unfoldable pub create : Config → Address → Bool → Bool → ℤ → Session
create c taddr autowire keepalive retries = record {
  taddr = taddr;
  autowire = autowire;
  keepalive = keepalive;
  wired = false;
  wired_via = reset;
  touched = false;
  ifaces = [];
  pending = [];
  ttl = c.ttl;
  fails = 0;
  retries = retries;
  status = waiting;
}

-- `std::find` over a list of pointers.
unfoldable pub has_iface : ℕ → List ℕ → Bool
has_iface i [] = false
has_iface i (x ∷ xs) = (x == i) || has_iface i xs

unfoldable pub add_iface : ℕ → Session → Session
unfolding has_iface
add_iface i s = if has_iface i s.ifaces then s else record s { ifaces = s.ifaces ++ i ∷ [] }

unfoldable pub has_pending : Address → List Address → Bool
has_pending a [] = false
has_pending a (x ∷ xs) = equal a x || has_pending a xs

unfoldable pub add_pending : Address → Session → Session
unfolding has_pending
add_pending a s = if has_pending a s.pending then s else record s { pending = s.pending ++ a ∷ [] }

unfoldable pub send_solicit : Session → List Output
send_solicit s = map (λ i. solicit i s.taddr) s.ifaces

abbrev is_probing : Status → Bool
is_probing waiting = true
is_probing invalid = true
is_probing _ = false

unfoldable pub touch : Config → Session → Session × List Output
touch c s =
    if s.touched
    then (s, [])
    else if is_probing s.status
    then (record s { touched = true; ttl = c.timeout }, send_solicit s)
    else (record s { touched = true }, [])

unfoldable pub send_advert : Config → Session → Address → Output
send_advert c s daddr = advert c.ifa daddr s.taddr c.router

-- ip -6 route VERB
abbrev route_command : Bytes → List Token
route_command verb = word (codes "ip") ∷ word (codes "-6") ∷ word (codes "route") ∷ word verb ∷ []

-- VERB ADDRESS dev IFNAME
unfoldable pub host_command : Bytes → Address → Bytes → Output
host_command verb a ifname =
    system (route_command verb ++ (shown a ∷ word (codes "dev") ∷ word ifname ∷ []))

-- VERB TADDR [via VIA] dev IFNAME
unfoldable pub target_command : Bytes → Address → Address → Bytes → Output
target_command verb taddr via ifname = system (
    route_command verb
    ++ (shown taddr
        ∷ ((if is_empty via then [] else word (codes "via") ∷ shown via ∷ [])
            ++ (word (codes "dev") ∷ word ifname ∷ []))))

-- The choice of a gateway in `handle_auto_wire`.
unfoldable pub takes_via : Session → Address → Bool → Bool
takes_via s saddr use_via =
    use_via && (not_equal s.taddr saddr && (is_unicast saddr && not (is_multicast saddr)))

unfoldable pub is_wired_for : Session → Address → Bool
is_wired_for s saddr = s.wired && (is_empty s.wired_via || equal s.wired_via saddr)

unfoldable pub handle_auto_wire : Session → Address → Bytes → Bool → Session × List Output
handle_auto_wire s saddr ifname use_via =
    if is_wired_for s saddr
    then (s, [])
    else if takes_via s saddr use_via
    then (
      record s { wired = true; wired_via = saddr },
      host_command (codes "replace") saddr ifname
          ∷ target_command (codes "replace") s.taddr saddr ifname
          ∷ [],
    )
    else (
      record s { wired = true; wired_via = reset },
      target_command (codes "replace") s.taddr reset ifname ∷ [],
    )

unfoldable pub handle_auto_unwire : Session → Bytes → Session × List Output
handle_auto_unwire s ifname = (
  record s { wired = false; wired_via = reset },
  target_command (codes "flush") s.taddr s.wired_via ifname
      ∷ (if is_empty s.wired_via then [] else host_command (codes "flush") s.wired_via ifname ∷ []),
)

-- `handle_advert()`: the session is confirmed, and whoever waited for it is answered.
unfoldable pub confirm : Config → Session → Session × List Output
confirm c s = (
  record s { status = valid; ttl = c.ttl; fails = 0; pending = [] },
  map (send_advert c s) s.pending,
)

abbrev is_waiting : Status → Bool
is_waiting waiting = true
is_waiting _ = false

-- `handle_advert(saddr, ifname, use_via)`
unfoldable pub handle_advert : Config → Session → Address → Bytes → Bool → Session × List Output
handle_advert c s saddr ifname use_via =
    if s.autowire && is_waiting s.status
    then (let (s', sent) = handle_auto_wire s saddr ifname use_via in
        let (s'', answers) = confirm c s' in (s'', sent ++ answers))
    else confirm c s

-- What one turn of the loop of `update_all` does to a session that is alive.
pub data Verdict : Type 0 where
  keep : Session → List Output → Verdict
  remove : Session → Verdict

-- Another solicitation.
unfoldable pub retry : Config → Session → Verdict
retry c s = keep (record s { ttl = c.timeout; fails = suc s.fails }) (send_solicit s)

-- The `switch` on the status, for a session whose time is over.
unfoldable pub expire : Config → Session → Status → Verdict
expire c s waiting =
    if ltb_ℤ (pos s.fails) s.retries
    then retry c s
    else keep (record s { status = invalid; ttl = c.deadtime }) []
expire c s renewing = if ltb_ℤ (pos s.fails) s.retries then retry c s else remove s
expire c s valid =
    if s.touched || s.keepalive
    then keep (record s { status = renewing; ttl = c.timeout; fails = 0; touched = false })
        (send_solicit s)
    else remove s
expire c s invalid = remove s

unfoldable pub update : Config → ℤ → Session → Verdict
update c elapsed s =
    let s' = record s { ttl = s.ttl -ℤ elapsed } in
    if leb_ℤ (pos 0) s'.ttl then keep s' [] else expire c s' s'.status

-- The loop of the destructor over the interfaces, whose names are `names`.
unfoldable pub unwire_all : Session → List Bytes → List Output
unwire_all s [] = []
unwire_all s (n ∷ ns) = let (s', sent) = handle_auto_unwire s n in sent ++ unwire_all s' ns

-- `~session()`
unfoldable pub destroy : Session → List Bytes → List Output
unfolding unwire_all
destroy s names = if s.wired then unwire_all s names else []
