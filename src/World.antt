-- ===== src/World.antt =====
-- The objects of the daemon and its static tables: src/proxy.h, src/rule.h, src/route.h, src/iface.h.
-- A proxy or an interface is named by its number, which stands for the pointer to it. The entry of an
-- interface stays, also where the program frees one that an automatic route alone has kept. A session is owned by the list `_sessions` of its proxy alone, so the
-- object is kept there, beside its number, and the weak list `session::_sessions` holds numbers.
use ndppd.Base.{
  ◌≡◌, subst, arith, ℕ, suc, Bool, true, false, List, [], ◌∷◌, ◌++◌, map, Option, none, some, ◌==◌,
  if◌then◌else◌, length, get_elem?, set, Bytes, equal_text,
}
use ndppd.Base.Int.{ℤ, pos, negsuc}
use ndppd.Address.{Address, equal}
use ndppd.Output.{Output}
use ndppd.Session.{Config, Session}

pub record Rule : Type 0 where
  pub addr : Address
  pub daughter : Option ℕ
  pub aut : Bool
  -- `none` while the field has not been written: the constructor leaves it alone.
  pub autovia : Option Bool

pub record Proxy : Type 0 where
  pub config : Config
  pub rules : List Rule
  pub sessions : List (ℕ × Session)
  pub promiscuous : Bool

pub record Route : Type 0 where
  pub addr : Address
  pub ifname : Bytes
  pub ifa : Option ℕ

pub record Iface : Type 0 where
  pub name : Bytes
  pub ifd : ℤ
  pub pfd : ℤ
  pub hwaddr : List ℕ
  pub serves : List ℕ
  pub parents : List ℕ

pub record World : Type 0 where
  -- proxy::_list, in the order of creation
  pub proxies : List Proxy
  pub ifaces : List Iface
  -- route::_routes and address::_addresses
  pub routes : List Route
  pub addresses : List Route
  -- session::_sessions
  pub session_list : List ℕ
  pub next_session : ℕ
  -- rule::_any_aut, rule::_any_static and rule::_any_iface
  pub any_aut : Bool
  pub any_static : Bool
  pub any_iface : Bool
  -- iface::_map_dirty and the descriptors of iface::_pollfds, each of which has events = POLLIN
  pub map_dirty : Bool
  pub pollfds : List ℤ
  -- What has been sent since the start.
  pub out : List Output

pub data Fault : Type 0 where
  -- `throw new invalid_pointer`, which nothing catches
  invalid_pointer : Fault
  -- a field is read that nothing has written
  indeterminate : Fault
  -- an iterator at the end of a container is read
  past_end : Fault
  -- an `assert` fails
  assertion : Fault

pub data Result {ℓ} (A : Type ℓ) : Type ℓ where
  ok : A → Result A
  throw : Fault → Result A

infixl 5 ◌>>=◌
abbrev pub ◌>>=◌ {ℓ κ} : {A : Type ℓ} {B : Type κ} → Result A → (A → Result B) → Result B
ok a >>= f = f a
throw e >>= f = throw e

-- `operator->` of a pointer.
abbrev pub deref {ℓ} : {A : Type ℓ} → Option A → Result A
deref none = throw invalid_pointer
deref (some a) = ok a

unfoldable pub send : List Output → World → World
send sent w = record w { out = w.out ++ sent }

unfoldable pub set_proxy : ℕ → Proxy → World → World
set_proxy i p w = record w { proxies = set w.proxies i p }

-- `ifa->name()`; the number of an interface is always below the length of the table.
unfoldable pub iface_name : World → ℕ → Bytes
iface_name w i = elim (get_elem? w.ifaces i) [ none ↦ [] | some ifa ↦ ifa.name ]

unfoldable pub iface_names : World → List ℕ → List Bytes
iface_names w = map (iface_name w)

-- The number of the first interface of this name: `_map.find(name)`.
unfoldable pub find_iface : Bytes → List Iface → Option ℕ
find_iface name [] = none
find_iface name (i ∷ is) =
    if equal_text i.name name
    then some 0
    else elim (find_iface name is) [ none ↦ none | some n ↦ some (suc n) ]

-- The system calls of `open_ifd` on a name: `none` where one fails, else the descriptor and the
-- link-layer address.
abbrev pub Sockets : Type 0
Sockets = Bytes → Option (ℤ × List ℕ)

abbrev is_nonzero : ℤ → Bool
is_nonzero (pos n) = if n == 0 then false else true
is_nonzero (negsuc n) = true

-- The end of `open_ifd`: a new interface, or the descriptor of an old one replaced.
unfoldable pub install_ifd : Option ℕ → Bytes → ℤ → List ℕ → World → ℕ × World
install_ifd none name fd hw w = (
  length w.ifaces,
  record w {
    ifaces =
        w.ifaces
        ++ record { name = name; ifd = fd; pfd = negsuc 0; hwaddr = hw; serves = []; parents = [] }
          ∷ [];
    map_dirty = true;
  },
)
install_ifd (some i) name fd hw w = (
  i,
  elim (get_elem? w.ifaces i) [
    | none ↦ w
    | some ifa ↦ record w {
      ifaces = set w.ifaces i (record ifa { ifd = fd; hwaddr = hw });
      map_dirty = true;
    }
  ],
)

-- Whether `_map` has the name with a descriptor that is not 0.
unfoldable pub opened : World → Option ℕ → Option ℕ
opened w none = none
opened w (some i) = elim (get_elem? w.ifaces i) [
  | none ↦ none
  | some ifa ↦ if is_nonzero ifa.ifd then some i else none
]

-- `iface::open_ifd(name)`
unfoldable pub open_ifd : Sockets → Bytes → World → Option ℕ × World
open_ifd sys name w = elim (opened w (find_iface name w.ifaces)) [
  | some i ↦ (some i, w)
  | none ↦ elim (sys name) [
    | none ↦ (none, w)
    | some (fd, hw) ↦
        (let (i, w') = install_ifd (find_iface name w.ifaces) name fd hw w in (some i, w'))
  ]
]

-- `route::find(addr)`: the number of the first route that matches, and the route.
unfoldable pub find_route : Address → List Route → Option (ℕ × Route)
find_route a [] = none
find_route a (r ∷ rs) =
    if equal r.addr a
    then some (0, r)
    else elim (find_route a rs) [ none ↦ none | some (n, rt) ↦ some (suc n, rt) ]

-- `route::ifa()` of route number `n`
unfoldable pub route_ifa : Sockets → ℕ → Route → World → Option ℕ × World
route_ifa sys n r w = elim r.ifa [
  | none ↦
      (let (i, w') = open_ifd sys r.ifname w in
        (i, record w' { routes = set w'.routes n (record r { ifa = i }) }))
  | some i ↦ (none, w)
]

-- What holds of the result, unless a fault ends the daemon.
abbrev pub Ensures {ℓ κ} : {A : Type ℓ} → (A → Type κ) → Result A → Type κ
Ensures P (ok a) = P a
Ensures P (throw e) = Unit

pub Ensures-bind {ℓ κ μ} :
    {A : Type ℓ} {B : Type κ} (P : A → Type μ) (Q : B → Type μ) (m : Result A) (f : A → Result B)
    → Ensures P m
    → ((a : A) → P a → Ensures Q (f a))
    → Ensures Q (m >>= f)
Ensures-bind P Q (ok a) f p step = step a p
Ensures-bind P Q (throw e) f p step = tt

pub Ensures-weaken {ℓ κ μ} :
    {A : Type ℓ} {P : A → Type κ} {Q : A → Type μ} (m : Result A)
    → ((a : A) → P a → Q a)
    → Ensures P m
    → Ensures Q m
Ensures-weaken (ok a) f p = f a p
Ensures-weaken (throw e) f p = tt

-- A result that is there.
pub Ensures_ok : {A : Type 0} (P : A → Type 0) (m : Result A) (a : A) → Ensures P m → m ≡ ok a → P a
Ensures_ok P (ok b) a h e = subst P (ground arith) h
Ensures_ok P (throw f) a h e = absurd cc
