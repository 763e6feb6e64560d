-- ===== src/Iface/Keeps.antt =====
-- src/iface.cc: what a message read on an interface does to the sessions.
use ndppd.Base.{
  ℕ, Bool, true, false, not, List, [], ◌∷◌, Option, none, some, if◌then◌else◌, get_elem?, Bytes,
  equal_text,
}
use ndppd.Address.{Address, equal, is_unicast}
use ndppd.Output.{advert}
use ndppd.World.{
  Rule, World, Result, ok, throw, ◌>>=◌, deref, send, iface_name, Sockets, Ensures, Ensures-bind,
}
use ndppd.Proxy.{handle_solicit, handle_advert}
use ndppd.Proxy.Listed.{Listed}
use ndppd.Proxy.Keeps.{handle_solicit-Listed, handle_stateless_advert-Listed}
use ndppd.Proxy.Adverts.{handle_advert-Listed}
use ndppd.Iface.{
  find_local, handle_local, read_autovia, reverse_rule, reverse_rules, reverse_parents,
  handle_reverse_advert, solicit_serves, on_solicit, relevant_rule, advert_parents, on_advert,
}

-- A value that is only looked at does not matter to what the rest ensures.
pub Ensures-look {ℓ κ} :
    {A : Type ℓ} {B : Type κ} (Q : B → Type 0) (m : Result A) (f : A → Result B)
    → ((a : A) → Ensures Q (f a))
    → Ensures Q (m >>= f)
Ensures-look Q (ok a) f h = h a
Ensures-look Q (throw e) f h = tt

pub Ensures-if {ℓ} :
    {A : Type ℓ} (Q : A → Type 0) (b : Bool) (m m' : Result A)
    → Ensures Q m
    → Ensures Q m'
    → Ensures Q (if b then m else m')
Ensures-if Q true m m' h h' = h
Ensures-if Q false m m' h h' = h'

pub Ensures-option {ℓ κ} :
    {A : Type ℓ} {B : Type κ} (Q : B → Type 0) (o : Option A) (m : Result B) (f : A → Result B)
    → Ensures Q m
    → ((a : A) → Ensures Q (f a))
    → Ensures Q (elim o [ none ↦ m | some a ↦ f a ])
Ensures-option Q none m f h h' = h
Ensures-option Q (some a) m f h h' = h' a

solicit_serves-Listed :
    (sys : Sockets) (saddr taddr : Address) (pids : List ℕ) (w : World)
    → Listed w
    → Ensures Listed (solicit_serves sys saddr taddr pids w)
unfolding solicit_serves
solicit_serves-Listed sys saddr taddr [] w v = v
solicit_serves-Listed sys saddr taddr (pid ∷ pids) w v =
    Ensures-bind Listed Listed (handle_solicit sys pid saddr taddr w) _
      (handle_solicit-Listed sys pid saddr taddr w v) (solicit_serves-Listed sys saddr taddr pids)

reverse_rule-Listed :
    (sys : Sockets) (pid : ℕ) (saddr : Address) (ifname : Bytes) (ru : Rule) (w : World)
    → Listed w
    → Ensures Listed (reverse_rule sys pid saddr ifname ru w)
unfolding reverse_rule
reverse_rule-Listed sys pid saddr ifname ru w v =
    Ensures-if Listed (equal ru.addr saddr) _ (ok w)
      (Ensures-look Listed (deref ru.daughter) _ (λ d.
        Ensures-if Listed (equal_text (iface_name w d) ifname) _ (ok w)
          (Ensures-look Listed (read_autovia ru) _
            (λ via. handle_stateless_advert-Listed sys pid saddr saddr ifname via w v))
          v))
      v

reverse_rules-Listed :
    (sys : Sockets) (pid : ℕ) (saddr : Address) (ifname : Bytes) (rules : List Rule) (w : World)
    → Listed w
    → Ensures Listed (reverse_rules sys pid saddr ifname rules w)
unfolding reverse_rules
reverse_rules-Listed sys pid saddr ifname [] w v = v
reverse_rules-Listed sys pid saddr ifname (ru ∷ rules) w v =
    Ensures-bind Listed Listed (reverse_rule sys pid saddr ifname ru w) _
      (reverse_rule-Listed sys pid saddr ifname ru w v)
      (reverse_rules-Listed sys pid saddr ifname rules)

reverse_parents-Listed :
    (sys : Sockets) (saddr : Address) (ifname : Bytes) (pids : List ℕ) (w : World)
    → Listed w
    → Ensures Listed (reverse_parents sys saddr ifname pids w)
unfolding reverse_parents
reverse_parents-Listed sys saddr ifname [] w v = v
reverse_parents-Listed sys saddr ifname (pid ∷ pids) w v =
    Ensures-look Listed (deref (get_elem? w.proxies pid)) _ (λ p.
      Ensures-bind Listed Listed (reverse_rules sys pid saddr ifname p.rules w) _
        (reverse_rules-Listed sys pid saddr ifname p.rules w v)
        (reverse_parents-Listed sys saddr ifname pids))

handle_reverse_advert-Listed :
    (sys : Sockets) (i : ℕ) (saddr : Address) (ifname : Bytes) (w : World)
    → Listed w
    → Ensures Listed (handle_reverse_advert sys i saddr ifname w)
unfolding handle_reverse_advert
handle_reverse_advert-Listed sys i saddr ifname w v =
    Ensures-if Listed (not (is_unicast saddr)) (ok w) _ v (
      Ensures-look Listed (deref (get_elem? w.ifaces i)) _
        (λ ifa. reverse_parents-Listed sys saddr ifname ifa.parents w v))

handle_local-Listed :
    (i : ℕ) (saddr taddr : Address) (w : World)
    → Listed w
    → Ensures (λ r. Listed r.1) (handle_local i saddr taddr w)
unfolding handle_local send
handle_local-Listed i saddr taddr w v =
    Ensures-look (λ r. Listed r.1) (deref (get_elem? w.ifaces i)) _
      (λ ifa.
        Ensures-look (λ r. Listed r.1) (find_local w ifa.serves taddr w.addresses) _
          (λ found.
            Ensures-if (λ r. Listed r.1) found (ok (true, send (advert i saddr taddr false ∷ []) w))
              (ok (false, w)) v v))

-- A solicitation that an interface reads leaves every session listed, numbered and distinct.
pub on_solicit-Listed :
    (sys : Sockets) (i : ℕ) (saddr taddr : Address) (w : World)
    → Listed w
    → Ensures Listed (on_solicit sys i saddr taddr w)
unfolding on_solicit
on_solicit-Listed sys i saddr taddr w v =
    Ensures-bind (λ r. Listed r.1) Listed (handle_local i saddr taddr w) _
      (handle_local-Listed i saddr taddr w v)
      (λ r h. Ensures-if Listed r.0 (ok r.1) _ h (
        Ensures-bind Listed Listed (handle_reverse_advert sys i saddr (iface_name r.1 i) r.1) _
          (handle_reverse_advert-Listed sys i saddr (iface_name r.1 i) r.1 h)
          (λ w' h'.
            Ensures-look Listed (deref (get_elem? w'.ifaces i)) _
              (λ ifa. solicit_serves-Listed sys saddr taddr ifa.serves w' h'))))

advert_parents-Listed :
    (saddr taddr : Address) (name : Bytes) (pids : List ℕ) (w : World)
    → Listed w
    → Ensures Listed (advert_parents saddr taddr name pids w)
unfolding advert_parents
advert_parents-Listed saddr taddr name [] w v = v
advert_parents-Listed saddr taddr name (pid ∷ pids) w v =
    Ensures-look Listed (deref (get_elem? w.proxies pid)) _ (λ p.
      Ensures-option Listed (relevant_rule w name taddr p.rules) _ _
        (advert_parents-Listed saddr taddr name pids w v)
        (λ ru. Ensures-look Listed (read_autovia ru) _ (λ via.
          Ensures-bind Listed Listed (handle_advert pid saddr taddr name via w) _
            (handle_advert-Listed pid saddr taddr name via w v)
            (advert_parents-Listed saddr taddr name pids))))

-- So does an advertisement.
pub on_advert-Listed :
    (i : ℕ) (saddr taddr : Address) (w : World)
    → Listed w
    → Ensures Listed (on_advert i saddr taddr w)
unfolding on_advert
on_advert-Listed i saddr taddr w v =
    Ensures-look Listed (deref (get_elem? w.ifaces i)) _
      (λ ifa. advert_parents-Listed saddr taddr ifa.name ifa.parents w v)
