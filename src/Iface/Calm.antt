-- ===== src/Iface/Calm.antt =====
-- src/iface.cc: a message that is read by a daemon with interface rules alone.
use ndppd.Base.{
  get_below, length, List, ℕ, ◌<◌, ◌≡◌, Bool, true, false, not, List, [], ◌∷◌, some, if◌then◌else◌,
  get_elem?, Bytes, equal_text,
}
use ndppd.Address.{Address, equal, is_unicast}
use ndppd.Output.{advert}
use ndppd.World.{Iface, Rule, Route, Iface, World, Result, ok, send, iface_name, Sockets}
use ndppd.Proxy.{handle_solicit}
use ndppd.Iface.{
  any_daughter, any_serves, find_local, handle_local, read_autovia, reverse_rule, reverse_rules,
  reverse_parents, handle_reverse_advert, solicit_serves, on_solicit,
}
use ndppd.Iface.Safe.{Safe, Safe-bind, Safe-deref, IsWired, AllWired, AllBelow, IsSane}
use ndppd.Iface.NoFault.{proxy_at, send-IsSane, handle_solicit-Safe, handle_stateless_advert-Safe}

pub Safe-if {ℓ} :
    {A : Type ℓ} (Q : A → Type 0) (b : Bool) (x y : Result A)
    → Safe Q x
    → Safe Q y
    → Safe Q (if b then x else y)
Safe-if Q true x y h k = h
Safe-if Q false x y h k = k

module _ (n : ℕ) (fs : List Iface) where
  iface_at :
      (w : World) (i : ℕ)
      → IsSane n fs w
      → i < length fs
      → (f : Iface) × (get_elem? w.ifaces i ≡ some f)
  iface_at w i v lt = get_below w.ifaces i (rw v.iface_table lt)

  any_serves-Safe :
      (w : World) (name : Bytes) (pids : List ℕ)
      → IsSane n fs w
      → AllBelow n pids
      → Safe (λ b. Unit {0}) (any_serves w name pids)
  unfolding any_serves
  any_serves-Safe w name [] v h = tt
  any_serves-Safe w name (pid ∷ pids) v h =
      let (p, at) = proxy_at n fs w pid v h.0 in
      Safe-deref (λ b. Unit {0}) (get_elem? w.proxies pid) _ p at
        (Safe-if (λ b. Unit {0}) (any_daughter w name p.rules) (ok true) _ tt
          (any_serves-Safe w name pids v h.1))

  find_local-Safe :
      (w : World) (serves : List ℕ) (taddr : Address) (ads : List Route)
      → IsSane n fs w
      → AllBelow n serves
      → Safe (λ b. Unit {0}) (find_local w serves taddr ads)
  unfolding find_local
  find_local-Safe w serves taddr [] v h = tt
  find_local-Safe w serves taddr (ad ∷ ads) v h =
      let rest = find_local-Safe w serves taddr ads v h in
      Safe-if (λ b. Unit {0}) (equal ad.addr taddr) _ _
        (Safe-bind (λ b. Unit {0}) (λ b. Unit {0}) (any_serves w ad.ifname serves) _
          (any_serves-Safe w ad.ifname serves v h)
          (λ found k. Safe-if (λ b. Unit {0}) found (ok true) _ tt rest))
        rest

  handle_local-Safe :
      (i : ℕ) (saddr taddr : Address) (w : World)
      → i < length fs
      → IsSane n fs w
      → Safe (λ r. IsSane n fs r.1) (handle_local i saddr taddr w)
  unfolding handle_local
  handle_local-Safe i saddr taddr w lt v =
      let (f, at) = iface_at w i v lt in
      Safe-deref (λ r. IsSane n fs r.1) (get_elem? w.ifaces i) _ f at
        (Safe-bind (λ b. Unit {0}) (λ r. IsSane n fs r.1) (find_local w f.serves taddr w.addresses)
          _ (find_local-Safe w f.serves taddr w.addresses v (v.served i f at))
          (λ found k.
            Safe-if (λ r. IsSane n fs r.1) found
              (ok (true, send (advert i saddr taddr false ∷ []) w)) (ok (false, w))
              (send-IsSane n fs (advert i saddr taddr false ∷ []) w v) v))

  reverse_rule-Safe :
      (sys : Sockets) (pid : ℕ) (saddr : Address) (ifname : Bytes) (ru : Rule) (w : World)
      → pid < n
      → IsWired ru
      → IsSane n fs w
      → Safe (IsSane n fs) (reverse_rule sys pid saddr ifname ru w)
  unfolding reverse_rule read_autovia
  reverse_rule-Safe sys pid saddr ifname ru w lt ((d, has_d), (not_auto, (b, has_b))) v =
      Safe-if (IsSane n fs) (equal ru.addr saddr) _ (ok w)
        (Safe-deref (IsSane n fs) ru.daughter _ d has_d (
          Safe-if (IsSane n fs) (equal_text (iface_name w d) ifname) _ (ok w)
            (rw has_b (handle_stateless_advert-Safe n fs sys pid saddr saddr ifname b w lt v)) v))
        v

  reverse_rules-Safe :
      (sys : Sockets) (pid : ℕ) (saddr : Address) (ifname : Bytes) (rules : List Rule) (w : World)
      → pid < n
      → AllWired rules
      → IsSane n fs w
      → Safe (IsSane n fs) (reverse_rules sys pid saddr ifname rules w)
  unfolding reverse_rules
  reverse_rules-Safe sys pid saddr ifname [] w lt h v = v
  reverse_rules-Safe sys pid saddr ifname (ru ∷ rules) w lt h v =
      Safe-bind (IsSane n fs) (IsSane n fs) (reverse_rule sys pid saddr ifname ru w) _
        (reverse_rule-Safe sys pid saddr ifname ru w lt h.0 v)
        (λ w' v'. reverse_rules-Safe sys pid saddr ifname rules w' lt h.1 v')

  reverse_parents-Safe :
      (sys : Sockets) (saddr : Address) (ifname : Bytes) (pids : List ℕ) (w : World)
      → AllBelow n pids
      → IsSane n fs w
      → Safe (IsSane n fs) (reverse_parents sys saddr ifname pids w)
  unfolding reverse_parents
  reverse_parents-Safe sys saddr ifname [] w h v = v
  reverse_parents-Safe sys saddr ifname (pid ∷ pids) w h v =
      let (p, at) = proxy_at n fs w pid v h.0 in
      Safe-deref (IsSane n fs) (get_elem? w.proxies pid) _ p at (
        Safe-bind (IsSane n fs) (IsSane n fs) (reverse_rules sys pid saddr ifname p.rules w) _
          (reverse_rules-Safe sys pid saddr ifname p.rules w h.0 (v.wired_rules pid p at) v)
          (λ w' v'. reverse_parents-Safe sys saddr ifname pids w' h.1 v'))

  handle_reverse_advert-Safe :
      (sys : Sockets) (i : ℕ) (saddr : Address) (ifname : Bytes) (w : World)
      → i < length fs
      → IsSane n fs w
      → Safe (IsSane n fs) (handle_reverse_advert sys i saddr ifname w)
  unfolding handle_reverse_advert
  handle_reverse_advert-Safe sys i saddr ifname w lt v =
      let (f, at) = iface_at w i v lt in
      Safe-if (IsSane n fs) (not (is_unicast saddr)) (ok w) _ v (
        Safe-deref (IsSane n fs) (get_elem? w.ifaces i) _ f at
          (reverse_parents-Safe sys saddr ifname f.parents w (v.parented i f at) v))

  solicit_serves-Safe :
      (sys : Sockets) (saddr taddr : Address) (pids : List ℕ) (w : World)
      → AllBelow n pids
      → IsSane n fs w
      → Safe (IsSane n fs) (solicit_serves sys saddr taddr pids w)
  unfolding solicit_serves
  solicit_serves-Safe sys saddr taddr [] w h v = v
  solicit_serves-Safe sys saddr taddr (pid ∷ pids) w h v =
      Safe-bind (IsSane n fs) (IsSane n fs) (handle_solicit sys pid saddr taddr w) _
        (handle_solicit-Safe n fs sys pid saddr taddr w h.0 v)
        (λ w' v'. solicit_serves-Safe sys saddr taddr pids w' h.1 v')

  -- In a daemon whose rules all have an interface, a solicitation causes no fault.
  pub on_solicit-Safe :
      (sys : Sockets) (i : ℕ) (saddr taddr : Address) (w : World)
      → i < length fs
      → IsSane n fs w
      → Safe (IsSane n fs) (on_solicit sys i saddr taddr w)
  unfolding on_solicit
  on_solicit-Safe sys i saddr taddr w lt v =
      Safe-bind (λ r. IsSane n fs r.1) (IsSane n fs) (handle_local i saddr taddr w) _
        (handle_local-Safe i saddr taddr w lt v)
        (λ r h. Safe-if (IsSane n fs) r.0 (ok r.1) _ h (
          Safe-bind (IsSane n fs) (IsSane n fs)
            (handle_reverse_advert sys i saddr (iface_name r.1 i) r.1) _
            (handle_reverse_advert-Safe sys i saddr (iface_name r.1 i) r.1 lt h)
            (λ w' v'.
              let (f, at) = iface_at w' i v' lt in
              Safe-deref (IsSane n fs) (get_elem? w'.ifaces i) _ f at
                (solicit_serves-Safe sys saddr taddr f.serves w' (v'.served i f at) v'))))
