-- ===== src/Iface/Relevant.antt =====
-- src/iface.cc: an advertisement that is read by a daemon with interface rules alone.
use ndppd.Base.{
  get_below, length, List, ℕ, ◌<◌, ◌≡◌, refl, subst, inl, inr, Bool, ◌&&◌, List, [], ◌∷◌, some,
  arith, Bool-cases, Option-cases, get_elem?, Bytes,
}
use ndppd.Address.{Address, equal}
use ndppd.World.{Iface, Rule, World, ok}
use ndppd.Proxy.{handle_advert}
use ndppd.Iface.{read_autovia, has_daughter, relevant_rule, advert_parents, on_advert}
use ndppd.Iface.Safe.{Safe, Safe-bind, Safe-deref, IsWired, AllWired, AllBelow, IsSane}
use ndppd.Iface.NoFault.{proxy_at, handle_advert-Safe}

relevant_rule-IsWired :
    (w : World) (name : Bytes) (taddr : Address) (rules : List Rule) (ru : Rule)
    → AllWired rules
    → relevant_rule w name taddr rules ≡ some ru
    → IsWired ru
unfolding relevant_rule
relevant_rule-IsWired w name taddr [] ru h e = cc
relevant_rule-IsWired w name taddr (r ∷ rules) ru h e =
    elim (Bool-cases (equal r.addr taddr && has_daughter w name r)) [
      | inl hit ↦ let same : r ≡ ru = ground arith in subst IsWired same h.0
      | inr miss ↦ relevant_rule-IsWired w name taddr rules ru h.1 (rw (miss, relevant_rule) at e)
    ]

read_wired : (ru : Rule) (b : Bool) → ru.autovia ≡ some b → read_autovia ru ≡ ok b
unfolding read_autovia
read_wired ru b e = rw (read_autovia, e) refl

module _ (n : ℕ) (fs : List Iface) where
  advert_parents-Safe :
      (saddr taddr : Address) (name : Bytes) (pids : List ℕ) (w : World)
      → AllBelow n pids
      → IsSane n fs w
      → Safe (IsSane n fs) (advert_parents saddr taddr name pids w)
  unfolding advert_parents
  advert_parents-Safe saddr taddr name [] w h v = v
  advert_parents-Safe saddr taddr name (pid ∷ pids) w h v =
      let (p, at) = proxy_at n fs w pid v h.0 in
      Safe-deref (IsSane n fs) (get_elem? w.proxies pid) _ p at
        (elim (Option-cases (relevant_rule w name taddr p.rules)) [
          | inl e ↦ rw e (advert_parents-Safe saddr taddr name pids w h.1 v)
          | inr (ru, e) ↦
              let wired =
                relevant_rule-IsWired w name taddr p.rules ru (v.wired_rules pid p at) e in
              rw (e, read_wired ru wired.1.1.0 wired.1.1.1)
                (Safe-bind (IsSane n fs) (IsSane n fs)
                  (handle_advert pid saddr taddr name wired.1.1.0 w) _
                  (handle_advert-Safe n fs pid saddr taddr name wired.1.1.0 w h.0 v)
                  (λ w' v'. advert_parents-Safe saddr taddr name pids w' h.1 v'))
        ])

  -- An advertisement causes no fault either.
  pub on_advert-Safe :
      (i : ℕ) (saddr taddr : Address) (w : World)
      → i < length fs
      → IsSane n fs w
      → Safe (IsSane n fs) (on_advert i saddr taddr w)
  unfolding on_advert
  on_advert-Safe i saddr taddr w lt v =
      let (f, at) = get_below w.ifaces i (rw v.iface_table lt) in
      Safe-deref (IsSane n fs) (get_elem? w.ifaces i) _ f at
        (advert_parents-Safe saddr taddr f.name f.parents w (v.parented i f at) v)
