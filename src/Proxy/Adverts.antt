-- ===== src/Proxy/Adverts.antt =====
-- src/proxy.cc, `handle_advert`: the sessions that it acts on.
use ndppd.Base.{
  ℕ, ◌≡◌, refl, ◌∙◌, sym, inl, inr, Bool, List, [], ◌∷◌, map, if◌then◌else◌, arith, Bool-cases,
  Option-cases, get_elem?, Bytes,
}
use ndppd.Address.{Address, equal}
use ndppd.Session.{Config, Session, confirm, handle_auto_wire, waiting, Status}
use ndppd.Session
use ndppd.Session.Answer.{taddr-handle_auto_wire}
use ndppd.World.{World, Ensures, send, set_proxy}
use ndppd.Proxy.{advert_all, handle_advert}
use ndppd.Proxy.Entries.{holds, Apart, Distinct}
use ndppd.Proxy.Listed.{Listed, shrink}

taddr-handle_advert :
    (c : Config) (s : Session) (saddr : Address) (ifname : Bytes) (use_via : Bool)
    → (Session.handle_advert c s saddr ifname use_via).0.taddr ≡ s.taddr
unfolding Session.handle_advert confirm
taddr-handle_advert c s saddr ifname use_via =
    ground (arith, taddr-handle_auto_wire s saddr ifname use_via)

-- The list of sessions as one map over its entries.
abbrev pub advert_entry : Config → Address → Address → Bytes → Bool → ℕ × Session → ℕ × Session
advert_entry c saddr taddr ifname use_via (i, s) =
    if equal s.taddr taddr then (i, (Session.handle_advert c s saddr ifname use_via).0) else (i, s)

advert_all-map :
    (c : Config) (saddr taddr : Address) (ifname : Bytes) (use_via : Bool) (xs : List (ℕ × Session))
    → (advert_all c saddr taddr ifname use_via xs).0
      ≡ map (advert_entry c saddr taddr ifname use_via) xs
unfolding advert_all
advert_all-map c saddr taddr ifname use_via [] = refl
advert_all-map c saddr taddr ifname use_via ((i, s) ∷ xs) =
    elim (Bool-cases (equal s.taddr taddr)) [
      | inl hit ↦ rw (hit, advert_all-map c saddr taddr ifname use_via xs) refl
      | inr miss ↦ rw (miss, advert_all-map c saddr taddr ifname use_via xs) refl
    ]

-- A map that leaves the numbers and the targets alone.
module _ (f : ℕ × Session → ℕ × Session)
    (same : (e : ℕ × Session) → ((f e).0 ≡ e.0) × ((f e).1.taddr ≡ e.1.taddr)) where
  holds-map : (i : ℕ) (xs : List (ℕ × Session)) → holds i (map f xs) ≡ holds i xs
  holds-map i [] = refl
  holds-map i (e ∷ xs) = rw ((same e).0, holds-map i xs) refl

  Apart-map : (i : ℕ) (a : Address) (xs : List (ℕ × Session)) → Apart i a xs → Apart i a (map f xs)
  Apart-map i a [] h = tt
  Apart-map i a (e ∷ xs) h = rw ((same e).0, (same e).1) (h.0, h.1, Apart-map i a xs h.2)

  Distinct-map : (xs : List (ℕ × Session)) → Distinct xs → Distinct (map f xs)
  Distinct-map [] d = tt
  Distinct-map (e ∷ xs) d =
      rw ((same e).0, (same e).1) (Apart-map e.0 e.1.taddr xs d.0, Distinct-map xs d.1)

advert_entry-same :
    (c : Config) (saddr taddr : Address) (ifname : Bytes) (use_via : Bool) (e : ℕ × Session)
    → ((advert_entry c saddr taddr ifname use_via e).0 ≡ e.0)
      × ((advert_entry c saddr taddr ifname use_via e).1.taddr ≡ e.1.taddr)
advert_entry-same c saddr taddr ifname use_via (i, s) = elim (Bool-cases (equal s.taddr taddr)) [
  | inl hit ↦ rw hit (refl, taddr-handle_advert c s saddr ifname use_via)
  | inr miss ↦ rw miss (refl, refl)
]

-- An advertisement leaves every session listed, numbered and distinct, unless a fault ends the
-- daemon.
pub handle_advert-Listed :
    (pid : ℕ) (saddr taddr : Address) (ifname : Bytes) (use_via : Bool) (w : World)
    → Listed w
    → Ensures Listed (handle_advert pid saddr taddr ifname use_via w)
unfolding handle_advert send set_proxy
handle_advert-Listed pid saddr taddr ifname use_via w v =
    elim (Option-cases (get_elem? w.proxies pid)) [
      | inl e ↦ rw e tt
      | inr (p, e) ↦
          let f = advert_entry p.config saddr taddr ifname use_via in
          let same = advert_entry-same p.config saddr taddr ifname use_via in
          rw (e, advert_all-map p.config saddr taddr ifname use_via p.sessions)
            (shrink w.proxies w.session_list w.next_session pid p
              (record p { sessions = map f p.sessions }) v e
              (λ i h. sym (holds-map f same i p.sessions) ∙ h)
              (Distinct-map f same p.sessions (v.distinct pid p e)))
    ]
