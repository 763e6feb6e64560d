-- ===== src/Session/Life.antt =====
-- src/session.cc: the life of a session as a state machine, and what holds of it all the while.
use ndppd.Base.{
  ◌≡◌, refl, ◌⊎◌, inl, inr, Bool, true, false, [], Option, none, some, arith, Bool-cases, ◌≢◌,
  Bytes,
}
use ndppd.Base.Int.{ℤ, pos, ◌-ℤ◌, ◌≤ℤ◌, leb_ℤ}
use ndppd.Address.{Address, is_empty, reset}
use ndppd.Session.{
  Config, Session, Status, waiting, renewing, valid, invalid, create, add_pending, touch,
  handle_auto_wire, confirm, handle_advert, Verdict, keep, remove, retry, expire, update,
}
use ndppd.Proxy.{answer, serve, wire}

-- What happens to a session that its proxy holds.
pub data Event : Type 0 where
  -- A solicitation, from its source, for the target.
  solicited : Address → Address → Event
  -- An advertisement: its source, its interface, and the rule's `autovia`.
  advertised : Address → Bytes → Bool → Event
  -- A stateless advertisement.
  rewired : Address → Bytes → Bool → Event
  -- Time, in milliseconds.
  elapsed : ℤ → Event

abbrev of_verdict : Verdict → Option Session
of_verdict (keep s sent) = some s
of_verdict (remove s) = none

-- The session after the event, unless it is removed.
unfoldable pub step : Config → Session → Event → Option Session
step c s (solicited saddr taddr) = some (serve c s saddr taddr).0
step c s (advertised saddr ifname use_via) = some (handle_advert c s saddr ifname use_via).0
step c s (rewired saddr ifname use_via) = some (wire c s saddr ifname use_via).0
step c s (elapsed t) = of_verdict (update c t s)

-- The states that an event may lead to.
infix 40 ◌⟶◌
pub data ◌⟶◌ : Status → Status → Type 0 where
  stay : {s : Status} → s ⟶ s
  give_up : waiting ⟶ invalid
  confirmed : {s : Status} → s ⟶ valid
  renew : valid ⟶ renewing

-- Whoever waits for an answer waits for a session that is not confirmed.
pub record IsSound (s : Session) : Type 0 where
  pub answered : (s.status ≡ valid) ⊎ (s.status ≡ renewing) → s.pending ≡ []
  pub tried : (s.fails ≡ 0) ⊎ (pos s.fails ≤ℤ s.retries)
  pub gateway : is_empty s.wired_via ≡ false → s.wired ≡ true

pub create-IsSound :
    (c : Config) (taddr : Address) (autowire keepalive : Bool) (retries : ℤ)
    → IsSound (create c taddr autowire keepalive retries)
unfolding create is_empty reset
create-IsSound c taddr autowire keepalive retries = ground arith

serve-status :
    (c : Config) (s : Session) (saddr taddr : Address) → (serve c s saddr taddr).0.status ≡ s.status
unfolding serve answer touch add_pending
serve-status c s saddr taddr = ground arith

handle_auto_wire-status :
    (s : Session) (saddr : Address) (ifname : Bytes) (use_via : Bool)
    → (handle_auto_wire s saddr ifname use_via).0.status ≡ s.status
unfolding handle_auto_wire
handle_auto_wire-status s saddr ifname use_via = ground arith

wire-status :
    (c : Config) (s : Session) (saddr : Address) (ifname : Bytes) (use_via : Bool)
    → (wire c s saddr ifname use_via).0.status ≡ s.status
unfolding wire
wire-status c s saddr ifname use_via =
    ground (arith, handle_auto_wire-status s saddr ifname use_via)

handle_advert-status :
    (c : Config) (s : Session) (saddr : Address) (ifname : Bytes) (use_via : Bool)
    → (handle_advert c s saddr ifname use_via).0.status ≡ valid
unfolding handle_advert confirm
handle_advert-status c s saddr ifname use_via = ground arith

expire-⟶ :
    (c : Config) (s s' : Session) (st : Status)
    → s.status ≡ st
    → of_verdict (expire c s st) ≡ some s'
    → st ⟶ s'.status
unfolding expire retry
expire-⟶ c s s' waiting h e = grind (arith, stay, give_up)
expire-⟶ c s s' renewing h e = grind (arith, stay)
expire-⟶ c s s' valid h e = grind (arith, renew)
expire-⟶ c s s' invalid h e = cc

stays : {a b : Status} → b ≡ a → a ⟶ b
stays {a} e = rw e stay

-- Every event leads along an edge of the state diagram: to the same status, to valid, from
-- waiting to invalid, or from valid to renewing.
pub step-⟶ : (c : Config) (s s' : Session) (e : Event) → step c s e ≡ some s' → s.status ⟶ s'.status
unfolding step update
step-⟶ c s s' (solicited saddr taddr) e = stays (ground (arith, serve-status c s saddr taddr))
step-⟶ c s s' (advertised saddr ifname use_via) e =
    let e' : s'.status ≡ valid = ground (arith, handle_advert-status c s saddr ifname use_via) in
    rw e' confirmed
step-⟶ c s s' (rewired saddr ifname use_via) e =
    stays (ground (arith, wire-status c s saddr ifname use_via))
step-⟶ c s s' (elapsed t) e = elim (Bool-cases (leb_ℤ (pos 0) (s.ttl -ℤ t))) [
  | inl alive ↦ stays (ground arith)
  | inr over ↦ expire-⟶ c _ s' s.status refl (rw over at e)
]

expire-none :
    (c : Config) (s : Session) (st : Status) → of_verdict (expire c s st) ≡ none → st ≢ waiting
unfolding expire retry
expire-none c s waiting e = ground arith
expire-none c s _ e = λ h. cc

-- A session is removed only when its time is over, and never while it waits.
pub step-none :
    (c : Config) (s : Session) (e : Event)
    → step c s e ≡ none
    → (s.status ≢ waiting) × ((t : ℤ) × (e ≡ elapsed t) × (leb_ℤ (pos 0) (s.ttl -ℤ t) ≡ false))
unfolding step update
step-none c s (elapsed t) e = elim (Bool-cases (leb_ℤ (pos 0) (s.ttl -ℤ t))) [
  | inl alive ↦ absurd (ground arith)
  | inr over ↦ (expire-none c _ s.status (rw over at e), (t, refl, over))
]
step-none c s _ e = cc

serve-IsSound :
    (c : Config) (s : Session) (saddr taddr : Address)
    → IsSound s
    → IsSound (serve c s saddr taddr).0
unfolding serve answer touch add_pending
serve-IsSound c s saddr taddr v = ground arith

handle_auto_wire-IsSound :
    (s : Session) (saddr : Address) (ifname : Bytes) (use_via : Bool)
    → IsSound s
    → IsSound (handle_auto_wire s saddr ifname use_via).0
unfolding handle_auto_wire
handle_auto_wire-IsSound s saddr ifname use_via v = ground arith

wire-IsSound :
    (c : Config) (s : Session) (saddr : Address) (ifname : Bytes) (use_via : Bool)
    → IsSound s
    → IsSound (wire c s saddr ifname use_via).0
unfolding wire
wire-IsSound c s saddr ifname use_via v =
    ground (arith, handle_auto_wire-IsSound s saddr ifname use_via v)

handle_advert-IsSound :
    (c : Config) (s : Session) (saddr : Address) (ifname : Bytes) (use_via : Bool)
    → IsSound s
    → IsSound (handle_advert c s saddr ifname use_via).0
unfolding handle_advert confirm
handle_advert-IsSound c s saddr ifname use_via v =
    ground (arith, handle_auto_wire-IsSound s saddr ifname use_via v)

expire-IsSound :
    (c : Config) (s s' : Session) (st : Status)
    → s.status ≡ st
    → IsSound s
    → of_verdict (expire c s st) ≡ some s'
    → IsSound s'
unfolding expire retry
expire-IsSound c s s' waiting h v e = ground arith
expire-IsSound c s s' renewing h v e = ground arith
expire-IsSound c s s' valid h v e = ground arith
expire-IsSound c s s' invalid h v e = cc

-- No event breaks the invariant of a session: a confirmed session keeps nobody waiting, the
-- failed tries are none or within the limit, and a gateway is recorded only while a route is in
-- place.
pub step-IsSound :
    (c : Config) (s s' : Session) (e : Event) → IsSound s → step c s e ≡ some s' → IsSound s'
unfolding step update
step-IsSound c s s' (solicited saddr taddr) v e = ground (arith, serve-IsSound c s saddr taddr v)
step-IsSound c s s' (advertised saddr ifname use_via) v e =
    ground (arith, handle_advert-IsSound c s saddr ifname use_via v)
step-IsSound c s s' (rewired saddr ifname use_via) v e =
    ground (arith, wire-IsSound c s saddr ifname use_via v)
step-IsSound c s s' (elapsed t) v e = elim (Bool-cases (leb_ℤ (pos 0) (s.ttl -ℤ t))) [
  | inl alive ↦ ground arith
  | inr over ↦
      expire-IsSound c (record s { ttl = s.ttl -ℤ t }) s' s.status refl
        (record { answered = v.answered; tried = v.tried; gateway = v.gateway }) (rw over at e)
]
