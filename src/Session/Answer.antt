-- ===== src/Session/Answer.antt =====
-- src/session.cc: who is answered, and when.
use ndppd.Base.{
  ℕ, ◌≡◌, refl, ◌∙◌, ap, Bool, true, false, ◌&&◌, List, [], ◌∷◌, ◌++◌, map, if◌then◌else◌, arith,
  Bool-cases, Bytes, inl, inr,
}
use ndppd.Base.Int.{ℤ, pos, ◌-ℤ◌, leb_ℤ}
use ndppd.Address.{Address, not_equal}
use ndppd.Output.{Output, solicit, advert, system}
use ndppd.Session.{
  Config, Session, Status, waiting, renewing, valid, invalid, has_pending, add_pending,
  send_solicit, touch, send_advert, host_command, target_command, handle_auto_wire, confirm,
  handle_advert, Verdict, keep, remove, retry, expire, update, is_waiting,
}
use ndppd.Proxy.{answer, serve}

-- The advertisements among what is sent.
abbrev pub replies : List Output → List Output
replies [] = []
replies (advert i d t r ∷ rest) = advert i d t r ∷ replies rest
replies (solicit i t ∷ rest) = replies rest
replies (system c ∷ rest) = replies rest

abbrev pub is_confirmed : Status → Bool
is_confirmed valid = true
is_confirmed renewing = true
is_confirmed _ = false

pub replies-append : (xs ys : List Output) → replies (xs ++ ys) ≡ replies xs ++ replies ys
replies-append [] ys = refl
replies-append (advert i d t r ∷ xs) ys = ap (◌∷◌ (advert i d t r)) (replies-append xs ys)
replies-append (solicit i t ∷ xs) ys = replies-append xs ys
replies-append (system c ∷ xs) ys = replies-append xs ys

replies-adverts :
    (c : Config) (s : Session) (ds : List Address)
    → replies (map (send_advert c s) ds) ≡ map (send_advert c s) ds
unfolding send_advert
replies-adverts c s [] = refl
replies-adverts c s (d ∷ ds) = ap (◌∷◌ (advert c.ifa d s.taddr c.router)) (replies-adverts c s ds)

replies-solicits : (t : Address) (is : List ℕ) → replies (map (λ i. solicit i t) is) ≡ []
replies-solicits t [] = refl
replies-solicits t (i ∷ is) = replies-solicits t is

pub replies-send_solicit : (s : Session) → replies (send_solicit s) ≡ []
unfolding send_solicit
replies-send_solicit s = replies-solicits s.taddr s.ifaces

pub replies-handle_auto_wire :
    (s : Session) (saddr : Address) (ifname : Bytes) (use_via : Bool)
    → replies (handle_auto_wire s saddr ifname use_via).1 ≡ []
unfolding handle_auto_wire host_command target_command
replies-handle_auto_wire s saddr ifname use_via = ground arith

pub taddr-handle_auto_wire :
    (s : Session) (saddr : Address) (ifname : Bytes) (use_via : Bool)
    → (handle_auto_wire s saddr ifname use_via).0.taddr ≡ s.taddr
unfolding handle_auto_wire
taddr-handle_auto_wire s saddr ifname use_via = ground arith

pending-handle_auto_wire :
    (s : Session) (saddr : Address) (ifname : Bytes) (use_via : Bool)
    → (handle_auto_wire s saddr ifname use_via).0.pending ≡ s.pending
unfolding handle_auto_wire
pending-handle_auto_wire s saddr ifname use_via = ground arith

-- An advertisement for a session answers all who wait, in their order, with the target of the
-- session and the router flag of its proxy, and leaves nobody waiting.
pub replies-handle_advert :
    (c : Config) (s : Session) (saddr : Address) (ifname : Bytes) (use_via : Bool)
    → (replies (handle_advert c s saddr ifname use_via).1
        ≡ map (λ d. advert c.ifa d s.taddr c.router) s.pending)
      × ((handle_advert c s saddr ifname use_via).0.pending ≡ [])
unfolding handle_advert confirm
replies-handle_advert c s saddr ifname use_via =
    elim (Bool-cases (s.autowire && is_waiting s.status)) [
      | inl wiring ↦ rw wiring (
        replies-append w.1 (map (send_advert c w.0) w.0.pending)
            ∙ rw (replies-handle_auto_wire s saddr ifname use_via)
                (replies-adverts c w.0 w.0.pending ∙ unfold send_advert in same_answers),
        refl,
      )
      | inr plain ↦ rw plain (replies-adverts c s s.pending ∙ unfold send_advert in refl, refl)
    ]
  where
    w : Session × List Output
    w = handle_auto_wire s saddr ifname use_via

    same_answers :
        map (λ d. advert c.ifa d w.0.taddr c.router) w.0.pending
        ≡ map (λ d. advert c.ifa d s.taddr c.router) s.pending
    same_answers = rw (
      taddr-handle_auto_wire s saddr ifname use_via,
      pending-handle_auto_wire s saddr ifname use_via,
    )

-- A solicitation is answered at once exactly when it comes from another address than its target
-- and the session is valid or being renewed; the only reply goes to its source.
pub replies-serve :
    (c : Config) (s : Session) (saddr taddr : Address)
    → replies (serve c s saddr taddr).1 ≡ (
        if not_equal saddr taddr && is_confirmed s.status
        then advert c.ifa saddr s.taddr c.router ∷ []
        else [])
unfolding serve answer touch send_advert
replies-serve c s saddr taddr =
    ground (arith, replies-send_solicit s, replies-append (send_solicit s) [])

pub taddr-serve :
    (c : Config) (s : Session) (saddr taddr : Address) → (serve c s saddr taddr).0.taddr ≡ s.taddr
unfolding serve answer touch add_pending
taddr-serve c s saddr taddr = ground arith

pending-serve :
    (c : Config) (s : Session) (saddr taddr : Address)
    → is_confirmed s.status ≡ false
    → not_equal saddr taddr ≡ true
    → (serve c s saddr taddr).0.pending
      ≡ (if has_pending saddr s.pending then s.pending else s.pending ++ saddr ∷ [])
unfolding serve answer touch add_pending
pending-serve c s saddr taddr probing other = ground arith

abbrev pub sent_by : Verdict → List Output
sent_by (keep s sent) = sent
sent_by (remove s) = []

replies-retry : (c : Config) (s : Session) → replies (sent_by (retry c s)) ≡ []
unfolding retry
replies-retry c s = replies-send_solicit s

replies-expire : (c : Config) (s : Session) (st : Status) → replies (sent_by (expire c s st)) ≡ []
unfolding expire
replies-expire c s waiting = ground (arith, replies-retry c s)
replies-expire c s renewing = ground (arith, replies-retry c s)
replies-expire c s valid = ground (arith, replies-send_solicit s)
replies-expire c s invalid = refl

-- The passing of time alone never makes a session send an advertisement.
pub replies-update : (c : Config) (t : ℤ) (s : Session) → replies (sent_by (update c t s)) ≡ []
unfolding update
replies-update c t s = elim (Bool-cases (leb_ℤ (pos 0) (s.ttl -ℤ t))) [
  | inl alive ↦ rw alive
  | inr over ↦ rw over (replies-expire c (record s { ttl = s.ttl -ℤ t }) s.status)
]

-- After a solicitation, from another address than the target, for a session that is not
-- confirmed, the next advertisement answers all who waited before and the new one, unless it
-- waited already.
pub replies_after_solicit :
    (c : Config) (s : Session) (saddr taddr from : Address) (ifname : Bytes) (use_via : Bool)
    → is_confirmed s.status ≡ false
    → not_equal saddr taddr ≡ true
    → replies (handle_advert c (serve c s saddr taddr).0 from ifname use_via).1
      ≡ map
          (λ d. advert c.ifa d s.taddr c.router)
          (if has_pending saddr s.pending then s.pending else s.pending ++ saddr ∷ [])
replies_after_solicit c s saddr taddr from ifname use_via probing other =
    (replies-handle_advert c (serve c s saddr taddr).0 from ifname use_via).0
    ∙ rw (taddr-serve c s saddr taddr, pending-serve c s saddr taddr probing other)
