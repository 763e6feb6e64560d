-- ===== src/Proxy/Survive.antt =====
-- src/session.cc, `update_all`: the sessions that survive.
use ndppd.Base.{
  ℕ, zero, suc, ◌≡◌, refl, ◌∙◌, ap, sym, subst, inl, inr, Bool, true, false, ◌||◌, List, [], ◌∷◌,
  map, some, ◌==◌, if◌then◌else◌, arith, Bool-cases, Option-cases, get_elem?,
}
use ndppd.Base.Int.{ℤ, pos, ltb_ℤ, leb_ℤ, ◌-ℤ◌}
use ndppd.Address.{Address, equal}
use ndppd.Session.{
  Config, Session, Status, waiting, renewing, valid, invalid, Verdict, keep, remove, retry, expire,
  update, send_solicit,
}
use ndppd.World.{Proxy, World, send, set_proxy}
use ndppd.Proxy.Update.{update_all, update_list, update_one, obey, find_owner}
use ndppd.Proxy.Entries.{holds, Apart, Distinct}
use ndppd.Proxy.Listed.{mem, Once, IsListed, Listed}
use ndppd.Proxy.Aging.{settle, age}
use ndppd.Proxy.Turns.{aged, held, held_at}
use ndppd.Proxy.Elapse.{still_held, update_all-aged}

-- The verdict on a session is about its own target.
abbrev IsAbout : Session → Verdict → Type 0
IsAbout s (keep s' sent) = s'.taddr ≡ s.taddr
IsAbout s (remove s') = Unit {0}

IsAbout-if :
    (b : Bool) (s : Session) (v v' : Verdict)
    → IsAbout s v
    → IsAbout s v'
    → IsAbout s (if b then v else v')
IsAbout-if true s v v' h h' = h
IsAbout-if false s v v' h h' = h'

expire-IsAbout : (c : Config) (s : Session) (st : Status) → IsAbout s (expire c s st)
unfolding expire retry
expire-IsAbout c s waiting =
    IsAbout-if (ltb_ℤ (pos s.fails) s.retries) s (retry c s)
      (keep (record s { status = invalid; ttl = c.deadtime }) []) refl refl
expire-IsAbout c s renewing =
    IsAbout-if (ltb_ℤ (pos s.fails) s.retries) s (retry c s) (remove s) refl tt
expire-IsAbout c s valid =
    IsAbout-if (s.touched || s.keepalive) s
      (keep (record s { status = renewing; ttl = c.timeout; fails = 0; touched = false })
        (send_solicit s))
      (remove s) refl tt
expire-IsAbout c s invalid = tt

update-IsAbout : (c : Config) (t : ℤ) (s : Session) → IsAbout s (update c t s)
unfolding update
update-IsAbout c t s =
    let s' = record s { ttl = s.ttl -ℤ t } in
    IsAbout-if (leb_ℤ (pos 0) s'.ttl) s (keep s' []) (expire c s' s.status) refl
      (again (expire c s' s.status) (expire-IsAbout c s' s.status))
  where
    again : (v : Verdict) → IsAbout (record s { ttl = s.ttl -ℤ t }) v → IsAbout s v
    again (keep s' sent) e = e
    again (remove s') e = e

holds-settle :
    (i j : ℕ) (v : Verdict) (rest : List (ℕ × Session))
    → holds i (settle j v rest) ≡ true
    → ((j == i) || holds i rest) ≡ true
holds-settle i j (keep s sent) rest h = h
holds-settle i j (remove s) rest h = ground arith

holds-age :
    (i : ℕ) (c : Config) (t : ℤ) (xs : List (ℕ × Session))
    → holds i (age c t xs) ≡ true
    → holds i xs ≡ true
holds-age i c t [] h = h
holds-age i c t ((j, s) ∷ xs) h =
    let here = holds-settle i j (update c t s) (age c t xs) h in
    elim (Bool-cases (j == i)) [
      | inl same ↦ ground arith
      | inr other ↦ ground (arith, holds-age i c t xs (ground arith))
    ]

Apart-settle :
    (i : ℕ) (a : Address) (j : ℕ) (s : Session) (v : Verdict) (rest : List (ℕ × Session))
    → IsAbout s v
    → (i == j) ≡ false
    → equal a s.taddr ≡ false
    → Apart i a rest
    → Apart i a (settle j v rest)
Apart-settle i a j s (keep s' sent) rest e h k r = (h, rw e k, r)
Apart-settle i a j s (remove s') rest e h k r = r

Apart-age :
    (i : ℕ) (a : Address) (c : Config) (t : ℤ) (xs : List (ℕ × Session))
    → Apart i a xs
    → Apart i a (age c t xs)
Apart-age i a c t [] h = tt
Apart-age i a c t ((j, s) ∷ xs) h =
    Apart-settle i a j s (update c t s) (age c t xs) (update-IsAbout c t s) h.0 h.1
      (Apart-age i a c t xs h.2)

Distinct-settle :
    (j : ℕ) (s : Session) (v : Verdict) (rest : List (ℕ × Session))
    → IsAbout s v
    → Apart j s.taddr rest
    → Distinct rest
    → Distinct (settle j v rest)
Distinct-settle j s (keep s' sent) rest e h d = (rw e h, d)
Distinct-settle j s (remove s') rest e h d = d

Distinct-age : (c : Config) (t : ℤ) (xs : List (ℕ × Session)) → Distinct xs → Distinct (age c t xs)
Distinct-age c t [] d = tt
Distinct-age c t ((j, s) ∷ xs) d =
    Distinct-settle j s (update c t s) (age c t xs) (update-IsAbout c t s)
      (Apart-age j s.taddr c t xs d.0) (Distinct-age c t xs d.1)

get_elem?-map :
    (f : Proxy → Proxy) (ps : List Proxy) (k : ℕ) (q : Proxy)
    → get_elem? (map f ps) k ≡ some q
    → (p : Proxy) × (get_elem? ps k ≡ some p) × (f p ≡ q)
get_elem?-map f [] k q e = absurd cc
get_elem?-map f (p ∷ ps) zero q e = (p, refl, ground arith)
get_elem?-map f (p ∷ ps) (suc k) q e = get_elem?-map f ps k q e

mem-still_held :
    (i : ℕ) (ps : List Proxy) (weak : List ℕ)
    → mem i (still_held ps weak) ≡ true
    → mem i weak ≡ true
mem-still_held i ps [] h = h
mem-still_held i ps (j ∷ weak) h = ground (arith, mem-still_held i ps weak)

still_held-mem :
    (i : ℕ) (ps : List Proxy) (weak : List ℕ)
    → mem i weak ≡ true
    → held ps i ≡ true
    → mem i (still_held ps weak) ≡ true
still_held-mem i ps [] h k = h
still_held-mem i ps (j ∷ weak) h k = elim (Bool-cases (j == i)) [
  | inl same ↦
      let e : j ≡ i = ground arith in
      let has : held ps j ≡ true = ap (held ps) e ∙ k in rw has (ground arith)
  | inr other ↦ let rest = still_held-mem i ps weak (ground arith) k in ground (arith, rest)
]

Once-still_held : (ps : List Proxy) (weak : List ℕ) → Once weak → Once (still_held ps weak)
Once-still_held ps [] o = tt
Once-still_held ps (j ∷ weak) o =
    let rest = Once-still_held ps weak o.1 in
    elim (Bool-cases (held ps j)) [ inl has ↦ rw has (not_mem, rest) | inr free ↦ rw free rest ]
  where
    not_mem : mem j (still_held ps weak) ≡ false
    not_mem = elim (Bool-cases (mem j (still_held ps weak))) [
      | inl old ↦ absurd (ground (arith, o.0, mem-still_held j ps weak old))
      | inr fresh ↦ fresh
    ]

aged_Listed :
    (t : ℤ) (ps : List Proxy) (weak : List ℕ) (next : ℕ)
    → IsListed ps weak next
    → IsListed (map (aged t) ps) (still_held ps weak) next
aged_Listed t ps weak next v = record {
  listed = λ pid i p e h.
      let (q, there, has) = before pid i p e h in
      still_held-mem i ps weak (v.listed pid i q there has) (held_at i pid ps q there has);
  numbered =
      λ pid i p e h. let (q, there, has) = before pid i p e h in v.numbered pid i q there has;
  owned = λ pid rid i p r e f h k.
      let (q, there, has) = before pid i p e h in
      let (q', there', has') = before rid i r f k in v.owned pid rid i q q' there there' has has';
  distinct = λ pid p e.
      let (q, there, is_p) = get_elem?-map (aged t) ps pid p e in
      subst (λ (r : Proxy). Distinct r.sessions) is_p
        (Distinct-age q.config t q.sessions (v.distinct pid q there));
  weak_numbered = λ i h. v.weak_numbered i (mem-still_held i ps weak h);
  weak_once = Once-still_held ps weak v.weak_once;
}
  where
    before :
        (pid i : ℕ) (p : Proxy)
        → get_elem? (map (aged t) ps) pid ≡ some p
        → holds i p.sessions ≡ true
        → (q : Proxy) × (get_elem? ps pid ≡ some q) × (holds i q.sessions ≡ true)
    before pid i p e h =
        let (q, there, is_p) = get_elem?-map (aged t) ps pid p e in
        (
          q,
          there,
          holds-age i q.config t q.sessions
              (subst (λ (r : Proxy). holds i r.sessions ≡ true) (sym is_p) h),
        )

obey-next :
    (i pid : ℕ) (p : Proxy) (v : Verdict) (w : World)
    → (obey i pid p v w).next_session ≡ w.next_session
unfolding obey send set_proxy
obey-next i pid p (keep s sent) w = refl
obey-next i pid p (remove s) w = refl

update_one-next : (t : ℤ) (i : ℕ) (w : World) → (update_one t i w).1.next_session ≡ w.next_session
unfolding update_one
update_one-next t i w = elim (Option-cases (find_owner i 0 w.proxies)) [
  | inl e ↦ rw (e, update_one) refl
  | inr ((pid, p, s), e) ↦ rw (e, update_one) (obey-next i pid p (update p.config t s) w)
]

update_list-next :
    (t : ℤ) (is : List ℕ) (w : World) → (update_list t is w).1.next_session ≡ w.next_session
unfolding update_list
update_list-next t [] w = refl
update_list-next t (i ∷ is) w = update_list-next t is (update_one t i w).1 ∙ update_one-next t i w

update_all-next : (t : ℤ) (w : World) → (update_all t w).next_session ≡ w.next_session
unfolding update_all
update_all-next t w = update_list-next t w.session_list w

-- After `update_all`, the sessions that survive are still listed, numbered and distinct.
pub update_all-Listed : (t : ℤ) (w : World) → Listed w → Listed (update_all t w)
update_all-Listed t w v =
    rw ((update_all-aged t w v).0, (update_all-aged t w v).1, update_all-next t w)
      (aged_Listed t w.proxies w.session_list w.next_session v)
