-- ===== src/Proxy/Elapse.antt =====
-- src/session.cc, `update_all`: what it does to a daemon whose sessions are listed.
use ndppd.Base.{
  ℕ, suc, ◌≡◌, refl, ◌∙◌, ap, sym, inl, inr, true, false, List, [], ◌∷◌, map, some, if◌then◌else◌,
  arith, Bool-cases, get_elem?,
}
use ndppd.Base.Int.{ℤ}
use ndppd.World.{Proxy, World}
use ndppd.Proxy.Update.{update_one, update_list, update_all}
use ndppd.Proxy.Entries.{holds, Distinct}
use ndppd.Proxy.Listed.{Once, Listed}
use ndppd.Proxy.Aging.{age_but_nothing, age_but_all}
use ndppd.Proxy.Turns.{aged, aged_but, held, Sole, update_one-aged}

-- The numbers that are still held.
abbrev pub still_held : List Proxy → List ℕ → List ℕ
still_held ps [] = []
still_held ps (i ∷ is) = if held ps i then i ∷ still_held ps is else still_held ps is

update_list-aged :
    (t : ℤ) (weak : List ℕ) (ps : List Proxy) (w : World)
    → Once weak
    → ((i : ℕ) → Sole i ps)
    → ((k : ℕ) (p : Proxy) → get_elem? ps k ≡ some p → Distinct p.sessions)
    → w.proxies ≡ map (aged_but weak t) ps
    → ((update_list t weak w).0 ≡ still_held ps weak)
      × ((update_list t weak w).1.proxies ≡ map (aged_but [] t) ps)
unfolding update_list
update_list-aged t [] ps w once sole distinct e = (refl, e)
update_list-aged t (i ∷ is) ps w once sole distinct e =
    let here = update_one-aged t i is ps w once.0 (sole i) distinct e in
    let rest = update_list-aged t is ps (update_one t i w).1 once.1 sole distinct here.1 in
    (rw (here.0, rest.0) refl, rest.1)

held-unheld :
    (i : ℕ) (ps : List Proxy)
    → ((k : ℕ) (p : Proxy) → get_elem? ps k ≡ some p → holds i p.sessions ≡ false)
    → held ps i ≡ false
held-unheld i [] h = refl
held-unheld i (p ∷ ps) h = rw (h 0 p refl) (held-unheld i ps (λ k q e. h (suc k) q e))

owned-Sole :
    (i : ℕ) (ps : List Proxy)
    → ((k m : ℕ) (p q : Proxy)
        → get_elem? ps k ≡ some p
        → get_elem? ps m ≡ some q
        → holds i p.sessions ≡ true
        → holds i q.sessions ≡ true
        → k ≡ m)
    → Sole i ps
owned-Sole i [] h = tt
owned-Sole i (p ∷ ps) h = (
  elim (Bool-cases (holds i p.sessions)) [
    | inr free ↦ inl free
    | inl has ↦ inr (
        held-unheld i ps (λ k q e. elim (Bool-cases (holds i q.sessions)) [
          | inr free ↦ free
          | inl too ↦ absurd (omega (arith, h 0 (suc k) p q refl e has too))
        ]))
  ],
  owned-Sole i ps (λ k m q r e f a b. omega (arith, h (suc k) (suc m) q r e f a b)),
)

map_ext :
    (f g : Proxy → Proxy) (ps : List Proxy)
    → ((k : ℕ) (p : Proxy) → get_elem? ps k ≡ some p → f p ≡ g p)
    → map f ps ≡ map g ps
map_ext f g [] h = refl
map_ext f g (p ∷ ps) h =
    ap (λ q. q ∷ map f ps) (h 0 p refl)
    ∙ ap (λ r. g p ∷ r) (map_ext f g ps (λ k q e. h (suc k) q e))

map_id : (ps : List Proxy) → map (λ p. p) ps ≡ ps
map_id [] = refl
map_id (p ∷ ps) = ap (λ r. p ∷ r) (map_id ps)

-- At first every session is due.
map-all_due : (w : World) (t : ℤ) → Listed w → map (aged_but w.session_list t) w.proxies ≡ w.proxies
map-all_due w t v =
    map_ext (aged_but w.session_list t) (λ p. p) w.proxies
      (λ k p e.
        ap (λ xs. record p { sessions = xs })
          (age_but_all w.session_list p.config t p.sessions (λ i h. v.listed k i p e h)))
    ∙ map_id w.proxies

-- At last none is.
map-none_due : (t : ℤ) (ps : List Proxy) → map (aged_but [] t) ps ≡ map (aged t) ps
map-none_due t ps =
    map_ext (aged_but [] t) (aged t) ps
      (λ k p e. ap (λ xs. record p { sessions = xs }) (age_but_nothing p.config t p.sessions))

-- In a daemon whose sessions are listed, `update_all` updates every session of every proxy
-- exactly once, with the options of its own proxy, keeps the order of those that survive, and
-- keeps the weak pointers whose session a proxy held when it started.
pub update_all-aged :
    (t : ℤ) (w : World)
    → Listed w
    → ((update_all t w).proxies ≡ map (aged t) w.proxies)
      × ((update_all t w).session_list ≡ still_held w.proxies w.session_list)
unfolding update_all
update_all-aged t w v =
    let all =
      update_list-aged t w.session_list w.proxies w v.weak_once
        (λ i. owned-Sole i w.proxies (λ k m p q. v.owned k m i p q)) v.distinct
        (sym (map-all_due w t v)) in
    (all.1 ∙ map-none_due t w.proxies, all.0)
