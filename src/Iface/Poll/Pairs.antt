-- ===== src/Iface/Poll/Pairs.antt =====
-- src/iface.cc: the loop of `poll_all` over descriptors, against one over interfaces.
use ndppd.Base.{
  ℕ, suc, ◌*◌, ◌%◌, ◌<◌, ◌≡◌, refl, ap, sym, ◌∙◌, subst, Bool, true, false, List, [], ◌∷◌, ◌++◌,
  append_assoc, Option, some, inl, inr, Bool-cases, ◌==◌, length, arith,
}
use ndppd.World.{Iface, World, Result, ok, throw, ◌>>=◌, Sockets}
use ndppd.Iface.Safe.{Safe, IsSane}
use ndppd.Iface.Map.{Entry, iface_map, first, next}
use ndppd.Iface.Map.Walk.{Within, Within-at, Once, iface_map-Within, iface_map-Once, next-Once}
use ndppd.Iface.Poll.{
  Event, Kernel, advance, receive, receive_solicit, receive_advert, visit, poll_loop,
}
use ndppd.Iface.Poll.Visits.{Sane, receive_solicit-Safe, receive_advert-Safe, visit-Safe}

abbrev pub continue_with : Bool × World → (World → Result (Bool × World)) → Result (Bool × World)
continue_with r f = elim r.0 [ false ↦ ok r | true ↦ f r.1 ]

-- Two events for each interface: an advertisement on its `_ifd`, then a solicitation on its `_pfd`.
abbrev pub by_pairs : Sockets → Kernel → ℕ → List Entry → List Event → World → Result (Bool × World)
by_pairs sys kernel k ((key, n) ∷ map) (a ∷ b ∷ es) w =
    visit a (receive_advert kernel k n) w >>= λ r. continue_with r (λ w'.
      visit b (receive_solicit sys kernel (suc k) n) w' >>= λ r'.
      continue_with r' (by_pairs sys kernel (suc (suc k)) map es))
by_pairs sys kernel k _ _ w = ok (true, w)

-- Two continuations that agree after every safe result.
bind_same :
    {A B : Type 0} (P : A → Type 0) (m : Result A) (f g : A → Result B)
    → Safe P m
    → ((a : A) → P a → f a ≡ g a)
    → (m >>= f) ≡ (m >>= g)
bind_same P (ok a) f g h same = same a h
bind_same P (throw e) f g h same = absurd h

continue_same :
    (P : World → Type 0) (r : Bool × World) (f g : World → Result (Bool × World))
    → P r.1
    → ((w : World) → P w → f w ≡ g w)
    → continue_with r f ≡ continue_with r g
continue_same P r f g h same = elim (Bool-cases r.0) [
  | inr stop ↦ rw stop refl
  | inl on ↦ rw on (same r.1 h)
]

visit_same :
    (e : Event) (read read' : World → Result World) (w : World)
    → read w ≡ read' w
    → visit e read w ≡ visit e read' w
unfolding visit
visit_same e read read' w same = rw same refl

module _ (n : ℕ) (fs : List Iface) (sys : Sockets) (kernel : Kernel) where
  step :
      (k x i : ℕ) (it : Option ℕ) (e : Event) (es : List Event) (w : World)
      → it ≡ some x
      → advance k it w.ifaces ≡ some i
      → poll_loop sys kernel k it (e ∷ es) w ≡ (
          visit e (receive sys kernel k i) w >>= λ r.
          continue_with r (poll_loop sys kernel (suc k) (some i) es))
  unfolding poll_loop
  step k x i it e es w here there = rw there (rw here refl)

  receive_even :
      (k i : ℕ) (w : World) → k % 2 ≡ 0 → receive sys kernel k i w ≡ receive_advert kernel k i w
  unfolding receive
  receive_even k i w even = let tested : (k % 2 == 1) ≡ false = ground arith in rw tested refl

  receive_odd :
      (k i : ℕ) (w : World)
      → k % 2 ≡ 0
      → receive sys kernel (suc k) i w ≡ receive_solicit sys kernel (suc k) i w
  unfolding receive
  receive_odd k i w even = let tested : (suc k % 2 == 1) ≡ true = ground arith in rw tested refl

  advance_odd : (k : ℕ) (it : Option ℕ) (gs : List Iface) → k % 2 ≡ 0 → advance (suc k) it gs ≡ it
  unfolding advance
  advance_odd k it gs even =
      let tested : (suc k % 2 == 0) ≡ false = ground arith in
      let later : (suc k == 0) ≡ false = ground arith in rw (tested, later) refl

  advance_even :
      (k i : ℕ) (gs : List Iface)
      → k % 2 ≡ 0
      → advance (suc (suc k)) (some i) gs ≡ next i (iface_map gs)
  unfolding advance
  advance_even k i gs even =
      let tested : (suc (suc k) % 2 == 0) ≡ true = ground arith in
      let later : (suc (suc k) == 0) ≡ false = ground arith in rw (tested, later) refl

  -- Events `k` and `k + 1`, at the entry of interface `i`.
  pair_of_events :
      (k x i : ℕ) (key : List ℕ) (it : Option ℕ) (post : List Entry) (a b : Event) (es : List Event)
      (w : World)
      → k % 2 ≡ 0
      → it ≡ some x
      → advance k it w.ifaces ≡ some i
      → i < length fs
      → ((w' : World)
          → IsSane n fs w'
          → poll_loop sys kernel (suc (suc k)) (some i) es w'
            ≡ by_pairs sys kernel (suc (suc k)) post es w')
      → IsSane n fs w
      → poll_loop sys kernel k it (a ∷ b ∷ es) w
        ≡ by_pairs sys kernel k ((key, i) ∷ post) (a ∷ b ∷ es) w
  pair_of_events k x i key it post a b es w even here there lt rest v =
      step k x i it a (b ∷ es) w here there
      ∙ ap (λ m. m >>= λ r. continue_with r (poll_loop sys kernel (suc k) (some i) (b ∷ es)))
          (visit_same a (receive sys kernel k i) (receive_advert kernel k i) w
            (receive_even k i w even))
      ∙ bind_same (Sane n fs) _ _ _
          (visit-Safe n fs a (receive_advert kernel k i) w v
            (receive_advert-Safe n fs sys kernel k i w lt v))
          (λ r h. continue_same (IsSane n fs) r _ _ h second)
    where
      second :
          (w' : World)
          → IsSane n fs w'
          → poll_loop sys kernel (suc k) (some i) (b ∷ es) w' ≡ (
              visit b (receive_solicit sys kernel (suc k) i) w' >>= λ r'.
              continue_with r' (by_pairs sys kernel (suc (suc k)) post es))
      second w' v' =
          step (suc k) i i (some i) b es w' refl (advance_odd k (some i) w'.ifaces even)
          ∙ ap (λ m. m >>= λ r. continue_with r (poll_loop sys kernel (suc (suc k)) (some i) es))
              (visit_same b (receive sys kernel (suc k) i) (receive_solicit sys kernel (suc k) i) w'
                (receive_odd k i w' even))
          ∙ bind_same (Sane n fs) _ _ _
              (visit-Safe n fs b (receive_solicit sys kernel (suc k) i) w' v'
                (receive_solicit-Safe n fs sys kernel (suc k) i w' lt v'))
              (λ r h. continue_same (IsSane n fs) r _ _ h rest)

  walk :
      (pre post : List Entry) (k x : ℕ) (it : Option ℕ) (es : List Event) (w : World)
      → iface_map fs ≡ pre ++ post
      → length es ≡ length post * 2
      → k % 2 ≡ 0
      → it ≡ some x
      → advance k it fs ≡ first post
      → IsSane n fs w
      → poll_loop sys kernel k it es w ≡ by_pairs sys kernel k post es w
  unfolding poll_loop first
  walk pre [] k x it [] w split sized even here there v = refl
  walk pre [] k x it (e ∷ es) w split sized even here there v = absurd (omega arith)
  walk pre ((key, i) ∷ post) k x it [] w split sized even here there v = absurd (omega arith)
  walk pre ((key, i) ∷ post) k x it (e ∷ []) w split sized even here there v = absurd (omega arith)
  walk pre ((key, i) ∷ post) k x it (a ∷ b ∷ es) w split sized even here there v =
      pair_of_events k x i key it post a b es w even here (ap (advance k it) v.iface_table ∙ there)
        (Within-at 0 (length fs) pre post key i
          (subst (Within 0 (length fs)) split (iface_map-Within fs)))
        (λ w' v'.
          walk (pre ++ ((key, i) ∷ [])) post (suc (suc k)) i (some i) es w'
            (split ∙ sym (append_assoc pre ((key, i) ∷ []) post)) (omega arith) (omega arith) refl
            (advance_even k i fs even
              ∙ ap (next i) split
              ∙ next-Once pre post key i (subst Once split (iface_map-Once fs)))
            v')
        v

  start :
      (map : List Entry) (es : List Event) (w : World)
      → iface_map fs ≡ map
      → length es ≡ length map * 2
      → IsSane n fs w
      → poll_loop sys kernel 0 (first map) es w ≡ by_pairs sys kernel 0 map es w
  unfolding poll_loop first advance
  start [] [] w split sized v = refl
  start [] (e ∷ es) w split sized v = absurd (omega arith)
  start ((key, i) ∷ map) es w split sized v =
      walk [] ((key, i) ∷ map) 0 i (some i) es w split sized refl refl refl v

  -- In a daemon whose rules all have an interface, the loop of `poll_all` over the descriptors
  -- does what a loop over the interfaces in the order of their names does: the first event of
  -- each is for an advertisement on its `_ifd`, the second for a solicitation on its `_pfd`.
  pub poll_loop-by_pairs :
      (es : List Event) (w : World)
      → length es ≡ length (iface_map fs) * 2
      → IsSane n fs w
      → poll_loop sys kernel 0 (first (iface_map w.ifaces)) es w
        ≡ by_pairs sys kernel 0 (iface_map fs) es w
  poll_loop-by_pairs es w sized v =
      ap (λ gs. poll_loop sys kernel 0 (first (iface_map gs)) es w) v.iface_table
      ∙ start (iface_map fs) es w refl sized v
