-- ===== src/Daemon/Configure/Built.antt =====
-- src/ndppd.cc, `configure`: what holds of the tables while they are built.
use ndppd.Base.{
  ℕ, suc, ◌<◌, ◌≡◌, refl, ap, ◌∙◌, sym, subst, true, List, [], ◌∷◌, ◌++◌, Option, none, some, ◌⊎◌,
  inl, inr, Option-cases, get_elem?, length, length-append, set, arith, Bytes, Every, Every-get,
  Every-set, Every-append, Every-map,
}
use ndppd.Base.Int.{ℤ}
use ndppd.World.{Rule, Proxy, Iface, World, Sockets, find_iface, install_ifd, opened, open_ifd}
use ndppd.Proxy.Options.{add_serves, add_parent}
use ndppd.Iface.Safe.{AllBelow}
use ndppd.Iface.Open.{PacketSockets, listening, reuse_or_open, install_pfd, open_pfd}

-- No session yet, and rules of this kind alone.
abbrev pub IsIdle : (Rule → Type 0) → Proxy → Type 0
IsIdle P p = (p.sessions ≡ []) × Every P p.rules

-- The proxies that an interface names are there.
abbrev pub IsKnown : ℕ → Iface → Type 0
IsKnown n f = AllBelow n f.serves × AllBelow n f.parents

pub record IsBuilt (P : Rule → Type 0) (w : World) : Type 0 where
  pub idle : Every (IsIdle P) w.proxies
  pub no_pointers : w.session_list ≡ []
  pub known : Every (IsKnown (length w.proxies)) w.ifaces
  -- `poll_all` looks at the interfaces first, unless there are none.
  pub dirty : (w.map_dirty ≡ true) ⊎ ((w.ifaces ≡ []) × (w.pollfds ≡ []))

module _ (P : Rule → Type 0) where
  -- Another table of interfaces, which `poll_all` looks at first.
  reopened :
      (w : World) (fs : List Iface)
      → IsBuilt P w
      → Every (IsKnown (length w.proxies)) fs
      → IsBuilt P (record w { ifaces = fs; map_dirty = true })
  reopened w fs v h = record {
    idle = v.idle;
    no_pointers = v.no_pointers;
    known = h;
    dirty = inl refl;
  }

  install_ifd-IsBuilt :
      (o : Option ℕ) (name : Bytes) (fd : ℤ) (hw : List ℕ) (w : World)
      → IsBuilt P w
      → IsBuilt P (install_ifd o name fd hw w).1
  unfolding install_ifd
  install_ifd-IsBuilt none name fd hw w v =
      reopened w _ v (Every-append (IsKnown (length w.proxies)) w.ifaces _ v.known ((tt, tt), tt))
  install_ifd-IsBuilt (some i) name fd hw w v = elim (Option-cases (get_elem? w.ifaces i)) [
    | inl e ↦ rw (e, install_ifd) v
    | inr (f, e) ↦
        rw (e, install_ifd)
          (reopened w _ v (
            Every-set (IsKnown (length w.proxies)) w.ifaces i _ v.known
              (Every-get (IsKnown (length w.proxies)) w.ifaces i f v.known e)))
  ]

  pub open_ifd-IsBuilt :
      (sys : Sockets) (name : Bytes) (w : World) → IsBuilt P w → IsBuilt P (open_ifd sys name w).1
  unfolding open_ifd
  open_ifd-IsBuilt sys name w v = elim (Option-cases (opened w (find_iface name w.ifaces))) [
    | inr (i, e) ↦ rw (e, open_ifd) v
    | inl e ↦ elim (Option-cases (sys name)) [
      | inl f ↦ rw (e, open_ifd) (rw (f, open_ifd) v)
      | inr (opening, f) ↦
          rw (e, open_ifd)
            (rw (f, open_ifd)
              (install_ifd-IsBuilt (find_iface name w.ifaces) name opening.0 opening.1 w v))
    ]
  ]

  install_pfd-IsBuilt : (i : ℕ) (fd : ℤ) (w : World) → IsBuilt P w → IsBuilt P (install_pfd i fd w)
  unfolding install_pfd
  install_pfd-IsBuilt i fd w v = elim (Option-cases (get_elem? w.ifaces i)) [
    | inl e ↦ rw (e, install_pfd) v
    | inr (f, e) ↦
        rw (e, install_pfd)
          (reopened w _ v (
            Every-set (IsKnown (length w.proxies)) w.ifaces i _ v.known
              (Every-get (IsKnown (length w.proxies)) w.ifaces i f v.known e)))
  ]

  reuse_or_open-IsBuilt :
      (sys : Sockets) (name : Bytes) (o : Option ℕ) (w : World)
      → IsBuilt P w
      → IsBuilt P (reuse_or_open sys name o w).1
  unfolding reuse_or_open
  reuse_or_open-IsBuilt sys name (some i) w v = v
  reuse_or_open-IsBuilt sys name none w v = open_ifd-IsBuilt sys name w v

  -- The end of `open_pfd`.
  listen :
      (packet : PacketSockets) (name : Bytes) (found : Option ℕ) (w : World)
      → IsBuilt P w
      → IsBuilt P
          (elim found as (λ _. Option ℕ × World) [
            | none ↦ (none, w)
            | some i ↦ elim (packet name) [
              | none ↦ (none, w)
              | some fd ↦ (some i, install_pfd i fd w)
            ]
          ]).1
  listen packet name none w v = v
  listen packet name (some i) w v = elim (Option-cases (packet name)) [
    | inl e ↦ rw e v
    | inr (fd, e) ↦ rw e (install_pfd-IsBuilt i fd w v)
  ]

  pub open_pfd-IsBuilt :
      (sys : Sockets) (packet : PacketSockets) (name : Bytes) (w : World)
      → IsBuilt P w
      → IsBuilt P (open_pfd sys packet name w).1
  unfolding open_pfd
  open_pfd-IsBuilt sys packet name w v =
      elim (Option-cases (listening w (find_iface name w.ifaces))) [
        | inr (i, e) ↦ rw (e, open_pfd) v
        | inl e ↦
            rw (e, open_pfd)
              (listen packet name (reuse_or_open sys name (find_iface name w.ifaces) w).0
                (reuse_or_open sys name (find_iface name w.ifaces) w).1
                (reuse_or_open-IsBuilt sys name (find_iface name w.ifaces) w v))
      ]

  -- An interface that is there, written back.
  noted :
      (w : World) (i : ℕ) (f f' : Iface)
      → get_elem? w.ifaces i ≡ some f
      → IsBuilt P w
      → IsKnown (length w.proxies) f'
      → IsBuilt P (record w { ifaces = set w.ifaces i f' })
  noted w i f f' e v h = record {
    idle = v.idle;
    no_pointers = v.no_pointers;
    known = Every-set (IsKnown (length w.proxies)) w.ifaces i f' v.known h;
    dirty = elim v.dirty [
      | inl d ↦ inl d
      | inr (none_there, _) ↦
          let missing : none ≡ some f = ap (λ fs. get_elem? fs i) (sym none_there) ∙ e in absurd cc
    ];
  }

  AllBelow-snoc : (n j : ℕ) (is : List ℕ) → j < n → AllBelow n is → AllBelow n (is ++ (j ∷ []))
  AllBelow-snoc n j [] lt h = (lt, tt)
  AllBelow-snoc n j (i ∷ is) lt h = (h.0, AllBelow-snoc n j is lt h.1)

  AllBelow-suc : (n : ℕ) (is : List ℕ) → AllBelow n is → AllBelow (suc n) is
  AllBelow-suc n [] h = tt
  AllBelow-suc n (i ∷ is) h = (omega (arith, h.0), AllBelow-suc n is h.1)

  pub add_parent-IsBuilt :
      (i pid : ℕ) (w : World)
      → pid < length w.proxies
      → IsBuilt P w
      → IsBuilt P (add_parent i pid w)
  unfolding add_parent
  add_parent-IsBuilt i pid w lt v = elim (Option-cases (get_elem? w.ifaces i)) [
    | inl e ↦ rw (e, add_parent) v
    | inr (f, e) ↦
        let k = Every-get (IsKnown (length w.proxies)) w.ifaces i f v.known e in
        rw (e, add_parent) (noted w i f _ e v (k.0, AllBelow-snoc _ pid f.parents lt k.1))
  ]

  pub add_serves-IsBuilt :
      (i pid : ℕ) (w : World)
      → pid < length w.proxies
      → IsBuilt P w
      → IsBuilt P (add_serves i pid w)
  unfolding add_serves
  add_serves-IsBuilt i pid w lt v = elim (Option-cases (get_elem? w.ifaces i)) [
    | inl e ↦ rw (e, add_serves) v
    | inr (f, e) ↦
        let k = Every-get (IsKnown (length w.proxies)) w.ifaces i f v.known e in
        rw (e, add_serves) (noted w i f _ e v (AllBelow-snoc _ pid f.serves lt k.0, k.1))
  ]

  -- One proxy more.
  pub with_proxy :
      (w : World) (p : Proxy)
      → IsIdle P p
      → IsBuilt P w
      → IsBuilt P (record w { proxies = w.proxies ++ (p ∷ []) })
  with_proxy w p h v =
      let grown : length (w.proxies ++ (p ∷ [])) ≡ suc (length w.proxies) =
        omega (arith, length-append w.proxies (p ∷ [])) in
      record {
        idle = Every-append (IsIdle P) w.proxies (p ∷ []) v.idle (h, tt);
        no_pointers = v.no_pointers;
        known =
            subst (λ n. Every (IsKnown n) w.ifaces) (sym grown)
              (Every-map (IsKnown (length w.proxies)) (IsKnown (suc (length w.proxies))) w.ifaces
                (λ f k. (AllBelow-suc _ f.serves k.0, AllBelow-suc _ f.parents k.1)) v.known);
        dirty = v.dirty;
      }
