-- ===== src/Proxy/Update.antt =====
-- src/session.cc, `update_all`: every session that is still alive gets older.
use ndppd.Base.{ℕ, suc, Bool, true, false, List, [], ◌∷◌, Option, none, some, ◌==◌, if◌then◌else◌}
use ndppd.Base.Int.{ℤ}
use ndppd.Session.{Session, Verdict, keep, remove, update, destroy}
use ndppd.World.{Proxy, World, send, set_proxy, iface_names}
use ndppd.Proxy.{put_session}

unfoldable pub lookup_session : ℕ → List (ℕ × Session) → Option Session
lookup_session i [] = none
lookup_session i ((j, s) ∷ rest) = if j == i then some s else lookup_session i rest

-- The proxy that holds session `i`, of those that are numbered from `pid` on. `none` where the weak
-- pointer is null: nobody holds the session any more.
unfoldable pub find_owner : ℕ → ℕ → List Proxy → Option (ℕ × Proxy × Session)
find_owner i pid [] = none
find_owner i pid (p ∷ ps) = elim (lookup_session i p.sessions) [
  | some s ↦ some (pid, p, s)
  | none ↦ find_owner i (suc pid) ps
]

-- `_sessions.remove(se)`
unfoldable pub remove_session : ℕ → List (ℕ × Session) → List (ℕ × Session)
remove_session i [] = []
remove_session i ((j, s) ∷ rest) =
    if j == i then remove_session i rest else (j, s) ∷ remove_session i rest

-- The effect of a verdict on session `i` of proxy `pid`. A removed session has lost its last owner.
unfoldable pub obey : ℕ → ℕ → Proxy → Verdict → World → World
obey i pid p (keep s sent) w =
    send sent (set_proxy pid (record p { sessions = put_session i s p.sessions }) w)
obey i pid p (remove s) w =
    send (destroy s (iface_names w s.ifaces))
      (set_proxy pid (record p { sessions = remove_session i p.sessions }) w)

-- The body of the loop at one weak pointer: whether the pointer stays in the list, and the rest.
unfoldable pub update_one : ℤ → ℕ → World → Bool × World
update_one elapsed i w = elim (find_owner i 0 w.proxies) [
  | none ↦ (false, w)
  | some (pid, p, s) ↦ (true, obey i pid p (update p.config elapsed s) w)
]

-- The loop over the weak list: the pointers that stay, and the rest.
unfoldable pub update_list : ℤ → List ℕ → World → List ℕ × World
update_list elapsed [] w = ([], w)
update_list elapsed (i ∷ is) w =
    let (stays, w') = update_one elapsed i w in
    let (is', w'') = update_list elapsed is w' in (if stays then i ∷ is' else is', w'')

-- `session::update_all(elapsed_time)`
unfoldable pub update_all : ℤ → World → World
update_all elapsed w =
    let (alive, w') = update_list elapsed w.session_list w in record w' { session_list = alive }
