-- ===== src/Daemon.antt =====
-- src/ndppd.cc: the loop of `main`. Each turn has what the kernel answers to `poll_all`, the time that
-- has passed since the last turn, and the texts of the kernel's two tables.
pub mod Reach
pub mod Calm
pub mod Configure
pub mod Main
use ndppd.Base.{not, ℕ, Bool, true, false, List, [], ◌∷◌, Option, none, some, if◌then◌else◌, Bytes}
use ndppd.Base.Int.{ℤ}
use ndppd.Address.{Address}
use ndppd.World.{World, Result, ok, throw, ◌>>=◌, Sockets}
use ndppd.Proxy.Update.{update_all}
use ndppd.Iface.Poll.{Kernel, poll_all}
use ndppd.Tables.{Timer, update_routes, update_addresses}

pub record Turn : Type 0 where
  pub kernel : Kernel
  pub elapsed : ℤ
  pub route_file : Option Bytes
  pub address_file : Option Bytes

pub record Daemon : Type 0 where
  pub world : World
  pub route_timer : Timer
  pub address_timer : Timer

-- `if (rule::any_auto()) route::update(elapsed_time);`
unfoldable pub refresh_routes : Turn → Daemon → Daemon
refresh_routes t d =
    if d.world.any_aut
    then (let (timer, w) = update_routes t.route_file t.elapsed d.route_timer d.world in
        record d { world = w; route_timer = timer })
    else d

-- `if (rule::any_iface()) address::update(elapsed_time);`
unfoldable pub refresh_addresses : Turn → Daemon → Daemon
refresh_addresses t d =
    if d.world.any_iface
    then (let (timer, w) = update_addresses t.address_file t.elapsed d.address_timer d.world in
        record d { world = w; address_timer = timer })
    else d

-- The body of `while (running)`: `none` where it breaks.
unfoldable pub turn : Sockets → Turn → Daemon → Result (Option Daemon)
turn sys t d = poll_all sys t.kernel d.world >>= λ r.
    if not r.0
    then ok none
    else (let d' = refresh_addresses t (refresh_routes t (record d { world = r.1 })) in
        ok (some (record d' { world = update_all t.elapsed d'.world })))
