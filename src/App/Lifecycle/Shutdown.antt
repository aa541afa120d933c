-- ===== src/App/Lifecycle/Shutdown.antt =====
-- app/Application.cpp: what run leaves behind on each of its paths.
pub mod Run
use Prim.{tt}
use aeb_node.Prelude.{
  ℕ, ◌<◌, All, ◌≡◌, sym, Bool, false, not, List, Option, some, none, if◌then◌else◌, Succeeds, subst,
  Holds, holds, ◌==◌,
}
use aeb_node.CanBus.{CanBus, close_bus}
use aeb_node.Lidar.Acquisition.{Lidar, new_lidar}
use aeb_node.Lidar.Acquisition.Control.{start as lidar_start, stop as lidar_stop}
use aeb_node.Lidar.Acquisition.Recovery.{Stops}
use aeb_node.Lidar.Acquisition.Loop.{start-Starts}
use aeb_node.Lidar.Acquisition.Stop.{IsReleased}
use aeb_node.Network.ClientSession.Progress.{settled}
use aeb_node.Network.TcpServer.{TcpServer}
use aeb_node.Network.TcpServer.Control.{at_test}
use aeb_node.Network.TcpServer.Control.{start as tcp_start, stop as tcp_stop}
use aeb_node.Network.TcpServer.Reach.Stopped.{IsStopped}
use aeb_node.App.Lifecycle.{
  Application, StopCalls, Tick, RunCalls, start_tcp_server, start_lidar, supervise, work, fail,
  run_supervised, run_lidar, run_tcp, run,
}

-- The system answers the wakeup of the server's thread, which is then at the test of its loop, and the
-- acquisition thread sees the request to stop.
pub record IsAnswered (c : StopCalls) : Type 0 where
  pub lidar_stops : Stops c.lidar_cycles
  pub wakeup_settled : 0 < settled c.wakeup
  pub thread_at_test : c.thread_rest ≡ at_test

-- Nothing is left: no bus, no server, no lidar, and the descriptors held before; and every lidar that
-- was destroyed had its thread joined and its device closed.
pub record IsClean (held : List ℕ) (app : Application) : Type 0 where
  pub bus_closed : app.can_bus.fd ≡ none
  pub same_held : app.held ≡ held
  pub server_stopped : IsStopped app.tcp_server
  pub no_lidar : app.lidar ≡ none
  pub destroyed_released : All IsReleased app.destroyed

-- Closing the bus gives back what it holds beyond `held`.
abbrev Owes : List ℕ → Application → Type 0
Owes held app = close_bus app.can_bus app.held ≡ (record app.can_bus { fd = none }, held)

-- The lidar is destroyed, with no thread and no device.
Dropped : Application → Option Application → Type 0
Dropped app m =
    (gone : List Lidar) × (m ≡ some (record app { lidar = none; destroyed = gone }))
    × All IsReleased gone

-- What `startCanBus` leaves: if it fails, a clean application.
CanStarted : Application → Bool × Application → Type 0
CanStarted app r =
    Owes app.held r.1
    × (r.1.tcp_server ≡ app.tcp_server)
    × (r.1.auto_reconnect ≡ app.auto_reconnect)
    × (r.1.lidar ≡ app.lidar)
    × (r.1.destroyed ≡ app.destroyed)
    × (r.0 ≡ false → (r.1.can_bus.fd ≡ none) × (r.1.held ≡ app.held))
