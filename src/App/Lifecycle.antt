-- ===== src/App/Lifecycle.antt =====
-- app/Application.cpp: run, its start functions, supervise and shutdown. What the main thread meets is
-- an argument: the signal mask, the answers to the components' calls, and a list of ticks.
pub mod Supervision
pub mod Shutdown
pub mod Tests
use aeb_node.Prelude.{
  ℕ, zero, suc, Bool, true, false, not, List, [], ◌∷◌, Option, some, none, ◌==◌, if◌then◌else◌,
  ◌>>=◌,
}
use aeb_node.CanBus.{CanBus, CanCalls, open_bus, close_bus}
use aeb_node.Lidar.Device.{DeviceCalls}
use aeb_node.Lidar.Acquisition.{Lidar, new_lidar, Cycle}
use aeb_node.Lidar.Acquisition.Control.{start as lidar_start, stop as lidar_stop}
use aeb_node.Network.ClientSession.{IoResult}
use aeb_node.Network.TcpServer.{TcpServer}
use aeb_node.Network.TcpServer.Control.{StartCalls, Rest}
use aeb_node.Network.TcpServer.Control.{start as tcp_start, stop as tcp_stop}

abbrev pub exit_success : ℕ
exit_success = 0

abbrev pub exit_failure : ℕ
exit_failure = 1

-- The components, with the descriptors that the process holds for the bus. `lidar` is a null pointer
-- until started; `destroyed` lists the lidars that have been destroyed, as they were then.
pub record Application : Type 0 where
  pub no_can : Bool
  pub auto_reconnect : Bool
  pub interface_length : ℕ
  pub can_bus : CanBus
  pub held : List ℕ
  pub tcp_server : TcpServer
  pub lidar : Option Lidar
  pub destroyed : List Lidar

-- What a `stop` of each component meets.
pub record StopCalls : Type 0 where
  pub lidar_cycles : List Cycle
  pub lidar_failures : ℕ
  pub wakeup : List IoResult
  pub thread_rest : Rest

-- A tick of the supervision: the signal that `waitFor` returns, 0 for none, and `isRunning` of the lidar.
pub record Tick : Type 0 where
  pub signal_number : ℕ
  pub lidar_running : Bool

-- What `run` meets. The two functions say what the threads have made of their components when the
-- supervision ends.
pub record RunCalls : Type 0 where
  pub signals_valid : Bool
  pub can : CanCalls
  pub tcp : StartCalls
  pub device : DeviceCalls
  pub lidar_spawns : Bool
  pub ticks : List Tick
  pub tcp_works : TcpServer → TcpServer
  pub lidar_works : Lidar → Lidar
  pub stops : StopCalls

-- `startCanBus()`
unfoldable pub start_can_bus : CanCalls → Application → Bool × Application
start_can_bus c app =
    if app.no_can
    then (true, app)
    else (let (ok, bus, held) = open_bus c app.interface_length app.can_bus app.held in
        (ok, record app { can_bus = bus; held = held }))

-- `startTcpServer()`
unfoldable pub start_tcp_server : StartCalls → Application → Option (Bool × Application)
start_tcp_server c app = do
  (ok, server) ← tcp_start c app.tcp_server
  some (ok, record app { tcp_server = server })

-- `lidar_.reset()`: the destructor stops the lidar. `none`: its thread can still be joined when the
-- thread object is destroyed, which ends the process.
unfoldable pub destroy_lidar : List Cycle → ℕ → Lidar → Application → Option Application
destroy_lidar cycles failures l app = lidar_stop cycles failures l >>= λ l'.
    if l'.joinable then none else some (record app { lidar = none; destroyed = l' ∷ app.destroyed })

-- `lidar_->stop()` of `shutdown`, and `lidar_.reset()`, whose stop finds the thread joined.
unfoldable pub drop_lidar : StopCalls → Application → Option Application
unfolding destroy_lidar
drop_lidar c app = elim app.lidar [
  | none ↦ some app
  | some l ↦ lidar_stop c.lidar_cycles c.lidar_failures l >>= λ l'. destroy_lidar [] 0 l' app
]

-- `startLidar()`: the callback is never empty.
unfoldable pub start_lidar :
    DeviceCalls → Bool → StopCalls → Application → Option (Bool × Application)
start_lidar d spawns c app = do
  (ok, l) ← lidar_start d true spawns (new_lidar app.auto_reconnect)
  let started = record app { lidar = some l } in
      if ok
      then some (true, started)
      else destroy_lidar c.lidar_cycles c.lidar_failures l started >>= λ app'. some (false, app')

-- `shutdown()`
unfoldable pub shutdown : StopCalls → Application → Option Application
shutdown c app = do
  no_lidar ← drop_lidar c app
  server ← tcp_stop c.wakeup c.thread_rest no_lidar.tcp_server
  let (bus, held) = close_bus no_lidar.can_bus no_lidar.held in
      some (record no_lidar { tcp_server = server; can_bus = bus; held = held })

-- `supervise(signals)`; `none`: the ticks end before a signal arrives.
unfoldable pub supervise : List Tick → Option ℕ
supervise [] = none
supervise (t ∷ ticks) =
    let rest = supervise ticks in
    if not (t.signal_number == 0)
    then some exit_success
    else if not t.lidar_running
    then some exit_failure
    else rest

-- The threads at work until the supervision ends.
unfoldable pub work : RunCalls → Application → Application
work c app = record app {
  tcp_server = c.tcp_works app.tcp_server;
  lidar = elim app.lidar [ none ↦ none | some l ↦ some (c.lidar_works l) ];
}

unfoldable pub fail : RunCalls → Application → Option (ℕ × Application)
fail c app = shutdown c.stops app >>= λ app'. some (exit_failure, app')

unfoldable pub run_supervised : RunCalls → Application → Option (ℕ × Application)
run_supervised c app = do
  exit_code ← supervise c.ticks
  app' ← shutdown c.stops (work c app)
  some (exit_code, app')

unfoldable pub run_lidar : RunCalls → Application → Option (ℕ × Application)
run_lidar c app = do
  (ok, app') ← start_lidar c.device c.lidar_spawns c.stops app
  if not ok then fail c app' else run_supervised c app'

unfoldable pub run_tcp : RunCalls → Application → Option (ℕ × Application)
run_tcp c app = do
  (ok, app') ← start_tcp_server c.tcp app
  if not ok then fail c app' else run_lidar c app'

-- `run()`: the exit code, and what is left.
unfoldable pub run : RunCalls → Application → Option (ℕ × Application)
run c app =
    if not c.signals_valid
    then some (exit_failure, app)
    else (let (ok, app') = start_can_bus c.can app in
        if not ok then some (exit_failure, app') else run_tcp c app')
