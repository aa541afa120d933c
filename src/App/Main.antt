-- ===== src/App/Main.antt =====
-- app/main.cpp, with the constructor and the destructor of Application (app/Application.cpp). What is
-- printed is left out.
pub mod Laws
mod Tests
use aeb_node.Prelude.{ℕ, List, [], Option, some, none, length, if◌then◌else◌, ◌>>=◌}
use aeb_node.Prelude.Text.{Text, is_empty}
use aeb_node.CanBus.{new_bus}
use aeb_node.Network.TcpServer.{new_server}
use aeb_node.App.Options.{Options}
use aeb_node.App.CommandLine.{parse}
use aeb_node.App.Lifecycle.{Application, RunCalls, StopCalls, run, shutdown}

abbrev pub exit_usage : ℕ
exit_usage = 2

abbrev pub exit_help : ℕ
exit_help = 0

-- `Application application{options}` in a process that holds the descriptors `held`.
abbrev pub new_application : List ℕ → Options → Application
new_application held o = record {
  no_can = o.no_can;
  auto_reconnect = o.lidar.auto_reconnect;
  interface_length = length o.canbus.interface;
  can_bus = new_bus;
  held = held;
  tcp_server = new_server o.tcp_server.queue_capacity;
  lidar = none;
  destroyed = [];
}

-- `application.run()`, and the destructor, whose `shutdown` meets `last`.
unfoldable pub run_application :
    RunCalls → StopCalls → Application → Option (ℕ × Option Application)
run_application c last app = do
  (code, app') ← run c app
  app'' ← shutdown last app'
  some (code, some app'')

-- `main(argc, argv)`: the exit code, and what the application leaves if there was one. `long_bits` is
-- the width of unsigned long.
unfoldable pub main :
    ℕ → RunCalls → StopCalls → List ℕ → List Text → Option (ℕ × Option Application)
main long_bits c last held argv =
    let (options, error) = parse long_bits argv in
    elim options [
      | none ↦ some (if is_empty error then exit_help else exit_usage, none)
      | some o ↦ run_application c last (new_application held o)
    ]
