-- ===== src/App/Lifecycle/Tests.antt =====
-- A run that a signal ends.
use aeb_node.Prelude.{refl, true, false, [], ◌∷◌, some, none, inl, inr, arith}
use aeb_node.CanBus.{new_bus}
use aeb_node.Lidar.Device.{DeviceCalls, is_ok}
use aeb_node.Lidar.Acquisition.{Cycle}
use aeb_node.Network.ClientSession.{count}
use aeb_node.Network.TcpServer.{new_server}
use aeb_node.Network.TcpServer.Control.{at_test}
use aeb_node.App.Lifecycle.{Application, RunCalls}
use aeb_node.App.Lifecycle.Shutdown.{IsAnswered}
use aeb_node.App.Lifecycle.Supervision.{Notices}

abbrev app : Application
app = record {
  no_can = false;
  auto_reconnect = true;
  interface_length = 4;
  can_bus = new_bus;
  held = 0 ∷ 1 ∷ 2 ∷ [];
  tcp_server = new_server 16;
  lidar = none;
  destroyed = [];
}

abbrev pub device : DeviceCalls
device = record {
  channel_created = true;
  driver_created = true;
  connect = is_ok;
  device_info = is_ok;
  motor_speed = is_ok;
  start_scan = is_ok;
}

abbrev pub stopping : Cycle
stopping = record {
  stop_at_test = true;
  nodes = none;
  now = 0;
  throws = false;
  stop_at_reconnect = false;
  reopening = device;
}

-- One quiet tick, then SIGINT.
abbrev pub calls : RunCalls
calls = record {
  signals_valid = true;
  can = record { socket = some 3; index_found = true; binds = true };
  tcp = record {
    pipe = record { ends = some (4, 5); read_nonblocking = true; write_nonblocking = true };
    listen = record {
      socket = some 6;
      reuseaddr = true;
      nonblocking = true;
      address = true;
      bind = true;
      listen = true;
    };
    spawns = true;
  };
  device = device;
  lidar_spawns = true;
  ticks =
      record { signal_number = 0; lidar_running = true }
      ∷ record { signal_number = 2; lidar_running = true }
      ∷ [];
  tcp_works = λ s. s;
  lidar_works = λ l. l;
  stops = record {
    lidar_cycles = stopping ∷ [];
    lidar_failures = 0;
    wakeup = count 1 ∷ [];
    thread_rest = at_test;
  };
}

pub answered : IsAnswered calls.stops
answered = record { lidar_stops = inl refl; wakeup_settled = omega arith; thread_at_test = refl }

pub signalled : Notices calls.ticks
signalled = inl (inr (refl, refl, inl (omega arith)))
