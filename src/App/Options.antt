-- ===== src/App/Options.antt =====
-- app/Options.hpp, with the configurations that it gathers from lidar/Lidar.hpp, canbus/CanBus.hpp
-- and perception/PerceptionConfig.hpp.
use aeb_node.Prelude.{ℕ, Bool, true, false}
use aeb_node.Prelude.Text.{Text, codes}
use aeb_node.Network.Config.{TcpServerConfig, default_server}
use aeb_node.Perception.{PerceptionConfig, default_config}

pub record LidarConfig : Type 0 where
  pub serial_port : Text
  pub baudrate : ℕ
  pub scan_timeout_ms : ℕ
  pub max_nodes_per_scan : ℕ
  pub auto_reconnect : Bool
  pub reconnect_delay_ms : ℕ

abbrev pub default_lidar : LidarConfig
default_lidar = record {
  serial_port = codes "/dev/ttyUSB0";
  baudrate = 460800;
  scan_timeout_ms = 2000;
  max_nodes_per_scan = 8192;
  auto_reconnect = true;
  reconnect_delay_ms = 500;
}

pub record CanBusConfig : Type 0 where
  pub interface : Text

pub record Options : Type 0 where
  pub lidar : LidarConfig
  pub canbus : CanBusConfig
  pub no_can : Bool
  pub tcp_server : TcpServerConfig
  pub perception : PerceptionConfig
  pub health_interval_s : ℕ

-- `Options{}`
abbrev pub default_options : Options
default_options = record {
  lidar = default_lidar;
  canbus = record { interface = codes "can0" };
  no_can = false;
  tcp_server = default_server;
  perception = default_config;
  health_interval_s = 5;
}
