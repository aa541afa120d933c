-- ===== src/Network/Config.antt =====
-- The configuration of the server (network/TcpServer.hpp), and the socket options that it sets on an
-- accepted connection (network/ClientSession.cpp).
use aeb_node.Prelude.{ℕ, zero, suc, ◌≡◌, refl, Bool, true, List, [], ◌∷◌, ◌++◌, if◌then◌else◌}
use aeb_node.Prelude.Int.{ℤ, pos, negsuc}
use aeb_node.Prelude.Text.{Text, codes}

pub record TcpServerConfig : Type 0 where
  pub bind_address : Text
  pub port : ℕ
  pub queue_capacity : ℕ
  pub tcp_nodelay : Bool
  pub send_buffer_bytes : ℤ

abbrev pub default_server : TcpServerConfig
default_server = record {
  bind_address = codes "0.0.0.0";
  port = 7000;
  queue_capacity = 16;
  tcp_nodelay = true;
  send_buffer_bytes = pos 262144;
}

-- A call of `setsockopt`, by the option and its value.
pub data SocketOption : Type 0 where
  tcp_nodelay : ℕ → SocketOption
  so_sndbuf : ℕ → SocketOption

abbrev pub send_buffer_option : ℤ → List SocketOption
send_buffer_option (pos zero) = []
send_buffer_option (pos (suc n)) = so_sndbuf (suc n) ∷ []
send_buffer_option (negsuc n) = []

-- `applySocketOptions(fd, config)` on Linux, which has no SO_NOSIGPIPE: its calls, whose results it
-- drops.
unfoldable pub apply_socket_options : TcpServerConfig → List SocketOption
apply_socket_options config =
    (if config.tcp_nodelay then tcp_nodelay 1 ∷ [] else [])
    ++ send_buffer_option config.send_buffer_bytes

default_options_set : apply_socket_options default_server ≡ tcp_nodelay 1 ∷ so_sndbuf 262144 ∷ []
unfolding apply_socket_options
default_options_set = refl
