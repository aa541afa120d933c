-- ===== src/Network/ListenSocket.antt =====
-- network/ListenSocket.cpp.
use aeb_node.Prelude.{ℕ, Bool, not, Option, some, none, if◌then◌else◌}
use aeb_node.Network.Message.{
  Message, socket_failed, reuseaddr_failed, listen_nonblocking_failed, bad_address, bind_failed,
  listen_failed,
}

-- What the system says to each call; `socket` is the descriptor, if there is one.
pub record ListenCalls : Type 0 where
  pub socket : Option ℕ
  pub reuseaddr : Bool
  pub nonblocking : Bool
  pub address : Bool
  pub bind : Bool
  pub listen : Bool

-- `makeListenSocket(config, error)`: the descriptor or what failed. On a failure the owner of the
-- socket goes out of scope and closes it.
unfoldable pub make_listen_socket : ListenCalls → Option ℕ × Option Message
make_listen_socket c = elim c.socket [
  | none ↦ (none, some socket_failed)
  | some fd ↦
      if not c.reuseaddr
      then (none, some reuseaddr_failed)
      else if not c.nonblocking
      then (none, some listen_nonblocking_failed)
      else if not c.address
      then (none, some bad_address)
      else if not c.bind
      then (none, some bind_failed)
      else if not c.listen
      then (none, some listen_failed)
      else (some fd, none)
]
