-- ===== src/Network/Message.antt =====
-- The failures that the error strings of network/ describe, without the text of `errno`.
pub data Message : Type 0 where
  already_running pipe_failed spawn_failed poll_failed accept_failed client_nonblocking_failed :
      Message
  send_failed socket_failed reuseaddr_failed listen_nonblocking_failed bad_address bind_failed :
      Message
  listen_failed : Message
