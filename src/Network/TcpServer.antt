-- ===== src/Network/TcpServer.antt =====
-- network/TcpServer.cpp: the public methods, and what the I/O thread runs. The counters and the queue
-- have locks of their own, so a call here is one step; Reach lets the threads' steps interleave.
pub mod Control
pub mod Rounds
pub mod Progress
pub mod Invariant
pub mod Publish
pub mod Lifecycle
pub mod Reach
pub mod Sound
mod Tests
use aeb_node.Prelude.{
  ℕ, zero, suc, ◌+◌, ◌%◌, ◌^◌, Bool, true, false, not, ◌&&◌, ◌||◌, List, [], ◌∷◌, Option, some,
  none, if◌then◌else◌, ◌>>=◌, ◌==◌,
}
use aeb_node.Types.{ScanFrame}
use aeb_node.Protocol.Octets.{Bytes}
use aeb_node.Network.Message.{
  Message, already_running, pipe_failed, spawn_failed, poll_failed, send_failed,
}
use aeb_node.Network.FrameQueue.{FrameQueue, new, push, clear}
use aeb_node.Network.ClientSession.{
  SessionResult, progressed, blocked, closed, failed, Errno, eintr, eagain, other, IoResult,
  no_progress, ClientSession, no_session, valid, close, Pump, pump, drain_input, AcceptResult,
  accept,
}
use aeb_node.Network.WakePipe.{
  WakePipe, closed_pipe, PipeCalls, open_pipe, close_pipe, signal, drain,
}
use aeb_node.Network.ListenSocket.{ListenCalls, make_listen_socket}

pub record TcpServerStats : Type 0 where
  pub frames_published : ℕ
  pub frames_dropped : ℕ
  pub frames_sent : ℕ
  pub bytes_sent : ℕ
  pub client_connects : ℕ
  pub client_disconnects : ℕ
  pub send_errors : ℕ
  pub client_connected : Bool

-- The members of `Impl`; `joinable` is that of the thread `worker`.
pub record TcpServer : Type 0 where
  pub queue : FrameQueue
  pub joinable : Bool
  pub stop_requested : Bool
  pub running : Bool
  pub client_connected : Bool
  pub listen_fd : Option ℕ
  pub wake : WakePipe
  pub session : ClientSession
  pub stats : TcpServerStats
  pub last_error : Option Message

-- The constructor.
abbrev pub new_server : ℕ → TcpServer
new_server queue_capacity = record {
  queue = new queue_capacity;
  joinable = false;
  stop_requested = false;
  running = false;
  client_connected = false;
  listen_fd = none;
  wake = closed_pipe;
  session = no_session;
  stats = record {
    frames_published = 0;
    frames_dropped = 0;
    frames_sent = 0;
    bytes_sent = 0;
    client_connects = 0;
    client_disconnects = 0;
    send_errors = 0;
    client_connected = false;
  };
  last_error = none;
}

-- A `std::uint64_t` counter goes up.
abbrev pub add_64 : ℕ → ℕ → ℕ
add_64 a b = (a + b) % 2 ^ 64

unfoldable pub set_error : Option Message → TcpServer → TcpServer
set_error none s = s
set_error (some m) s = record s { last_error = some m }

unfoldable pub end_session : Bool → TcpServer → TcpServer
end_session error_related s = if not (valid s.session) then s else record s {
  session = close s.session;
  client_connected = false;
  stats = record s.stats {
    client_disconnects = add_64 s.stats.client_disconnects 1;
    send_errors = if error_related then add_64 s.stats.send_errors 1 else s.stats.send_errors;
    client_connected = false;
  };
}

-- `if (session.valid()) endSession(false)`
unfoldable pub replace_session : TcpServer → TcpServer
replace_session s = if valid s.session then end_session false s else s

-- The rest of `acceptClient`.
unfoldable pub install_session : ClientSession → TcpServer → TcpServer
install_session accepted s = record s {
  session = accepted;
  client_connected = true;
  queue = clear s.queue;
  stats = record s.stats {
    client_connects = add_64 s.stats.client_connects 1;
    client_connected = true;
  };
}

-- `acceptClient()`
unfoldable pub accept_client : List AcceptResult → TcpServer → Option TcpServer
accept_client rs s = do
  (accepted, error) ← accept rs none
  let s' = set_error error s in
      some (if not (valid accepted) then s' else install_session accepted (replace_session s'))

-- The counters take the progress of a pump, if there was any.
abbrev pub counted : TcpServerStats → Pump → TcpServerStats
counted stats p =
    if not (p.progress.bytes_sent == 0) || not (p.progress.frames_sent == 0)
    then record stats {
      bytes_sent = add_64 stats.bytes_sent p.progress.bytes_sent;
      frames_sent = add_64 stats.frames_sent p.progress.frames_sent;
    }
    else stats

unfoldable pub take_progress : TcpServer → Pump → TcpServer
take_progress s p = record s { session = p.session; queue = p.queue; stats = counted s.stats p }

-- What `serviceOutput` does with the outcome of a pump, whose error string is empty unless `send`
-- failed.
unfoldable pub record_output : TcpServer → SessionResult → Pump → TcpServer
record_output s failed p =
    end_session true
      (set_error (if valid s.session then some send_failed else none) (take_progress s p))
record_output s progressed p = take_progress s p
record_output s blocked p = take_progress s p
record_output s closed p = take_progress s p

-- `serviceOutput()`, on the answers of `send`.
unfoldable pub service_output : List IoResult → TcpServer → Option TcpServer
service_output rs s = do
  (result, p) ←
      pump rs (record { session = s.session; queue = s.queue; progress = no_progress; sent = [] })
  some (record_output s result p)

abbrev pub count_published : TcpServer → TcpServer
count_published s = record s {
  stats = record s.stats { frames_published = add_64 s.stats.frames_published 1 };
}

abbrev pub count_dropped : ℕ → TcpServer → TcpServer
count_dropped n s = record s {
  stats = record s.stats { frames_dropped = add_64 s.stats.frames_dropped n };
}

-- `publish(frame)`, on the answers of `write` to the wakeup.
unfoldable pub publish : List IoResult → ScanFrame → TcpServer → Option TcpServer
publish rs frame s =
    if not s.client_connected || not s.running
    then some (count_dropped 1 (count_published s))
    else do
      (q, dropped) ← push s.queue frame
      w ← signal rs s.wake
      some
          (record (if dropped == 0
            then count_published s
            else count_dropped dropped (count_published s)) { queue = q; wake = w })
