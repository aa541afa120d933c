-- ===== src/Network/TcpServer/Control.antt =====
-- network/TcpServer.cpp: start and stop.
use aeb_node.Prelude.{Bool, true, false, not, List, Option, some, none, if◌then◌else◌, ◌>>=◌, ◌==◌}
use aeb_node.Network.Message.{already_running, pipe_failed, spawn_failed}
use aeb_node.Network.ClientSession.{IoResult}
use aeb_node.Network.WakePipe.{PipeCalls, open_pipe, close_pipe, signal}
use aeb_node.Network.ListenSocket.{ListenCalls, make_listen_socket}
use aeb_node.Network.TcpServer.Rounds.{Revents, RoundCalls, service, finish}
use aeb_node.Network.TcpServer.{TcpServer, set_error}

-- The outcomes of the calls that `start` makes.
pub record StartCalls : Type 0 where
  pub pipe : PipeCalls
  pub listen : ListenCalls
  pub spawns : Bool

-- The last part of `start`, with the listening socket open. `none`: the thread is assigned to one that
-- is still joinable, which ends the process.
unfoldable pub spawn_worker : Bool → TcpServer → Option (Bool × TcpServer)
spawn_worker spawns s =
    if not spawns
    then some (
      false,
      set_error (some spawn_failed)
          (record s { running = false; listen_fd = none; wake = close_pipe s.wake }),
    )
    else if s.joinable
    then none
    else some (true, record s { running = true; joinable = true })

unfoldable pub start_listening : StartCalls → TcpServer → Option (Bool × TcpServer)
unfolding spawn_worker
start_listening c s =
    let (fd, error) = make_listen_socket c.listen in
    elim fd [
      | none ↦ some (
        false,
        record (set_error error (record s { listen_fd = none })) { wake = close_pipe s.wake },
      )
      | some fd ↦ spawn_worker c.spawns (record s { listen_fd = some fd })
    ]

-- `start()`
unfoldable pub start : StartCalls → TcpServer → Option (Bool × TcpServer)
unfolding start_listening
start c s =
    if s.running
    then some (false, set_error (some already_running) s)
    else (let (opened, w) = open_pipe c.pipe s.wake in
        let s' = record s { stop_requested = false; wake = w } in
        if not opened
        then some (false, record (set_error (some pipe_failed) s') { wake = close_pipe w })
        else start_listening c s')

-- Where `join` finds the thread: at the test of its loop, in `poll`, with what `poll` reports besides the
-- wakeup once it returns, or in the handlers of a round.
pub data Rest : Type 0 where
  at_test : Rest
  in_poll : Bool → Revents → RoundCalls → Rest
  in_round : Bool → Bool → Revents → RoundCalls → Rest

-- The test of the loop, and the end of the thread. `none`: the thread is not asked to stop, and `join`
-- waits on.
unfoldable pub leave : TcpServer → Option TcpServer
leave s = if s.stop_requested then some (record (finish s) { joinable = false }) else none

-- `none` in `poll`: the pipe is empty, and the thread sleeps on.

unfoldable pub join : Rest → TcpServer → Option TcpServer
unfolding leave
join rest s =
    if not s.joinable
    then some s
    else if not s.running
    then some (record s { joinable = false })
    else elim rest [
      | at_test ↦ leave s
      | in_poll pending revents c ↦
          if s.wake.in_flight == 0 then none else service true pending revents c s >>= leave
      | in_round wake pending revents c ↦ service wake pending revents c s >>= leave
    ]

-- The part of `stop` that follows the join.
unfoldable pub release : TcpServer → TcpServer
release s = record s {
  listen_fd = none;
  wake = close_pipe s.wake;
  client_connected = false;
  running = false;
}

-- `stop()`, on the answers of `write` to the wakeup.
unfoldable pub stop : List IoResult → Rest → TcpServer → Option TcpServer
unfolding join release
stop rs rest s = do
  w ← signal rs s.wake
  s' ← join rest (record s { stop_requested = true; wake = w })
  some (release s')
