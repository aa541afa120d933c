-- ===== src/Network/TcpServer/Rounds.antt =====
-- network/TcpServer.cpp: one round of the I/O thread, from poll to the service of the client, and its end.
use aeb_node.Prelude.{Bool, true, false, not, ◌&&◌, ◌||◌, List, Option, some, if◌then◌else◌, ◌>>=◌}
use aeb_node.Network.Message.{poll_failed}
use aeb_node.Network.FrameQueue.{clear}
use aeb_node.Network.ClientSession.{
  SessionResult, progressed, blocked, closed, failed, Errno, eintr, eagain, other, IoResult, valid,
  drain_input, AcceptResult,
}
use aeb_node.Network.WakePipe.{drain}
use aeb_node.Network.TcpServer.{TcpServer, set_error, end_session, accept_client, service_output}

-- The bits of `revents` that the code looks at.
pub record Revents : Type 0 where
  pub hangup : Bool
  pub error : Bool
  pub invalid : Bool
  pub input : Bool

unfoldable pub end_by_input : SessionResult → TcpServer → TcpServer
end_by_input closed s = end_session false s
end_by_input failed s = end_session true s
end_by_input progressed s = s
end_by_input blocked s = s

-- `serviceClientEvents(revents)`, on the answers of `recv`.
unfoldable pub service_client_events : Revents → List IoResult → TcpServer → Option TcpServer
unfolding end_by_input
service_client_events revents rs s =
    if revents.hangup || revents.error || revents.invalid
    then some (end_session revents.error s)
    else if not revents.input
    then some s
    else do result ← drain_input rs s.session; some (end_by_input result s)

-- What the system says to one round of the loop: the outcome of `poll`, and the answers to the calls
-- that the round may make.
pub data PollResult : Type 0 where
  poll_refused : Errno → PollResult
  polled : Bool → Bool → Revents → PollResult

pub record RoundCalls : Type 0 where
  pub poll : PollResult
  pub reads : List IoResult
  pub receives : List IoResult
  pub accepts : List AcceptResult
  pub sends : List IoResult

-- The handlers of a round, in the order of the loop.
unfoldable pub service_wake : Bool → List IoResult → TcpServer → Option TcpServer
service_wake wake rs s =
    if wake then (drain rs s.wake >>= λ w. some (record s { wake = w })) else some s

unfoldable pub service_client : Bool → Revents → List IoResult → TcpServer → Option TcpServer
service_client polled_client revents rs s =
    if valid s.session && polled_client then service_client_events revents rs s else some s

unfoldable pub service_listen : Bool → List AcceptResult → TcpServer → Option TcpServer
service_listen pending rs s = if pending then accept_client rs s else some s

unfoldable pub service_queue : List IoResult → TcpServer → Option TcpServer
service_queue rs s =
    if valid s.session then service_output rs s else some (record s { queue = clear s.queue })

unfoldable pub service : Bool → Bool → Revents → RoundCalls → TcpServer → Option TcpServer
unfolding service_wake service_client service_listen service_queue
service wake pending revents c s = do
  woken ← service_wake wake c.reads s
  heard ← service_client (valid s.session) revents c.receives woken
  joined ← service_listen pending c.accepts heard
  service_queue c.sends joined

-- What follows the loop of `run`.
unfoldable pub finish : TcpServer → TcpServer
finish s = let s' = end_session false s in record s' { queue = clear s'.queue; running = false }

-- One round of `run`, from the test of `stop_requested`: the state, and whether the thread goes on.
unfoldable pub run_round : RoundCalls → TcpServer → Option (Bool × TcpServer)
unfolding service finish
run_round c s = if s.stop_requested then some (false, finish s) else elim c.poll [
  | poll_refused eintr ↦ some (true, s)
  | poll_refused eagain ↦ some (false, finish (set_error (some poll_failed) s))
  | poll_refused (other e) ↦ some (false, finish (set_error (some poll_failed) s))
  | polled wake pending revents ↦ service wake pending revents c s >>= λ s'. some (true, s')
]
