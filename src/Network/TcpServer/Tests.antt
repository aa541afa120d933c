-- ===== src/Network/TcpServer/Tests.antt =====
-- Runs of the server: start, a viewer, a frame, a round, stop.
use Prim.{tt}
use aeb_node.Prelude.{◌≡◌, refl, Bool, true, false, [], ◌∷◌, some, none, arith}
use aeb_node.Network.Message.{poll_failed}
use aeb_node.Network.ClientSession.{
  count, refused, eintr, eagain, other, valid, adopt, connection, no_connection,
}
use aeb_node.Network.WakePipe.{open_pipe}
use aeb_node.Network.ListenSocket.{make_listen_socket}
use aeb_node.Network.TcpServer.{
  TcpServer, new_server, accept_client, install_session, replace_session, set_error,
}
use aeb_node.Network.TcpServer.Control.{
  StartCalls, start, start_listening, spawn_worker, stop, at_test,
}
use aeb_node.Network.ClientSession.{accept}
use aeb_node.Network.FrameQueue.{clear}
use aeb_node.Network.TcpServer.Reach.{IsSound, Reaches, here, after, starts, accepts}
use aeb_node.Network.TcpServer.Lifecycle.{Attempted}
use aeb_node.Network.TcpServer.Lifecycle.Total.{start-lifecycle}
use aeb_node.Network.TcpServer.Lifecycle.Restart.{start_terminates}
use aeb_node.Network.TcpServer.Rounds.{Revents, RoundCalls, poll_refused, polled, run_round}
use aeb_node.Network.TcpServer.Progress.Rounds.{run_round_ends}
use aeb_node.Network.TcpServer.Sound.{reachable-IsSound, new-IsSound}

abbrev calls : StartCalls
calls = record {
  pipe = record { ends = some (3, 4); read_nonblocking = true; write_nonblocking = true };
  listen = record {
    socket = some 5;
    reuseaddr = true;
    nonblocking = true;
    address = true;
    bind = true;
    listen = true;
  };
  spawns = true;
}

abbrev started : TcpServer
started = record (new_server 4) {
  running = true;
  joinable = true;
  listen_fd = some 5;
  wake = record { read_end = some 3; write_end = some 4; pending = false; in_flight = 0 };
}

abbrev attended : TcpServer
attended = record started {
  queue = clear started.queue;
  session = adopt 6;
  client_connected = true;
  stats = record started.stats { client_connects = 1; client_connected = true };
}

started-attended : Reaches (new_server 4) attended
unfolding start start_listening spawn_worker open_pipe make_listen_socket accept_client accept
    install_session replace_session set_error
started-attended =
    after (starts calls refl) (after (accepts (connection 6 true ∷ []) refl refl) here)

reachable-IsSound_example : IsSound attended
reachable-IsSound_example = reachable-IsSound 4 attended started-attended

start-lifecycle_example :
    (r : Bool × TcpServer) × (start calls (new_server 4) ≡ some r) × Attempted (new_server 4) r
start-lifecycle_example = start-lifecycle calls (new_server 4) (new-IsSound 4) refl

-- A viewer with two octets still to be sent.
abbrev sending : TcpServer
sending = record attended {
  session = record (adopt 6) { send_buffer = 1 ∷ 2 ∷ [] };
  queue = record { capacity = 4; queue = []; pool = [] };
}

sending-IsSound : IsSound sending
sending-IsSound = record {
  coherent = record {
    same_running = refl;
    same_joinable = refl;
    same_asked = refl;
    mirror = refl;
    stats_mirror = refl;
    balance = omega arith;
    queue_valid = record {
      roomy = omega arith;
      bounded = omega arith;
      pool_bounded = omega arith;
      pool_cleared = tt;
    };
  };
  idle = λ e. cc;
  unjoined = λ e. cc;
}

-- Every descriptor is ready: an octet in the pipe, one from the viewer, another viewer, and the kernel
-- takes two octets.
abbrev all_ready : RoundCalls
all_ready = record {
  poll = polled true true (record { hangup = false; error = false; invalid = false; input = true });
  reads = count 1 ∷ refused eintr ∷ refused eagain ∷ [];
  receives = count 1 ∷ refused eagain ∷ [];
  accepts = no_connection eintr ∷ connection 7 true ∷ [];
  sends = count 1 ∷ count 1 ∷ refused eagain ∷ [];
}

run_round_ends_example :
    (again : Bool) × (s' : TcpServer) × (run_round all_ready sending ≡ some (again, s'))
run_round_ends_example = run_round_ends all_ready sending tt tt tt (omega arith) (λ v. omega arith)

-- The thread sleeps in poll, and the wakeup's octet is all that it is told of.
abbrev asleep : RoundCalls
asleep = record all_ready { receives = refused eagain ∷ []; accepts = no_connection eagain ∷ [] }

abbrev quiet : Revents
quiet = record { hangup = false; error = false; invalid = false; input = false }

-- poll fails, and nobody has called `stop`.
abbrev failing : RoundCalls
failing = record all_ready { poll = poll_refused (other 12) }

start_terminates_example :
    (s' : TcpServer) × (run_round failing sending ≡ some (false, s'))
    × (s'.running ≡ false)
    × (valid s'.session ≡ false)
    × (s'.last_error ≡ some poll_failed)
    × (start calls s' ≡ none)
    × ((s'' : TcpServer) × (stop (count 1 ∷ []) at_test s' ≡ some s'')
        × ((d' : StartCalls) → (r : Bool × TcpServer) × (start d' s'' ≡ some r) × Attempted s'' r))
unfolding open_pipe make_listen_socket
start_terminates_example =
    start_terminates failing calls (count 1 ∷ []) sending 5 sending-IsSound refl refl tt refl refl
      refl (omega arith)
