-- ===== src/Network/TcpServer/Lifecycle.antt =====
-- network/TcpServer.cpp: what start leaves behind.
pub mod Total
pub mod Stopping
pub mod Restart
use Prim.{tt}
use aeb_node.Prelude.{
  ℕ, ◌<◌, ◌≡◌, refl, Bool, true, false, not, List, Option, some, none, ◌&&◌, if◌then◌else◌, ◌>>=◌,
  arith, Holds, Holds-if, holds, Succeeds, Succeeds-if, >>=-eq_of_some,
}
use aeb_node.Network.Message.{
  Message, pipe_failed, spawn_failed, socket_failed, reuseaddr_failed, listen_nonblocking_failed,
  bad_address, bind_failed, listen_failed,
}
use aeb_node.Network.ClientSession.{IoResult}
use aeb_node.Network.WakePipe.{WakePipe, PipeCalls, signal, open_pipe, close_pipe}
use aeb_node.Network.ListenSocket.{ListenCalls, make_listen_socket}
use aeb_node.Network.TcpServer.{TcpServer, set_error}
use aeb_node.Network.TcpServer.Control.{
  StartCalls, spawn_worker, start_listening, start, at_test, stop, release, join,
}
use aeb_node.Network.TcpServer.Rounds.{finish}
use aeb_node.Network.ClientSession.Progress.{settled}
use aeb_node.Network.TcpServer.Publish.{signal_ends}
use aeb_node.Network.TcpServer.Reach.{IsSound, flags_only}
use aeb_node.Network.TcpServer.Reach.Stopped.{IsStopped, stop-Holds}

-- The result of `start` on a server that was sound and did not run.
pub record Attempted (s : TcpServer) (r : Bool × TcpServer) : Type 0 where
  pub sound : IsSound r.1
  pub succeeded :
      r.0 ≡ true
      → (r.1.running ≡ true)
        × (r.1.joinable ≡ true)
        × ((fd : ℕ) × (r.1.listen_fd ≡ some fd))
        × ((fd : ℕ) × (r.1.wake.read_end ≡ some fd))
  pub failed :
      r.0 ≡ false
      → (r.1.running ≡ false)
        × ((m : Message) × (r.1.last_error ≡ some m))
        × ((r.1.wake.read_end ≡ none) × (r.1.wake.write_end ≡ none))
        × (s.listen_fd ≡ none → r.1.listen_fd ≡ none)

spawn_worker-Attempted :
    (spawns : Bool) (s before : TcpServer) (fd wfd : ℕ)
    → IsSound s
    → s.running ≡ false
    → s.listen_fd ≡ some fd
    → s.wake.read_end ≡ some wfd
    → Holds (Attempted before) (spawn_worker spawns s)
unfolding spawn_worker set_error close_pipe
spawn_worker-Attempted spawns s before fd wfd d h l w =
    Holds-if (Attempted before) (not spawns) _ _
      (λ e. record {
        sound = flags_only s _ d (d.idle h) refl refl refl refl (λ e. refl);
        succeeded = λ e. cc;
        failed = λ e. (refl, (spawn_failed, refl), (refl, refl), λ e. refl);
      })
      (λ e.
        Holds-if (Attempted before) s.joinable none _ (λ e. tt)
          (λ e. record {
            sound = flags_only s _ d (d.idle h) refl refl refl refl (λ e. cc);
            succeeded = λ e. (refl, refl, (fd, l), (wfd, w));
            failed = λ e. cc;
          }))

-- No socket without a reason.
Reasoned : Option ℕ × Option Message → Type 0
Reasoned r = r.0 ≡ none → (m : Message) × (r.1 ≡ some m)

make_listen_socket-Reasoned : (c : ListenCalls) → Reasoned (make_listen_socket c)
unfolding make_listen_socket Reasoned
make_listen_socket-Reasoned c = by_call c.socket c.reuseaddr c.nonblocking c.address c.bind c.listen
  where
    by_call :
        (socket : Option ℕ) (reuseaddr nonblocking address bind listen : Bool)
        → Reasoned (elim socket [
          | none ↦ (none, some socket_failed)
          | some fd ↦
              if not reuseaddr
              then (none, some reuseaddr_failed)
              else if not nonblocking
              then (none, some listen_nonblocking_failed)
              else if not address
              then (none, some bad_address)
              else if not bind
              then (none, some bind_failed)
              else if not listen
              then (none, some listen_failed)
              else (some fd, none)
        ])
    by_call none a b c d e h = (_, refl)
    by_call (some fd) false b c d e h = (_, refl)
    by_call (some fd) true false c d e h = (_, refl)
    by_call (some fd) true true false d e h = (_, refl)
    by_call (some fd) true true true false e h = (_, refl)
    by_call (some fd) true true true true false h = (_, refl)
    by_call (some fd) true true true true true h = cc

start_listening-Attempted :
    (c : StartCalls) (s before : TcpServer) (wfd : ℕ)
    → IsSound s
    → s.running ≡ false
    → s.wake.read_end ≡ some wfd
    → Holds (Attempted before) (start_listening c s)
unfolding start_listening Reasoned set_error close_pipe
start_listening-Attempted c s before wfd d h w =
    by_socket (make_listen_socket c.listen).0 (make_listen_socket c.listen).1
      (make_listen_socket-Reasoned c.listen)
  where
    by_socket :
        (fd : Option ℕ) (error : Option Message)
        → Reasoned (fd, error)
        → Holds (Attempted before) (elim fd [
          | none ↦ some (
            false,
            record (set_error error (record s { listen_fd = none })) { wake = close_pipe s.wake },
          )
          | some fd ↦ spawn_worker c.spawns (record s { listen_fd = some fd })
        ])
    by_socket none none r = let (m, e) = r refl in cc
    by_socket none (some m) r = record {
      sound = flags_only s _ d (d.idle h) refl refl refl refl (λ e. h);
      succeeded = λ e. cc;
      failed = λ e. (h, (m, refl), (refl, refl), λ e. refl);
    }
    by_socket (some fd) error r =
        spawn_worker-Attempted c.spawns (record s { listen_fd = some fd }) before fd wfd
          (flags_only s _ d (d.idle h) refl refl refl refl d.unjoined) h refl w

-- An open pipe has a reading end.
Opened : Bool × WakePipe → Type 0
Opened r = r.0 ≡ true → (fd : ℕ) × (r.1.read_end ≡ some fd)

open_pipe-Opened : (c : PipeCalls) (w : WakePipe) → Opened (open_pipe c w)
unfolding open_pipe Opened
open_pipe-Opened c w = by_ends c.ends (c.read_nonblocking && c.write_nonblocking)
  where
    by_ends :
        (e : Option (ℕ × ℕ)) (b : Bool)
        → Opened (elim e [
          | none ↦ (false, w)
          | some ends ↦
              if b
              then (
                true,
                record {
                  read_end = some (ends.0);
                  write_end = some (ends.1);
                  pending = w.pending;
                  in_flight = 0;
                },
              )
              else (false, w)
        ])
    by_ends none b h = cc
    by_ends (some ends) true h = (ends.0, refl)
    by_ends (some ends) false h = cc

pub start-Attempted :
    (c : StartCalls) (s : TcpServer)
    → IsSound s
    → s.running ≡ false
    → Holds (Attempted s) (start c s)
unfolding start set_error close_pipe Opened
start-Attempted c s d h =
    Holds-if (Attempted s) s.running _ _ (λ e. cc)
      (λ e.
        Holds-if (Attempted s) (not (open_pipe c.pipe s.wake).0) _ _
          (λ e'. record {
            sound = flags_only s _ d (d.idle h) refl refl refl refl d.unjoined;
            succeeded = λ e. cc;
            failed = λ e. (h, (pipe_failed, refl), (refl, refl), λ l. l);
          })
          (λ e'.
            let (fd, w) = open_pipe-Opened c.pipe s.wake (ground arith) in
            start_listening-Attempted c
              (record s { stop_requested = false; wake = (open_pipe c.pipe s.wake).1 }) s fd
              (flags_only s _ d (d.idle h) refl refl refl refl d.unjoined) h w))
