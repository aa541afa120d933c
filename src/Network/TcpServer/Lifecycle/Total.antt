-- ===== src/Network/TcpServer/Lifecycle/Total.antt =====
-- network/TcpServer.cpp: start returns, with what it leaves.
use aeb_node.Prelude.{
  ℕ, ◌≡◌, refl, Bool, false, not, Option, some, none, holds, Succeeds, Succeeds-if,
}
use aeb_node.Network.Message.{Message}
use aeb_node.Network.WakePipe.{open_pipe, close_pipe}
use aeb_node.Network.ListenSocket.{make_listen_socket}
use aeb_node.Network.TcpServer.{TcpServer, set_error}
use aeb_node.Network.TcpServer.Control.{StartCalls, spawn_worker, start_listening, start}
use aeb_node.Network.TcpServer.Reach.{IsSound}
use aeb_node.Network.TcpServer.Lifecycle.{Attempted, start-Attempted}

spawn_worker_ends :
    (spawns : Bool) (s : TcpServer) → s.joinable ≡ false → Succeeds (spawn_worker spawns s)
unfolding spawn_worker
spawn_worker_ends spawns s h =
    Succeeds-if (not spawns) _ _ (λ e. (_, refl))
      (λ e. Succeeds-if s.joinable none _ (λ e. cc) (λ e. (_, refl)))

start_listening_ends :
    (c : StartCalls) (s : TcpServer) → s.joinable ≡ false → Succeeds (start_listening c s)
unfolding start_listening
start_listening_ends c s h =
    by_socket (make_listen_socket c.listen).0 (make_listen_socket c.listen).1
  where
    by_socket :
        (fd : Option ℕ) (error : Option Message)
        → Succeeds {A = Bool × TcpServer} (elim fd [
          | none ↦ some (
            false,
            record (set_error error (record s { listen_fd = none })) { wake = close_pipe s.wake },
          )
          | some fd ↦ spawn_worker c.spawns (record s { listen_fd = some fd })
        ])
    by_socket none error = (_, refl)
    by_socket (some fd) error = spawn_worker_ends c.spawns (record s { listen_fd = some fd }) h

start_ends : (c : StartCalls) (s : TcpServer) → s.joinable ≡ false → Succeeds (start c s)
unfolding start
start_ends c s h =
    Succeeds-if s.running _ _ (λ e. (_, refl))
      (λ e.
        Succeeds-if (not (open_pipe c.pipe s.wake).0) _ _ (λ e'. (_, refl))
          (λ e'.
            start_listening_ends c
              (record s { stop_requested = false; wake = (open_pipe c.pipe s.wake).1 }) h))

-- `start` of a sound server whose thread has been joined returns: either the server runs, with its
-- thread, its listening socket and its wakeup pipe; or it does not run, the error is recorded, the pipe
-- is closed, and the listening socket is closed if it was. It stays sound.
pub start-lifecycle :
    (c : StartCalls) (s : TcpServer)
    → IsSound s
    → s.joinable ≡ false
    → (r : Bool × TcpServer) × (start c s ≡ some r) × Attempted s r
start-lifecycle c s d h =
    let (r, e) = start_ends c s h in
    (r, e, holds (Attempted s) (start c s) (start-Attempted c s d (d.unjoined h)) e)
