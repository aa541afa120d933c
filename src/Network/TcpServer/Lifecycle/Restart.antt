-- ===== src/Network/TcpServer/Lifecycle/Restart.antt =====
-- network/TcpServer.cpp: start after the I/O thread has ended by itself.
use Prim.{Unit}
use aeb_node.Prelude.{
  ℕ, ◌<◌, ◌≡◌, refl, ap, ◌∙◌, Bool, true, false, List, Option, some, none, arith, holds,
  if-eq_of_false, ◌>>=◌,
}
use aeb_node.Network.Message.{poll_failed}
use aeb_node.Network.ClientSession.{IoResult, eintr, eagain, other, valid}
use aeb_node.Network.ClientSession.Progress.{settled}
use aeb_node.Network.WakePipe.{open_pipe}
use aeb_node.Network.ListenSocket.{make_listen_socket}
use aeb_node.Network.TcpServer.{TcpServer, set_error, end_session}
use aeb_node.Network.TcpServer.Control.{
  StartCalls, spawn_worker, start_listening, start, at_test, stop,
}
use aeb_node.Network.TcpServer.Rounds.{
  RoundCalls, PollResult, poll_refused, polled, service, finish, run_round,
}
use aeb_node.Network.TcpServer.Reach.{IsSound, run_round-IsSound}
use aeb_node.Network.TcpServer.Lifecycle.{Attempted}
use aeb_node.Network.TcpServer.Lifecycle.Total.{start-lifecycle}
use aeb_node.Network.TcpServer.Lifecycle.Stopping.{stop-IsStopped}

-- A failure of poll other than by an interruption.
abbrev pub IsFatal : PollResult → Type 0
IsFatal (poll_refused eintr) = ⊥
IsFatal (poll_refused eagain) = Unit {0}
IsFatal (poll_refused (other e)) = Unit {0}
IsFatal p = ⊥

joinable_terminates :
    (c : StartCalls) (s : TcpServer) (fd : ℕ)
    → s.running ≡ false
    → s.joinable ≡ true
    → (open_pipe c.pipe s.wake).0 ≡ true
    → (make_listen_socket c.listen).0 ≡ some fd
    → c.spawns ≡ true
    → start c s ≡ none
unfolding start start_listening spawn_worker
joinable_terminates c s fd r j p l b = cc

-- The thread's end after a failure of poll.
abbrev after_failure : TcpServer → TcpServer
after_failure s = finish (set_error (some poll_failed) s)

run_round-fatal :
    (c : RoundCalls) (s : TcpServer)
    → s.stop_requested ≡ false
    → IsFatal c.poll
    → run_round c s ≡ some (false, after_failure s)
unfolding run_round
run_round-fatal c s h f = if-eq_of_false s.stop_requested _ _ h (by_poll c.poll f)
  where
    by_poll :
        (p : PollResult)
        → IsFatal p
        → elim p as (λ z. Option (Bool × TcpServer)) [
          | poll_refused eintr ↦ some (true, s)
          | poll_refused eagain ↦ some (false, finish (set_error (some poll_failed) s))
          | poll_refused (other e) ↦ some (false, finish (set_error (some poll_failed) s))
          | polled wake pending revents ↦ service wake pending revents c s >>= λ s'. some (true, s')
        ]
          ≡ some (false, after_failure s)
    by_poll (poll_refused eintr) f = absurd f
    by_poll (poll_refused eagain) f = refl
    by_poll (poll_refused (other e)) f = refl
    by_poll (polled wake pending v) f = absurd f

after_failure-thread :
    (s : TcpServer)
    → ((after_failure s).running ≡ false)
      × ((after_failure s).joinable ≡ s.joinable)
      × ((after_failure s).last_error ≡ some poll_failed)
      × ((after_failure s).wake ≡ s.wake)
unfolding finish set_error end_session
after_failure-thread s = ground arith

-- When poll fails for a running server that is not asked to stop, other than by an interruption, its
-- thread ends by itself: the server does not run, holds no session, and has the error. A `start` right
-- after that, which gets its pipe, its socket and its thread, ends the process, since the thread was
-- never joined; after a `stop` in between, whose wakeup is answered, every `start` returns with the
-- server running or not.
pub start_terminates :
    (c : RoundCalls) (d : StartCalls) (rs : List IoResult) (s : TcpServer) (fd : ℕ)
    → IsSound s
    → s.running ≡ true
    → s.stop_requested ≡ false
    → IsFatal c.poll
    → (open_pipe d.pipe s.wake).0 ≡ true
    → (make_listen_socket d.listen).0 ≡ some fd
    → d.spawns ≡ true
    → 0 < settled rs
    → (s' : TcpServer) × (run_round c s ≡ some (false, s'))
      × (s'.running ≡ false)
      × (valid s'.session ≡ false)
      × (s'.last_error ≡ some poll_failed)
      × (start d s' ≡ none)
      × ((s'' : TcpServer) × (stop rs at_test s' ≡ some s'')
          × ((d' : StartCalls)
              → (r : Bool × TcpServer) × (start d' s'' ≡ some r) × Attempted s'' r))
start_terminates c d rs s fd sound r h f p l b w =
    let s' = after_failure s in
    let e = run_round-fatal c s h f in
    let sound' =
      holds (λ (v : Bool × TcpServer). IsSound v.1) (run_round c s) (run_round-IsSound c s sound r)
        e in
    let (stopped, same_joinable, error, same_wake) = after_failure-thread s in
    let (s'', e', k) = stop-IsStopped rs at_test s' sound' w in
    (
      s',
      e,
      stopped,
      sound'.idle stopped,
      error,
      joinable_terminates d s' fd stopped (same_joinable ∙ joinable s sound r)
          (ap (λ w. (open_pipe d.pipe w).0) same_wake ∙ p) l b,
      (s'', e', λ d'. start-lifecycle d' s'' k.sound k.not_joinable),
    )
  where
    joinable : (s : TcpServer) → IsSound s → s.running ≡ true → s.joinable ≡ true
    joinable s d r = ground (arith, d.unjoined, r)
