-- ===== src/Network/TcpServer/Progress.antt =====
-- network/TcpServer.cpp: how a round of the I/O thread ends.
pub mod Rounds
use Prim.{tt, Unit}
use mathlib.Core.Bool.{false≢true}
use aeb_node.Prelude.{
  ℕ, zero, suc, ◌<◌, ◌≡◌, refl, ap, ◌∙◌, sym, subst, ◌⊎◌, inl, inr, Bool, true, false, not, ◌&&◌,
  ◌||◌, List, [], ◌∷◌, Option, some, none, if◌then◌else◌, ◌>>=◌, length, arith, Succeeds,
  Succeeds-if, >>=-eq_of_some,
}
use aeb_node.Network.Message.{Message, poll_failed, accept_failed, client_nonblocking_failed}
use aeb_node.Types.{ScanFrame}
use aeb_node.Protocol.Wire.Encoded.{encodings}
use aeb_node.Network.FrameQueue.{FrameQueue, clear, clear_frames}
use aeb_node.Network.ClientSession.{
  SessionResult, progressed, blocked, closed, failed, eintr, eagain, other, IoResult, count,
  refused, ClientSession, valid, no_progress, drain_loop, drain_input, AcceptResult, no_connection,
  connection, accept, no_session, adopt, Pump, pump,
}
use aeb_node.Network.ClientSession.Stream.{unsent}
use aeb_node.Network.ClientSession.Progress.{settled, pump_ends}
use aeb_node.Network.WakePipe.{WakePipe, drain}
use aeb_node.Network.TcpServer.{
  TcpServer, set_error, end_session, replace_session, install_session, accept_client, record_output,
  service_output,
}
use aeb_node.Network.TcpServer.Rounds.{
  Revents, RoundCalls, PollResult, poll_refused, polled, end_by_input, service_client_events,
  service_wake, service_client, service_listen, service_queue, service, finish, run_round,
}
use aeb_node.Network.TcpServer.Invariant.{Thread, end_session_lem}

-- Some read finds nothing, or fails other than by an interruption.
abbrev pub Empties : List IoResult → Type 0
Empties [] = ⊥
Empties (count (suc n) ∷ rs) = Empties rs
Empties (refused eintr ∷ rs) = Empties rs
Empties (r ∷ rs) = Unit

-- Some accept yields a socket that can be made non-blocking, or fails other than by an interruption.
abbrev pub Concludes : List AcceptResult → Type 0
Concludes [] = ⊥
Concludes (no_connection eintr ∷ rs) = Concludes rs
Concludes (connection fd false ∷ rs) = Concludes rs
Concludes (r ∷ rs) = Unit

-- The octets that a held session has still to send.
abbrev pub to_send : TcpServer → ℕ
to_send s =
    length
      (unsent (record { session = s.session; queue = s.queue; progress = no_progress; sent = [] }))

-- Enough answers for the output of the round.
abbrev pub Enough : List IoResult → TcpServer → Type 0
Enough rs s = (0 < settled rs) × (valid s.session ≡ true → to_send s < settled rs)

drain_ends : (rs : List IoResult) (w : WakePipe) → Empties rs → Succeeds (drain rs w)
unfolding drain
drain_ends [] w h = absurd h
drain_ends (count (suc n) ∷ rs) w h = drain_ends rs _ h
drain_ends (refused eintr ∷ rs) w h = drain_ends rs w h
drain_ends (count zero ∷ rs) w h = (_, refl)
drain_ends (refused eagain ∷ rs) w h = (_, refl)
drain_ends (refused (other e) ∷ rs) w h = (_, refl)

drain_loop_ends : (rs : List IoResult) → Empties rs → Succeeds (drain_loop rs)
unfolding drain_loop
drain_loop_ends [] h = absurd h
drain_loop_ends (count (suc n) ∷ rs) h = drain_loop_ends rs h
drain_loop_ends (refused eintr ∷ rs) h = drain_loop_ends rs h
drain_loop_ends (count zero ∷ rs) h = (_, refl)
drain_loop_ends (refused eagain ∷ rs) h = (_, refl)
drain_loop_ends (refused (other e) ∷ rs) h = (_, refl)

drain_input_ends :
    (rs : List IoResult) (c : ClientSession) → Empties rs → Succeeds (drain_input rs c)
unfolding drain_input
drain_input_ends rs c h =
    Succeeds-if (not (valid c)) (some failed) (drain_loop rs) (λ e. (_, refl))
      (λ e. drain_loop_ends rs h)

-- The session that `accept` returns has sent nothing.
Accepted : Option (ClientSession × Option Message) → Type 0
Accepted m =
    (v : ClientSession × Option Message) × (m ≡ some v)
    × ((v.0 ≡ no_session) ⊎ ((fd : ℕ) × (v.0 ≡ adopt fd)))

accept-Accepted :
    (rs : List AcceptResult) (error : Option Message) → Concludes rs → Accepted (accept rs error)
unfolding accept Accepted
accept-Accepted [] error h = absurd h
accept-Accepted (no_connection eintr ∷ rs) error h = accept-Accepted rs error h
accept-Accepted (no_connection eagain ∷ rs) error h = (_, refl, inl refl)
accept-Accepted (no_connection (other e) ∷ rs) error h = (_, refl, inl refl)
accept-Accepted (connection fd false ∷ rs) error h =
    accept-Accepted rs (some client_nonblocking_failed) h
accept-Accepted (connection fd true ∷ rs) error h = (_, refl, inr (fd, refl))

-- A handler that returns, and leaves no more to send.
abbrev Serves : List IoResult → Option TcpServer → Type 0
Serves rs m = (s' : TcpServer) × (m ≡ some s') × Enough rs s'

-- The queue and the session decide what is to be sent.
Enough-as :
    (rs : List IoResult) (s s' : TcpServer)
    → s'.session ≡ s.session
    → s'.queue ≡ s.queue
    → Enough rs s
    → Enough rs s'
Enough-as rs s s' e e' (answers, enough) = (
  answers,
  λ v.
      subst (λ n. n < settled rs)
        (sym (
          ap
            (λ c. length (
              unsent (record { session = c; queue = s'.queue; progress = no_progress; sent = [] })))
            e
          ∙ ap
              (λ q. length (
                unsent
                  (record { session = s.session; queue = q; progress = no_progress; sent = [] })))
              e'))
        (enough (sym (ap valid e) ∙ v)),
)

Enough-end_session :
    (rs : List IoResult) (error_related : Bool) (s : TcpServer)
    → Enough rs s
    → Enough rs (end_session error_related s)
Enough-end_session rs b s (answers, enough) = (
  answers,
  λ v. absurd (
      false≢true (
        sym (
          end_session_lem
            (record { runs = s.running; may_join = s.joinable; asked = s.stop_requested }) b s)
        ∙ v)),
)

clear_frames_empty : (fs : List ScanFrame) (q : FrameQueue) → (clear_frames fs q).queue ≡ []
unfolding clear_frames
clear_frames_empty [] q = refl
clear_frames_empty (f ∷ fs) q = clear_frames_empty fs _

Enough-set_error :
    (rs : List IoResult) (error : Option Message) (s : TcpServer)
    → Enough rs s
    → Enough rs (set_error error s)
unfolding set_error
Enough-set_error rs none s m = m
Enough-set_error rs (some message) s m =
    Enough-as rs s (record s { last_error = some message }) refl refl m

-- A new session has nothing to send.
Enough-install_session :
    (rs : List IoResult) (fd : ℕ) (s : TcpServer)
    → 0 < settled rs
    → Enough rs (install_session (adopt fd) s)
unfolding install_session clear
Enough-install_session rs fd s h = (
  h,
  λ v.
      omega (arith, h, ap (λ fs. length (encodings fs)) (clear_frames_empty s.queue.queue s.queue)),
)
