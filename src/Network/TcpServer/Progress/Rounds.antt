-- ===== src/Network/TcpServer/Progress/Rounds.antt =====
-- network/TcpServer.cpp: the handlers of a round return, and so does the round.
use aeb_node.Prelude.{
  ℕ, ◌<◌, ◌≡◌, refl, sym, subst, ◌⊎◌, inl, inr, Bool, true, false, not, ◌&&◌, ◌||◌, List, [],
  Option, some, none, if◌then◌else◌, ◌>>=◌, Succeeds, Succeeds-if, >>=-eq_of_some,
}
use aeb_node.Network.Message.{Message, poll_failed}
use aeb_node.Network.FrameQueue.{clear}
use aeb_node.Network.ClientSession.{
  SessionResult, progressed, blocked, closed, failed, eintr, eagain, other, IoResult, ClientSession,
  valid, no_progress, drain_input, AcceptResult, accept, no_session, adopt, pump,
}
use aeb_node.Network.ClientSession.Progress.{settled, pump_ends}
use aeb_node.Network.WakePipe.{drain}
use aeb_node.Network.TcpServer.{
  TcpServer, set_error, end_session, replace_session, install_session, accept_client,
  service_output,
}
use aeb_node.Network.TcpServer.Rounds.{
  Revents, RoundCalls, PollResult, poll_refused, polled, end_by_input, service_client_events,
  service_wake, service_client, service_listen, service_queue, service, finish, run_round,
}
use aeb_node.Network.TcpServer.Progress.{
  Empties, Concludes, to_send, Enough, drain_ends, drain_input_ends, Accepted, accept-Accepted,
  Serves, Enough-as, Enough-end_session, Enough-set_error, Enough-install_session,
}

service_wake-Serves :
    (rs reads : List IoResult) (wake : Bool) (s : TcpServer)
    → Empties reads
    → Enough rs s
    → Serves rs (service_wake wake reads s)
unfolding service_wake
service_wake-Serves rs reads false s h m = (s, refl, m)
service_wake-Serves rs reads true s h m =
    let (w, e) = drain_ends reads s.wake h in
    (
      record s { wake = w },
      >>=-eq_of_some (drain reads s.wake) _ e refl,
      Enough-as rs s (record s { wake = w }) refl refl m,
    )

end_by_input-Enough :
    (rs : List IoResult) (r : SessionResult) (s : TcpServer)
    → Enough rs s
    → Enough rs (end_by_input r s)
unfolding end_by_input
end_by_input-Enough rs closed s m = Enough-end_session rs false s m
end_by_input-Enough rs failed s m = Enough-end_session rs true s m
end_by_input-Enough rs progressed s m = m
end_by_input-Enough rs blocked s m = m

service_client_events-Serves :
    (rs receives : List IoResult) (v : Revents) (s : TcpServer)
    → Empties receives
    → Enough rs s
    → Serves rs (service_client_events v receives s)
unfolding service_client_events
service_client_events-Serves rs receives v s h m =
    by_events (v.hangup || v.error || v.invalid) (not v.input)
  where
    by_events :
        (a b : Bool)
        → Serves rs (
            if a
            then some (end_session v.error s)
            else if b
            then some s
            else do result ← drain_input receives s.session; some (end_by_input result s))
    by_events true b = (_, refl, Enough-end_session rs v.error s m)
    by_events false true = (s, refl, m)
    by_events false false =
        let (result, e) = drain_input_ends receives s.session h in
        (
          _,
          >>=-eq_of_some (drain_input receives s.session) _ e refl,
          end_by_input-Enough rs result s m,
        )

service_client-Serves :
    (rs receives : List IoResult) (polled_client : Bool) (v : Revents) (s : TcpServer)
    → Empties receives
    → Enough rs s
    → Serves rs (service_client polled_client v receives s)
unfolding service_client
service_client-Serves rs receives polled_client v s h m =
    by_session (valid s.session && polled_client)
  where
    by_session : (b : Bool) → Serves rs (if b then service_client_events v receives s else some s)
    by_session true = service_client_events-Serves rs receives v s h m
    by_session false = (s, refl, m)

service_listen-Serves :
    (rs : List IoResult) (pending : Bool) (accepts : List AcceptResult) (s : TcpServer)
    → Concludes accepts
    → Enough rs s
    → Serves rs (service_listen pending accepts s)
unfolding service_listen accept_client Accepted
service_listen-Serves rs false accepts s h m = (s, refl, m)
service_listen-Serves rs true accepts s h m =
    let (v, e, o) = accept-Accepted accepts none h in
    (_, >>=-eq_of_some (accept accepts none) _ e refl, by_session v.1 v.0 o)
  where
    by_session :
        (error : Option Message) (accepted : ClientSession)
        → (accepted ≡ no_session) ⊎ ((fd : ℕ) × (accepted ≡ adopt fd))
        → Enough rs (
            if not (valid accepted)
            then set_error error s
            else install_session accepted (replace_session (set_error error s)))
    by_session error accepted (inl e) =
        subst
          (λ a. Enough rs (
            if not (valid a)
            then set_error error s
            else install_session a (replace_session (set_error error s))))
          (sym e) (Enough-set_error rs error s m)
    by_session error accepted (inr (fd, e)) =
        subst
          (λ a. Enough rs (
            if not (valid a)
            then set_error error s
            else install_session a (replace_session (set_error error s))))
          (sym e) (Enough-install_session rs fd (replace_session (set_error error s)) (m.0))

service_queue_ends :
    (rs : List IoResult) (s : TcpServer) → Enough rs s → Succeeds (service_queue rs s)
unfolding service_queue service_output
service_queue_ends rs s m =
    Succeeds-if (valid s.session) (service_output rs s) (some (record s { queue = clear s.queue }))
      (λ v.
        let (r, e) =
          pump_ends rs
            (record { session = s.session; queue = s.queue; progress = no_progress; sent = [] })
            ((m.1) v) in
        (_, >>=-eq_of_some (pump rs _) _ e refl))
      (λ v. (_, refl))

pub service_ends :
    (wake pending : Bool) (v : Revents) (c : RoundCalls) (s : TcpServer)
    → Empties c.reads
    → Empties c.receives
    → Concludes c.accepts
    → Enough c.sends s
    → Succeeds (service wake pending v c s)
unfolding service
service_ends wake pending v c s reads receives accepts m =
    let (s1, e1, m1) = service_wake-Serves c.sends c.reads wake s reads m in
    let (s2, e2, m2) =
      service_client-Serves c.sends c.receives (valid s.session) v s1 receives m1 in
    let (s3, e3, m3) = service_listen-Serves c.sends pending c.accepts s2 accepts m2 in
    let (s4, e4) = service_queue_ends c.sends s3 m3 in
    (
      s4,
      >>=-eq_of_some (service_wake wake c.reads s) _ e1 (
          >>=-eq_of_some (service_client (valid s.session) v c.receives s1) _ e2
            (>>=-eq_of_some (service_listen pending c.accepts s2) _ e3 e4)),
    )

-- A round of the I/O thread returns, whatever poll reports and whichever clients come and go in it,
-- provided that among the answers to `read` and to `recv` is an end of the input or a failure, among
-- those to `accept` a socket that can be made non-blocking or a failure, interruptions aside, and that
-- there are more answers to `send` besides interruptions than octets which a session held at the start
-- has to send, and one at least.
pub run_round_ends :
    (c : RoundCalls) (s : TcpServer)
    → Empties c.reads
    → Empties c.receives
    → Concludes c.accepts
    → 0 < settled c.sends
    → (valid s.session ≡ true → to_send s < settled c.sends)
    → (again : Bool) × (s' : TcpServer) × (run_round c s ≡ some (again, s'))
unfolding run_round
run_round_ends c s reads receives accepts answers enough = by_stop s.stop_requested c.poll
  where
    by_stop :
        (b : Bool) (p : PollResult)
        → (again : Bool) × (s' : TcpServer) × (if◌then◌else◌ {A = Option (Bool × TcpServer)} b
              (some (false, finish s))
              (elim p [
                | poll_refused eintr ↦ some (true, s)
                | poll_refused eagain ↦ some (false, finish (set_error (some poll_failed) s))
                | poll_refused (other e) ↦ some (false, finish (set_error (some poll_failed) s))
                | polled wake pending revents ↦
                    service wake pending revents c s >>= λ s'. some (true, s')
              ])
            ≡ some (again, s'))
    by_stop true p = (_, _, refl)
    by_stop false (poll_refused eintr) = (_, _, refl)
    by_stop false (poll_refused eagain) = (_, _, refl)
    by_stop false (poll_refused (other e)) = (_, _, refl)
    by_stop false (polled wake pending v) =
        let (s', e) = service_ends wake pending v c s reads receives accepts (answers, enough) in
        (true, s', >>=-eq_of_some (service wake pending v c s) _ e refl)
