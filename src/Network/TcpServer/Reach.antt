-- ===== src/Network/TcpServer/Reach.antt =====
-- network/TcpServer.cpp: the states that a server reaches, whatever the threads, the clients and the
-- system do. A step of a thread is a whole call or a whole handler.
pub mod Stopped
use Prim.{tt}
use aeb_node.Prelude.{
  ◌≡◌, refl, ap, ◌∙◌, sym, Bool, true, false, not, List, Option, some, none, ◌>>=◌, arith, bit,
  Holds, Holds->>=, Holds-if, Holds-weaken,
}
use aeb_node.Types.{ScanFrame}
use aeb_node.Network.Message.{poll_failed}
use aeb_node.Network.ClientSession.{
  IoResult, ClientSession, valid, eintr, eagain, other, AcceptResult,
}
use aeb_node.Network.WakePipe.{WakePipe, signal, close_pipe}
use aeb_node.Network.TcpServer.{
  TcpServer, set_error, end_session, accept_client, service_output, publish,
}
use aeb_node.Network.TcpServer.Control.{
  StartCalls, start, Rest, at_test, in_round, join, release, stop,
}
use aeb_node.Network.TcpServer.Rounds.{
  Revents, service_client_events, service, finish, run_round, RoundCalls, PollResult, poll_refused,
  polled,
}
use aeb_node.Network.TcpServer.Invariant.{
  Thread, IsCoherent, service-IsCoherent, clear_queue-IsCoherent, end_session-IsCoherent,
  end_session_lem,
}
use aeb_node.Network.TcpServer.Publish.{Published, publish-Holds}

-- A session lives only while the I/O thread runs, and the thread runs only while it can be joined.
pub record IsSound (s : TcpServer) : Type 0 where
  pub coherent :
      IsCoherent (record { runs = s.running; may_join = s.joinable; asked = s.stop_requested }) s
  pub idle : s.running ≡ false → valid s.session ≡ false
  pub unjoined : s.joinable ≡ false → s.running ≡ false

-- What a thread may do next. The I/O thread takes a round of its loop, or, to let other threads in
-- between, one handler; `requests` and `stops` are the two ends of a `stop`.
pub data Step : TcpServer → TcpServer → Type 0 where
  publishes :
      {s s' : TcpServer} (rs : List IoResult) (f : ScanFrame) → publish rs f s ≡ some s' → Step s s'
  rounds :
      {s s' : TcpServer} {again : Bool} (c : RoundCalls)
      → s.running ≡ true
      → run_round c s ≡ some (again, s')
      → Step s s'
  hears :
      {s s' : TcpServer} (v : Revents) (rs : List IoResult)
      → s.running ≡ true
      → service_client_events v rs s ≡ some s'
      → Step s s'
  accepts :
      {s s' : TcpServer} (rs : List AcceptResult)
      → s.running ≡ true
      → accept_client rs s ≡ some s'
      → Step s s'
  sends :
      {s s' : TcpServer} (rs : List IoResult)
      → s.running ≡ true
      → service_output rs s ≡ some s'
      → Step s s'
  starts : {s s' : TcpServer} {ok : Bool} (c : StartCalls) → start c s ≡ some (ok, s') → Step s s'
  requests : {s : TcpServer} (w : WakePipe) → Step s (record s { stop_requested = true; wake = w })
  stops :
      {s s' : TcpServer} (rs : List IoResult) (rest : Rest) → stop rs rest s ≡ some s' → Step s s'

pub data Reaches : TcpServer → TcpServer → Type 0 where
  here : {s : TcpServer} → Reaches s s
  after : {s s' s'' : TcpServer} → Step s s' → Reaches s' s'' → Reaches s s''

-- Only the counters, the queue and the session matter to `IsCoherent`.
pub IsCoherent-as :
    {t : Thread} {s s' : TcpServer}
    → IsCoherent t s
    → s'.client_connected ≡ s.client_connected
    → s'.stats ≡ s.stats
    → s'.session ≡ s.session
    → s'.queue ≡ s.queue
    → IsCoherent
        (record { runs = s'.running; may_join = s'.joinable; asked = s'.stop_requested })
        s'
IsCoherent-as {s = s} {s' = s'} c same_mirror same_stats same_session same_queue = ground arith

-- A handler of the running thread.
pub handled-IsSound :
    (s s' : TcpServer)
    → IsSound s
    → s.running ≡ true
    → IsCoherent (record { runs = s.running; may_join = s.joinable; asked = s.stop_requested }) s'
    → IsSound s'
handled-IsSound s s' d r c = record {
  coherent = IsCoherent-as c refl refl refl refl;
  idle = λ e. cc;
  unjoined = λ e. c.same_running ∙ d.unjoined (sym c.same_joinable ∙ e);
}

end_session-thread :
    (e : Bool) (s : TcpServer)
    → ((end_session e s).running ≡ s.running) × ((end_session e s).joinable ≡ s.joinable)
unfolding end_session
end_session-thread e s = ground arith

finish-IsSound : (s : TcpServer) → IsSound s → IsSound (finish s)
unfolding finish
finish-IsSound s d =
    let t : Thread = record { runs = s.running; may_join = s.joinable; asked = s.stop_requested } in
    let c = end_session-IsCoherent t false s d.coherent in
    record {
      coherent =
          IsCoherent-as (clear_queue-IsCoherent t (end_session false s) c) refl refl refl refl;
      idle = λ e. end_session_lem t false s;
      unjoined = λ e. refl;
    }

pub run_round-IsSound :
    (c : RoundCalls) (s : TcpServer)
    → IsSound s
    → s.running ≡ true
    → Holds (λ (r : Bool × TcpServer). IsSound r.1) (run_round c s)
unfolding run_round set_error
run_round-IsSound c s d r =
    Holds-if (λ (r : Bool × TcpServer). IsSound r.1) s.stop_requested _ _ (λ e. finish-IsSound s d)
      (λ e. by_poll c.poll)
  where
    t : Thread
    t = record { runs = s.running; may_join = s.joinable; asked = s.stop_requested }

    failing : IsSound (set_error (some poll_failed) s)
    failing = record {
      coherent = IsCoherent-as d.coherent refl refl refl refl;
      idle = d.idle;
      unjoined = d.unjoined;
    }

    by_poll :
        (p : PollResult)
        → Holds
            (λ (r : Bool × TcpServer). IsSound r.1)
            (elim p [
              | poll_refused eintr ↦ some (true, s)
              | poll_refused eagain ↦ some (false, finish (set_error (some poll_failed) s))
              | poll_refused (other e) ↦ some (false, finish (set_error (some poll_failed) s))
              | polled wake pending revents ↦
                  service wake pending revents c s >>= λ s'. some (true, s')
            ])
    by_poll (poll_refused eintr) = d
    by_poll (poll_refused eagain) = finish-IsSound _ failing
    by_poll (poll_refused (other e)) = finish-IsSound _ failing
    by_poll (polled wake pending revents) =
        Holds->>= (IsCoherent t) (λ (r : Bool × TcpServer). IsSound r.1)
          (service wake pending revents c s) _
          (service-IsCoherent t wake pending revents c s d.coherent)
          (λ s' h. handled-IsSound s s' d r h)

pub publish-IsSound :
    (rs : List IoResult) (f : ScanFrame) (s : TcpServer)
    → IsSound s
    → Holds IsSound (publish rs f s)
publish-IsSound rs f s d =
    Holds-weaken (publish rs f s) (publish-Holds rs f s d.coherent.queue_valid) (published s d)
  where
    published : (s : TcpServer) → IsSound s → (s' : TcpServer) → Published rs f s s' → IsSound s'
    published s d s' p = record {
      coherent = record {
        same_running = refl;
        same_joinable = refl;
        same_asked = refl;
        mirror = p.same_connected ∙ d.coherent.mirror ∙ ap valid (sym p.same_session);
        stats_mirror = p.same_mirror ∙ d.coherent.stats_mirror ∙ ap valid (sym p.same_session);
        balance = omega (
          arith,
          d.coherent.balance,
          p.same_connects,
          p.same_disconnects,
          ap (λ a. bit (valid a)) p.same_session,
        );
        queue_valid = p.queue_valid;
      };
      idle = λ e. ap valid p.same_session ∙ d.idle (sym p.same_running ∙ e);
      unjoined = λ e. p.same_running ∙ d.unjoined (sym p.same_joinable ∙ e);
    }

-- `start` and `stop` touch neither the session, other than by the loop's end, nor its mirrors.
pub flags_only :
    (s s' : TcpServer)
    → IsSound s
    → valid s.session ≡ false
    → s'.client_connected ≡ s.client_connected
    → s'.stats ≡ s.stats
    → s'.session ≡ s.session
    → s'.queue ≡ s.queue
    → (s'.joinable ≡ false → s'.running ≡ false)
    → IsSound s'
flags_only s s' d v same_mirror same_stats same_session same_queue unjoined = record {
  coherent = IsCoherent-as d.coherent same_mirror same_stats same_session same_queue;
  idle = λ e. ap valid same_session ∙ v;
  unjoined = unjoined;
}
