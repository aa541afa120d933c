-- ===== src/Network/TcpServer/Invariant.antt =====
-- network/TcpServer.cpp: what the handlers of the I/O thread do to the mirrors of the session, to the
-- connection counters and to the queue.
use Prim.{tt}
use aeb_node.Prelude.{
  ◌+◌, ◌%◌, ◌^◌, ◌≡◌, ap, sym, Bool, true, false, not, ◌&&◌, ◌||◌, List, [], Option, some, none,
  if◌then◌else◌, ◌>>=◌, arith, bit, Holds, Holds->>=, Holds-if, Bool-cases, inl, inr, ◌⊎◌,
}
use aeb_node.Network.Message.{Message}
use aeb_node.Network.FrameQueue.{clear}
use aeb_node.Network.FrameQueue.Invariant.{IsValid, clear-IsValid}
use aeb_node.Network.ClientSession.{
  SessionResult, progressed, blocked, closed, failed, IoResult, ClientSession, valid, close, Pump,
  pump, drain_input, AcceptResult, accept, no_progress,
}
use aeb_node.Network.ClientSession.Kept.{KeptResult, pump-Kept}
use aeb_node.Network.WakePipe.{WakePipe, drain}
use aeb_node.Network.TcpServer.{
  TcpServer, set_error, end_session, replace_session, install_session, accept_client, take_progress,
  record_output, service_output,
}
use aeb_node.Network.TcpServer.Rounds.{
  Revents, end_by_input, service_client_events, service_wake, service_client, service_listen,
  service_queue, service, RoundCalls,
}

-- What the flags of the I/O thread are, and whether it is asked to stop.
pub record Thread : Type 0 where
  pub runs : Bool
  pub may_join : Bool
  pub asked : Bool

pub record IsCoherent (t : Thread) (s : TcpServer) : Type 0 where
  pub same_running : s.running ≡ t.runs
  pub same_joinable : s.joinable ≡ t.may_join
  pub same_asked : s.stop_requested ≡ t.asked
  pub mirror : s.client_connected ≡ valid s.session
  pub stats_mirror : s.stats.client_connected ≡ valid s.session
  pub balance :
      s.stats.client_connects ≡ (s.stats.client_disconnects + bit (valid s.session)) % 2 ^ 64
  pub queue_valid : IsValid s.queue

module _ (t : Thread) where
  pub set_error-IsCoherent :
      (m : Option Message) (s : TcpServer) → IsCoherent t s → IsCoherent t (set_error m s)
  unfolding set_error
  set_error-IsCoherent m s c = ground arith

  pub end_session-IsCoherent :
      (e : Bool) (s : TcpServer) → IsCoherent t s → IsCoherent t (end_session e s)
  unfolding end_session close
  end_session-IsCoherent e s c = ground arith

  pub clear_queue-IsCoherent :
      (s : TcpServer) → IsCoherent t s → IsCoherent t (record s { queue = clear s.queue })
  clear_queue-IsCoherent s c = record {
    same_running = c.same_running;
    same_joinable = c.same_joinable;
    same_asked = c.same_asked;
    mirror = c.mirror;
    stats_mirror = c.stats_mirror;
    balance = c.balance;
    queue_valid = (clear-IsValid s.queue c.queue_valid).0;
  }

  pub end_session_lem : (e : Bool) (s : TcpServer) → valid (end_session e s).session ≡ false
  unfolding end_session close
  end_session_lem e s = ground arith

  replace_session-IsCoherent :
      (s : TcpServer)
      → IsCoherent t s
      → IsCoherent t (replace_session s) × (valid (replace_session s).session ≡ false)
  unfolding replace_session
  replace_session-IsCoherent s c =
      ground (arith, end_session-IsCoherent false s c, end_session_lem false s)

  install_session-IsCoherent :
      (a : ClientSession) (s : TcpServer)
      → valid a ≡ true
      → valid s.session ≡ false
      → IsCoherent t s
      → IsCoherent t (install_session a s)
  unfolding install_session
  install_session-IsCoherent a s v w c = record {
    same_running = c.same_running;
    same_joinable = c.same_joinable;
    same_asked = c.same_asked;
    mirror = sym v;
    stats_mirror = sym v;
    balance = omega (arith, c.balance, ap bit v, ap bit w);
    queue_valid = (clear-IsValid s.queue c.queue_valid).0;
  }

  -- The handlers of the I/O thread.
  pub accept_client-IsCoherent :
      (rs : List AcceptResult) (s : TcpServer)
      → IsCoherent t s
      → Holds (IsCoherent t) (accept_client rs s)
  unfolding accept_client
  accept_client-IsCoherent rs s c = outcome (accept rs none)
    where
      accepted :
          (a : ClientSession) (s' : TcpServer)
          → ((valid a ≡ true) ⊎ (valid a ≡ false))
          → IsCoherent t s'
          → IsCoherent t (if not (valid a) then s' else install_session a (replace_session s'))
      accepted a s' (inl v) c' =
          let (c'', w) = replace_session-IsCoherent s' c' in
          let h = install_session-IsCoherent a (replace_session s') v w c'' in ground (arith, h)
      accepted a s' (inr v) c' = ground arith

      outcome :
          (m : Option (ClientSession × Option Message))
          → Holds (IsCoherent t) (do
            (a, error) ← m
            let s' = set_error error s in
                some (if not (valid a) then s' else install_session a (replace_session s')))
      outcome none = tt
      outcome (some (a, error)) =
          accepted a (set_error error s) (Bool-cases (valid a)) (set_error-IsCoherent error s c)

  take_progress-IsCoherent :
      (s : TcpServer) (p : Pump)
      → IsCoherent t s
      → p.session.socket ≡ s.session.socket
      → IsValid p.queue
      → IsCoherent t (take_progress s p)
  unfolding take_progress
  take_progress-IsCoherent s p c e v = ground arith

  record_output-IsCoherent :
      (s : TcpServer) (r : SessionResult) (p : Pump)
      → IsCoherent t (take_progress s p)
      → IsCoherent t (record_output s r p)
  unfolding record_output
  record_output-IsCoherent s failed p c =
      end_session-IsCoherent true _ (set_error-IsCoherent _ (take_progress s p) c)
  record_output-IsCoherent s progressed p c = c
  record_output-IsCoherent s blocked p c = c
  record_output-IsCoherent s closed p c = c

  pub service_output-IsCoherent :
      (rs : List IoResult) (s : TcpServer)
      → IsCoherent t s
      → Holds (IsCoherent t) (service_output rs s)
  unfolding service_output
  service_output-IsCoherent rs s c =
      Holds->>= (KeptResult start) (IsCoherent t) (pump rs start)
        (λ v. some (record_output s v.0 v.1)) (pump-Kept rs start)
        (λ v k.
          record_output-IsCoherent s v.0 v.1
            (take_progress-IsCoherent s v.1 c k.same_socket (k.queue_valid c.queue_valid)))
    where
      start : Pump
      start = record { session = s.session; queue = s.queue; progress = no_progress; sent = [] }

  end_by_input-IsCoherent :
      (r : SessionResult) (s : TcpServer) → IsCoherent t s → IsCoherent t (end_by_input r s)
  unfolding end_by_input
  end_by_input-IsCoherent failed s c = end_session-IsCoherent true s c
  end_by_input-IsCoherent closed s c = end_session-IsCoherent false s c
  end_by_input-IsCoherent progressed s c = c
  end_by_input-IsCoherent blocked s c = c

  pub service_client_events-IsCoherent :
      (v : Revents) (rs : List IoResult) (s : TcpServer)
      → IsCoherent t s
      → Holds (IsCoherent t) (service_client_events v rs s)
  unfolding service_client_events
  service_client_events-IsCoherent v rs s c =
      Holds-if (IsCoherent t) (v.hangup || v.error || v.invalid) _ _
        (λ e. end_session-IsCoherent v.error s c)
        (λ e.
          Holds-if (IsCoherent t) (not v.input) (some s) _ (λ e. c)
            (λ e. by_input (drain_input rs s.session)))
    where
      by_input :
          (m : Option SessionResult) → Holds (IsCoherent t) (m >>= λ r. some (end_by_input r s))
      by_input none = tt
      by_input (some r) = end_by_input-IsCoherent r s c

  pub service-IsCoherent :
      (wake pending : Bool) (v : Revents) (calls : RoundCalls) (s : TcpServer)
      → IsCoherent t s
      → Holds (IsCoherent t) (service wake pending v calls s)
  unfolding service service_wake service_client service_listen service_queue
  service-IsCoherent wake pending v calls s c =
      Holds->>= (IsCoherent t) (IsCoherent t) (service_wake wake calls.reads s) _
        (Holds-if (IsCoherent t) wake _ (some s) (λ e. woken (drain calls.reads s.wake)) (λ e. c))
        (λ a ca.
          Holds->>= (IsCoherent t) (IsCoherent t)
            (service_client (valid s.session) v calls.receives a) _
            (Holds-if (IsCoherent t) (valid a.session && valid s.session) _ (some a)
              (λ e. service_client_events-IsCoherent v calls.receives a ca) (λ e. ca))
            (λ b cb.
              Holds->>= (IsCoherent t) (IsCoherent t) (service_listen pending calls.accepts b) _
                (Holds-if (IsCoherent t) pending _ (some b)
                  (λ e. accept_client-IsCoherent calls.accepts b cb) (λ e. cb))
                (λ d cd.
                  Holds-if (IsCoherent t) (valid d.session) _ _
                    (λ e. service_output-IsCoherent calls.sends d cd)
                    (λ e. clear_queue-IsCoherent d cd))))
    where
      woken : (m : Option WakePipe) → Holds (IsCoherent t) (m >>= λ w. some (record s { wake = w }))
      woken none = tt
      woken (some w) = record {
        same_running = c.same_running;
        same_joinable = c.same_joinable;
        same_asked = c.same_asked;
        mirror = c.mirror;
        stats_mirror = c.stats_mirror;
        balance = c.balance;
        queue_valid = c.queue_valid;
      }
