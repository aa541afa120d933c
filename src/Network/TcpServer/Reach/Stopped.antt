-- ===== src/Network/TcpServer/Reach/Stopped.antt =====
-- network/TcpServer.cpp: what stop leaves of a server.
use Prim.{tt}
use aeb_node.Prelude.{
  ◌≡◌, refl, ◌∙◌, sym, Bool, if◌then◌else◌, ◌==◌, true, false, not, List, Option, some, none, ◌>>=◌,
  arith, Holds, Holds->>=, Holds-if,
}
use aeb_node.Network.ClientSession.{IoResult, ClientSession, valid}
use aeb_node.Network.WakePipe.{WakePipe, signal, close_pipe}
use aeb_node.Network.TcpServer.{TcpServer}
use aeb_node.Network.TcpServer.Control.{
  Rest, at_test, in_poll, in_round, leave, join, release, stop,
}
use aeb_node.Network.TcpServer.Rounds.{Revents, RoundCalls, service, finish}
use aeb_node.Network.TcpServer.Invariant.{Thread, IsCoherent, service-IsCoherent}
use aeb_node.Network.TcpServer.Reach.{
  IsSound, IsCoherent-as, handled-IsSound, finish-IsSound, flags_only,
}

-- The thread has ended and been joined.
record IsJoined (s : TcpServer) : Type 0 where
  sound : IsSound s
  no_client : valid s.session ≡ false
  not_joinable : s.joinable ≡ false
  not_running : s.running ≡ false

finished-IsJoined : (s : TcpServer) → IsSound s → IsJoined (record (finish s) { joinable = false })
unfolding finish
finished-IsJoined s d =
    let f = finish-IsSound s d in
    record {
      sound = record {
        coherent = IsCoherent-as f.coherent refl refl refl refl;
        idle = f.idle;
        unjoined = λ e. refl;
      };
      no_client = f.idle refl;
      not_joinable = refl;
      not_running = refl;
    }

leave-IsJoined : (s : TcpServer) → IsSound s → Holds IsJoined (leave s)
unfolding leave
leave-IsJoined s d =
    Holds-if IsJoined s.stop_requested _ none (λ e. finished-IsJoined s d) (λ e. tt)

join-IsJoined : (rest : Rest) (s : TcpServer) → IsSound s → Holds IsJoined (join rest s)
unfolding join
join-IsJoined rest s d =
    Holds-if IsJoined (not s.joinable) (some s) _
      (λ e.
        let stopped = d.unjoined (ground arith) in
        record {
          sound = d;
          no_client = d.idle stopped;
          not_joinable = ground arith;
          not_running = stopped;
        })
      (λ e.
        Holds-if IsJoined (not s.running) _ _
          (λ e'.
            let stopped : s.running ≡ false = ground arith in
            record {
              sound = flags_only s _ d (d.idle stopped) refl refl refl refl (λ j. stopped);
              no_client = d.idle stopped;
              not_joinable = refl;
              not_running = stopped;
            })
          (λ e'. by_rest rest (ground arith)))
  where
    t : Thread
    t = record { runs = s.running; may_join = s.joinable; asked = s.stop_requested }

    served :
        s.running ≡ true
        → (wake pending : Bool) (revents : Revents) (c : RoundCalls)
        → Holds IsJoined (service wake pending revents c s >>= leave)
    served r wake pending revents c =
        Holds->>= (IsCoherent t) IsJoined (service wake pending revents c s) leave
          (service-IsCoherent t wake pending revents c s d.coherent)
          (λ s' h. leave-IsJoined s' (handled-IsSound s s' d r h))

    by_rest :
        (rest : Rest)
        → s.running ≡ true
        → Holds IsJoined (elim rest [
          | at_test ↦ leave s
          | in_poll pending revents c ↦
              if s.wake.in_flight == 0 then none else service true pending revents c s >>= leave
          | in_round wake pending revents c ↦ service wake pending revents c s >>= leave
        ])
    by_rest at_test r = leave-IsJoined s d
    by_rest (in_poll pending revents c) r =
        Holds-if IsJoined (s.wake.in_flight == 0) none _ (λ e. tt)
          (λ e. served r true pending revents c)
    by_rest (in_round wake pending revents c) r = served r wake pending revents c

-- What a stopped server holds: nothing.
pub record IsStopped (s : TcpServer) : Type 0 where
  pub sound : IsSound s
  pub no_client : s.session.socket ≡ none
  pub no_listener : s.listen_fd ≡ none
  pub no_pipe : (s.wake.read_end ≡ none) × (s.wake.write_end ≡ none)
  pub not_running : s.running ≡ false
  pub not_joinable : s.joinable ≡ false

no_socket : (c : ClientSession) → valid c ≡ false → c.socket ≡ none
no_socket c h = ground arith

release-IsStopped : (s : TcpServer) → IsJoined s → IsStopped (release s)
unfolding release close_pipe
release-IsStopped s j = record {
  sound =
      flags_only s _ j.sound j.no_client (sym (j.sound.coherent.mirror ∙ j.no_client)) refl refl
        refl (λ e. refl);
  no_client = no_socket s.session j.no_client;
  no_listener = refl;
  no_pipe = (refl, refl);
  not_running = refl;
  not_joinable = j.not_joinable;
}

pub requested-IsSound :
    (w : WakePipe) (s : TcpServer)
    → IsSound s
    → IsSound (record s { stop_requested = true; wake = w })
requested-IsSound w s d = record {
  coherent = IsCoherent-as d.coherent refl refl refl refl;
  idle = d.idle;
  unjoined = d.unjoined;
}

pub stop-Holds :
    (rs : List IoResult) (rest : Rest) (s : TcpServer)
    → IsSound s
    → Holds IsStopped (stop rs rest s)
unfolding stop
stop-Holds rs rest s d = signalled (signal rs s.wake)
  where
    signalled :
        (m : Option WakePipe)
        → Holds IsStopped (do
          w ← m
          s' ← join rest (record s { stop_requested = true; wake = w })
          some (release s'))
    signalled none = tt
    signalled (some w) =
        Holds->>= IsJoined IsStopped (join rest (record s { stop_requested = true; wake = w })) _
          (join-IsJoined rest _ (requested-IsSound w s d)) release-IsStopped
