-- ===== src/Network/TcpServer/Sound.antt =====
-- network/TcpServer.cpp: the servers that the threads reach from a new one.
use aeb_node.Prelude.{
  ℕ, ◌≡◌, refl, sym, Bool, true, false, some, arith, Holds, holds, Holds-weaken, Bool-cases, ◌⊎◌,
  inl, inr, subst, if-eq_of_true,
}
use aeb_node.Network.Message.{already_running}
use aeb_node.Network.FrameQueue.Invariant.{new-IsValid}
use aeb_node.Network.TcpServer.{
  TcpServer, new_server, set_error, publish, accept_client, service_output,
}
use aeb_node.Network.TcpServer.Control.{StartCalls, start, stop}
use aeb_node.Network.TcpServer.Rounds.{run_round, service_client_events}
use aeb_node.Network.TcpServer.Invariant.{IsCoherent}
use aeb_node.Network.TcpServer.Lifecycle.{start-Attempted}
use aeb_node.Network.TcpServer.Reach.{
  IsSound, Step, publishes, rounds, hears, accepts, sends, starts, requests, stops, Reaches, here,
  after, IsCoherent-as, handled-IsSound, run_round-IsSound, publish-IsSound,
}
use aeb_node.Network.TcpServer.Reach.Stopped.{IsStopped, requested-IsSound, stop-Holds}
use aeb_node.Network.TcpServer.Invariant.{
  accept_client-IsCoherent, service_output-IsCoherent, service_client_events-IsCoherent,
}

already : (s : TcpServer) → IsSound s → IsSound (set_error (some already_running) s)
unfolding set_error
already s d = record {
  coherent = IsCoherent-as d.coherent refl refl refl refl;
  idle = d.idle;
  unjoined = d.unjoined;
}

refused_start :
    (c : StartCalls) (s : TcpServer)
    → s.running ≡ true
    → start c s ≡ some (false, set_error (some already_running) s)
unfolding start
refused_start c s r = if-eq_of_true s.running _ _ r refl

start-IsSound :
    (c : StartCalls) (s : TcpServer)
    → IsSound s
    → Holds (λ (v : Bool × TcpServer). IsSound v.1) (start c s)
start-IsSound c s d = by_running (Bool-cases s.running)
  where
    by_running :
        ((s.running ≡ true) ⊎ (s.running ≡ false))
        → Holds (λ (v : Bool × TcpServer). IsSound v.1) (start c s)
    by_running (inl r) =
        subst (Holds (λ (v : Bool × TcpServer). IsSound v.1)) (sym (refused_start c s r))
          (already s d)
    by_running (inr r) = Holds-weaken (start c s) (start-Attempted c s d r) (λ v a. a.sound)

Step-IsSound : {s s' : TcpServer} → Step s s' → IsSound s → IsSound s'
Step-IsSound (publishes rs f e) d = holds IsSound (publish rs f _) (publish-IsSound rs f _ d) e
Step-IsSound (rounds c r e) d =
    holds (λ (v : Bool × TcpServer). IsSound v.1) (run_round c _) (run_round-IsSound c _ d r) e
Step-IsSound (hears v rs r e) d = handled-IsSound _ _ d r (
    holds (IsCoherent _) (service_client_events v rs _)
      (service_client_events-IsCoherent _ v rs _ d.coherent) e)
Step-IsSound (accepts rs r e) d =
    handled-IsSound _ _ d r
      (holds (IsCoherent _) (accept_client rs _) (accept_client-IsCoherent _ rs _ d.coherent) e)
Step-IsSound (sends rs r e) d =
    handled-IsSound _ _ d r
      (holds (IsCoherent _) (service_output rs _) (service_output-IsCoherent _ rs _ d.coherent) e)
Step-IsSound (starts c e) d =
    holds (λ (v : Bool × TcpServer). IsSound v.1) (start c _) (start-IsSound c _ d) e
Step-IsSound (requests w) d = requested-IsSound w _ d
Step-IsSound (stops rs rest e) d =
    (holds IsStopped (stop rs rest _) (stop-Holds rs rest _ d) e).sound

pub new-IsSound : (capacity : ℕ) → IsSound (new_server capacity)
new-IsSound capacity = record {
  coherent = record {
    same_running = refl;
    same_joinable = refl;
    same_asked = refl;
    mirror = refl;
    stats_mirror = refl;
    balance = omega arith;
    queue_valid = new-IsValid capacity;
  };
  idle = λ e. refl;
  unjoined = λ e. refl;
}

Reaches-IsSound : {s s' : TcpServer} → Reaches s s' → IsSound s → IsSound s'
Reaches-IsSound here d = d
Reaches-IsSound (after t r) d = Reaches-IsSound r (Step-IsSound t d)

-- In every state that a new server reaches, whatever frames are published, whatever clients and system
-- do, and however the calls, rounds and handlers of the threads interleave: both mirrors tell whether a
-- session is held; the sessions ever accepted are those ended and the one held, up to the wrap of the
-- counters; the queue is within its bounds; a session is held only while the I/O thread runs, and the
-- thread runs only while it can be joined.
pub reachable-IsSound : (capacity : ℕ) (s : TcpServer) → Reaches (new_server capacity) s → IsSound s
reachable-IsSound capacity s r = Reaches-IsSound r (new-IsSound capacity)
