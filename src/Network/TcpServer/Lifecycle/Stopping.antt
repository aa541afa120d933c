-- ===== src/Network/TcpServer/Lifecycle/Stopping.antt =====
-- network/TcpServer.cpp: stop returns, wherever it finds the I/O thread.
use Prim.{tt, Unit}
use aeb_node.Prelude.{
  ℕ, zero, suc, ◌<◌, ◌≡◌, refl, ◌∙◌, ◌⊎◌, inl, inr, Bool, true, false, not, List, [], ◌∷◌, Option,
  some, none, if◌then◌else◌, ◌>>=◌, ◌==◌, holds, arith, Succeeds, if-eq_of_true, if-eq_of_false,
  >>=-eq_of_some,
}
use aeb_node.Network.ClientSession.{IoResult, count, refused, eintr, eagain, other}
use aeb_node.Network.ClientSession.Progress.{settled}
use aeb_node.Network.WakePipe.{WakePipe, write_loop, signal}
use aeb_node.Network.TcpServer.{TcpServer}
use aeb_node.Network.TcpServer.Control.{
  Rest, at_test, in_poll, in_round, leave, join, release, stop,
}
use aeb_node.Network.TcpServer.Rounds.{Revents, RoundCalls, service}
use aeb_node.Network.TcpServer.Invariant.{Thread, IsCoherent, service-IsCoherent}
use aeb_node.Network.TcpServer.Progress.{Empties, Concludes, Enough}
use aeb_node.Network.TcpServer.Progress.Rounds.{service_ends}
use aeb_node.Network.TcpServer.Publish.{signal_ends}
use aeb_node.Network.TcpServer.Reach.{IsSound}
use aeb_node.Network.TcpServer.Reach.Stopped.{IsStopped, requested-IsSound, stop-Holds}

-- The system takes the octet of a wakeup, interruptions aside.
abbrev pub TakesOctet : List IoResult → Type 0
TakesOctet [] = ⊥
TakesOctet (count (suc n) ∷ rs) = Unit {0}
TakesOctet (refused eintr ∷ rs) = TakesOctet rs
TakesOctet (r ∷ rs) = ⊥

-- An open pipe that is either still empty, and takes the octet, or has one that a signal counts on.
abbrev pub CanWake : List IoResult → WakePipe → Type 0
CanWake rs w =
    ((fd : ℕ) × (w.write_end ≡ some fd)) × ((w.pending ≡ false) ⊎ (0 < w.in_flight)) × TakesOctet rs

-- The answers by which the handlers of a round return.
abbrev pub Served : RoundCalls → TcpServer → Type 0
Served c s = Empties c.reads × Empties c.receives × Concludes c.accepts × Enough c.sends s

-- What it takes, on the answers `rs` to the wakeup, for the thread to come to the test of its loop.
abbrev pub CanLeave : List IoResult → Rest → TcpServer → Type 0
CanLeave rs at_test s = 0 < settled rs
CanLeave rs (in_poll pending revents c) s = CanWake rs s.wake × Served c s
CanLeave rs (in_round wake pending revents c) s = (0 < settled rs) × Served c s

write_loop-TakesOctet :
    (rs : List IoResult) (w : WakePipe)
    → TakesOctet rs
    → (w' : WakePipe) × (write_loop rs w ≡ some w') × (0 < w'.in_flight)
unfolding write_loop
write_loop-TakesOctet [] w h = absurd h
write_loop-TakesOctet (count zero ∷ rs) w h = absurd h
write_loop-TakesOctet (count (suc n) ∷ rs) w h = (_, refl, omega arith)
write_loop-TakesOctet (refused eintr ∷ rs) w h = write_loop-TakesOctet rs w h
write_loop-TakesOctet (refused eagain ∷ rs) w h = absurd h
write_loop-TakesOctet (refused (other e) ∷ rs) w h = absurd h

-- After the wakeup the pipe is not empty.
signal-CanWake :
    (rs : List IoResult) (w : WakePipe)
    → CanWake rs w
    → (w' : WakePipe) × (signal rs w ≡ some w') × (0 < w'.in_flight)
unfolding signal
signal-CanWake rs w ((fd, e), full, takes) = by_end w.write_end w.pending e full
  where
    by_end :
        (end : Option ℕ) (pending : Bool)
        → end ≡ some fd
        → (pending ≡ false) ⊎ (0 < w.in_flight)
        → (w' : WakePipe) × ((elim end [
          | none ↦ some w
          | some d ↦ if pending then some w else write_loop rs (record w { pending = true })
        ])
            ≡ some w')
          × (0 < w'.in_flight)
    by_end none b e f = cc
    by_end (some d) true e (inl f) = cc
    by_end (some d) true e (inr f) = (w, refl, f)
    by_end (some d) false e f = write_loop-TakesOctet rs (record w { pending = true }) takes

leave_ends : (s : TcpServer) → s.stop_requested ≡ true → Succeeds (leave s)
unfolding leave
leave_ends s h = (_, if-eq_of_true s.stop_requested _ none h refl)

service-leave :
    (wake pending : Bool) (v : Revents) (c : RoundCalls) (s : TcpServer)
    → IsSound s
    → s.stop_requested ≡ true
    → Served c s
    → Succeeds (service wake pending v c s >>= leave)
service-leave wake pending v c s d h (reads, receives, accepts, sends) =
    let (s', e) = service_ends wake pending v c s reads receives accepts sends in
    let t : Thread = record { runs = s.running; may_join = s.joinable; asked = s.stop_requested } in
    let k =
      holds (IsCoherent t) (service wake pending v c s)
        (service-IsCoherent t wake pending v c s d.coherent) e in
    let (s'', e') = leave_ends s' (k.same_asked ∙ h) in
    (s'', >>=-eq_of_some (service wake pending v c s) leave e e')

-- The thread comes to the test once the pipe is not empty.
abbrev Comes : Rest → TcpServer → Type 0
Comes at_test s = Unit {0}
Comes (in_poll pending revents c) s = (0 < s.wake.in_flight) × Served c s
Comes (in_round wake pending revents c) s = Served c s

join_ends :
    (rest : Rest) (s : TcpServer)
    → IsSound s
    → s.stop_requested ≡ true
    → Comes rest s
    → Succeeds (join rest s)
unfolding join
join_ends rest s d h k = by_thread (not s.joinable) (not s.running)
  where
    by_rest :
        (rest : Rest)
        → Comes rest s
        → Succeeds {A = TcpServer} (elim rest [
          | at_test ↦ leave s
          | in_poll pending revents c ↦
              if s.wake.in_flight == 0 then none else service true pending revents c s >>= leave
          | in_round wake pending revents c ↦ service wake pending revents c s >>= leave
        ])
    by_rest at_test k = leave_ends s h
    by_rest (in_poll pending v c) (readable, k) =
        let (s', e) = service-leave true pending v c s d h k in
        (s', if-eq_of_false (s.wake.in_flight == 0) none _ (ground (arith, readable)) e)
    by_rest (in_round wake pending v c) k = service-leave wake pending v c s d h k

    by_thread :
        (a b : Bool)
        → Succeeds {A = TcpServer} (
            if a then some s else if b then some (record s { joinable = false }) else elim rest [
              | at_test ↦ leave s
              | in_poll pending revents c ↦
                  if s.wake.in_flight == 0 then none else service true pending revents c s >>= leave
              | in_round wake pending revents c ↦ service wake pending revents c s >>= leave
            ])
    by_thread true b = (_, refl)
    by_thread false true = (_, refl)
    by_thread false false = by_rest rest k

-- The wakeup returns, and brings the thread to the test.
signal-Comes :
    (rs : List IoResult) (rest : Rest) (s : TcpServer)
    → CanLeave rs rest s
    → (w : WakePipe) × (signal rs s.wake ≡ some w)
      × Comes rest (record s { stop_requested = true; wake = w })
signal-Comes rs at_test s h = let (w, e) = signal_ends rs s.wake h in (w, e, tt)
signal-Comes rs (in_poll pending v c) s (wakes, k) =
    let (w, e, f) = signal-CanWake rs s.wake wakes in (w, e, (f, k))
signal-Comes rs (in_round wake pending v c) s (h, k) =
    let (w, e) = signal_ends rs s.wake h in (w, e, k)

pub stop-IsStopped :
    (rs : List IoResult) (rest : Rest) (s : TcpServer)
    → IsSound s
    → CanLeave rs rest s
    → (s' : TcpServer) × (stop rs rest s ≡ some s') × IsStopped s'
unfolding stop
stop-IsStopped rs rest s d h =
    let (w, e, k) = signal-Comes rs rest s h in
    let asked = record s { stop_requested = true; wake = w } in
    let (s', e') = join_ends rest asked (requested-IsSound w s d) refl k in
    let e'' = >>=-eq_of_some (signal rs s.wake) _ e (>>=-eq_of_some (join rest asked) _ e' refl) in
    (release s', e'', holds IsStopped (stop rs rest s) (stop-Holds rs rest s d) e'')
