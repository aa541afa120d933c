-- ===== src/App/SignalWaiter/Laws.antt =====
-- app/SignalWaiter.cpp: which signals waitFor returns, and the timeout handed to the kernel.
use Prim.{Unit}
use aeb_node.Prelude.{
  ℕ, ◌+◌, ◌*◌, ◌<◌, ◌≡◌, ◌≢◌, refl, ◌∙◌, true, List, [], ◌∷◌, some, ◌==◌, All, ◌++◌, if-eq_of_true,
  if-eq_of_false, ==_iff, arith,
}
use aeb_node.Prelude.Int.{pos}
use aeb_node.App.SignalWaiter.{
  sigpipe, to_timespec, WaitResult, signalled, interrupted, timed_out, wait_loop, wait_for,
}

-- An answer that is no reason to return: a dropped client's signal, or an interruption.
abbrev pub IsAbsorbed : WaitResult → Type 0
IsAbsorbed (signalled n) = n ≡ sigpipe
IsAbsorbed interrupted = Unit {0}
IsAbsorbed timed_out = ⊥

wait_loop-absorbed :
    (before rs : List WaitResult) → All IsAbsorbed before → wait_loop (before ++ rs) ≡ wait_loop rs
unfolding wait_loop
wait_loop-absorbed [] rs h = refl
wait_loop-absorbed (signalled n ∷ before) rs h =
    if-eq_of_true (n == sigpipe) _ _ ((==_iff n sigpipe).1 h.0) (wait_loop-absorbed before rs h.1)
wait_loop-absorbed (interrupted ∷ before) rs h = wait_loop-absorbed before rs h.1
wait_loop-absorbed (timed_out ∷ before) rs h = absurd h.0

-- However many SIGPIPEs and interruptions come first, an installed waiter returns the number of the
-- first signal that is neither, and 0 if the timeout comes before it.
pub wait_for_lem :
    (before rest : List WaitResult) (n : ℕ)
    → All IsAbsorbed before
    → n ≢ sigpipe
    → (wait_for true (before ++ (signalled n ∷ rest)) ≡ some n)
      × (wait_for true (before ++ (timed_out ∷ rest)) ≡ some 0)
unfolding wait_for wait_loop
wait_for_lem before rest n h k = (
  wait_loop-absorbed before (signalled n ∷ rest) h
      ∙ if-eq_of_false (n == sigpipe) _ _ (ground arith) refl,
  wait_loop-absorbed before (timed_out ∷ rest) h,
)

-- For a timeout of 0 milliseconds or more, the two fields of the `timespec` add up to it exactly, and
-- the nanoseconds stay below a second, as the kernel requires.
pub to_timespec_lem :
    (millis : ℕ)
    → ((to_timespec (pos millis)).tv_sec * 1000000000 + (to_timespec (pos millis)).tv_nsec
        ≡ millis * 1000000)
      × ((to_timespec (pos millis)).tv_nsec < 1000000000)
unfolding to_timespec
to_timespec_lem millis = omega arith
