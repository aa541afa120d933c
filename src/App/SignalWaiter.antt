-- ===== src/App/SignalWaiter.antt =====
-- app/SignalWaiter.cpp: waitFor, on the answers of `sigtimedwait`.
pub mod Laws
pub mod Mask
mod Tests
use aeb_node.Prelude.{
  ℕ, zero, suc, ◌*◌, ◌/◌, ◌%◌, Bool, not, List, [], ◌∷◌, Option, some, none, ◌==◌, ltb,
  if◌then◌else◌,
}
use aeb_node.Prelude.Int.{ℤ, pos, negsuc}

-- `SIGPIPE` of Linux
abbrev pub sigpipe : ℕ
sigpipe = 13

abbrev pub nanos_per_milli : ℕ
nanos_per_milli = 1000000

abbrev pub millis_per_second : ℕ
millis_per_second = 1000

pub record Timespec : Type 0 where
  pub tv_sec : ℕ
  pub tv_nsec : ℕ

-- The `timespec` of a timeout in milliseconds; a negative one counts as 0.
unfoldable pub to_timespec : ℤ → Timespec
to_timespec (negsuc n) = record { tv_sec = 0; tv_nsec = 0 }
to_timespec (pos millis) = record {
  tv_sec = millis / millis_per_second;
  tv_nsec = millis % millis_per_second * nanos_per_milli;
}

-- An answer of `sigtimedwait`: a signal, whose number is not 0, or -1 with `errno`.
pub data WaitResult : Type 0 where
  signalled : ℕ → WaitResult
  interrupted timed_out : WaitResult

-- `waitFor(timeout)`; `none`: the answers end before the call returns.
unfoldable pub wait_loop : List WaitResult → Option ℕ
wait_loop [] = none
wait_loop (signalled n ∷ rs) = let rest = wait_loop rs in if n == sigpipe then rest else some n
wait_loop (interrupted ∷ rs) = wait_loop rs
wait_loop (timed_out ∷ rs) = some 0

unfoldable pub wait_for : Bool → List WaitResult → Option ℕ
unfolding wait_loop
wait_for installed rs = if not installed then some 0 else wait_loop rs
