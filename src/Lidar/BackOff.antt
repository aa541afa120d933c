-- ===== src/Lidar/BackOff.antt =====
-- lidar/Lidar.cpp: backOff, which waits on a condition variable, against stop, which sets the flag and
-- notifies without the mutex of that variable.
pub mod Wait
mod Tests
use aeb_node.Prelude.{ℕ, ◌≡◌, Bool, true, false, if◌then◌else◌}

-- Where the acquisition thread stands in `wait_for`: before a test of its predicate, between a test that
-- failed and the wait, which lets go of the mutex, in the wait, or past backOff.
pub data WaitPhase : Type 0 where
  before_test before_wait waiting returned : WaitPhase

-- Where the thread that calls `stop` stands.
pub data StopPhase : Type 0 where
  before_store before_notify notified : StopPhase

pub record BackOff : Type 0 where
  pub wait : WaitPhase
  pub stop : StopPhase
  pub stop_requested : Bool

abbrev pub entering : BackOff
entering = record { wait = before_test; stop = before_store; stop_requested = false }

-- The test of the predicate, before the first wait and after each wakeup.
unfoldable pub test : BackOff → BackOff
test s = record s { wait = if s.stop_requested then returned else before_wait }

-- `stop_requested.store(true)`
unfoldable pub store : BackOff → BackOff
store s = record s { stop = before_notify; stop_requested = true }

abbrev pub woken : WaitPhase → WaitPhase
woken waiting = before_test
woken p = p

-- `shutdown_cv.notify_all()` wakes a thread that is in the wait, and no other.
unfoldable pub notify : BackOff → BackOff
notify s = record s { wait = woken s.wait; stop = notified }

-- The steps of the acquisition thread; a wakeup without a notification is allowed, and the wait ends with
-- reconnect_delay_ms.
pub data WaitStep : BackOff → BackOff → Type 0 where
  tests : (s : BackOff) → s.wait ≡ before_test → WaitStep s (test s)
  waits : (s : BackOff) → s.wait ≡ before_wait → WaitStep s (record s { wait = waiting })
  wakes : (s : BackOff) → s.wait ≡ waiting → WaitStep s (record s { wait = before_test })
  times_out : (s : BackOff) → s.wait ≡ waiting → WaitStep s (record s { wait = returned })

-- Those, and the steps of `stop`.
pub data Step : BackOff → BackOff → Type 0 where
  wait_step : (s t : BackOff) → WaitStep s t → Step s t
  stores : (s : BackOff) → s.stop ≡ before_store → Step s (store s)
  notifies : (s : BackOff) → s.stop ≡ before_notify → Step s (notify s)

pub data Reach : BackOff → Type 0 where
  start : Reach entering
  further : (s t : BackOff) → Reach s → Step s t → Reach t
