-- ===== src/Lidar/BackOff/Tests.antt =====
-- A stop between the test of the predicate and the wait: its notification wakes nobody.
use aeb_node.Prelude.{◌≤◌, ◌<◌, ◌≡◌, ◌⊎◌, refl, true}
use aeb_node.Lidar.BackOff.{
  BackOff, before_test, waiting, returned, notified, entering, test, store, notify, WaitStep, tests,
  waits, wait_step, stores, notifies, Reach, start, further,
}
use aeb_node.Lidar.BackOff.Wait.{steps_left, found_waiting, backoff_ends}

abbrev missed : BackOff
missed = record { wait = waiting; stop = notified; stop_requested = true }

missed_reached : Reach missed
unfolding test store notify
missed_reached =
    further _ _
      (further _ _
        (further _ _ (further _ _ start (wait_step _ _ (tests entering refl)))
          (stores (test entering) refl))
        (notifies (store (test entering)) refl))
      (wait_step _ _ (waits (notify (store (test entering))) refl))

backoff_ends_example :
    (steps_left missed.wait ≤ 3)
    × ((missed.wait ≡ returned) ⊎ ((t : BackOff) × WaitStep missed t))
    × ((t : BackOff)
        → WaitStep missed t
        → (t.stop_requested ≡ true) × (steps_left t.wait < steps_left missed.wait))
    × (steps_left (notify missed).wait ≤ steps_left missed.wait)
    × ((notify (found_waiting missed)).wait ≡ before_test)
    × ((t : BackOff) → WaitStep (notify (found_waiting missed)) t → t.wait ≡ returned)
backoff_ends_example = backoff_ends missed refl
