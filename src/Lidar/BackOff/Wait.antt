-- ===== src/Lidar/BackOff/Wait.antt =====
-- How long backOff goes on once stop was called (lidar/Lidar.cpp).
use aeb_node.Prelude.{ℕ, ◌≤◌, ◌<◌, ◌≡◌, ◌⊎◌, inl, inr, refl, ap, arith, true}
use aeb_node.Lidar.BackOff.{
  WaitPhase, before_test, before_wait, waiting, returned, BackOff, test, woken, notify, WaitStep,
  tests, waits, wakes, times_out,
}

-- The steps that the acquisition thread may still take once the flag is set.
abbrev pub steps_left : WaitPhase → ℕ
steps_left before_test = 1
steps_left before_wait = 3
steps_left waiting = 2
steps_left returned = 0

WaitStep-steps_left :
    {s t : BackOff}
    → WaitStep s t
    → s.stop_requested ≡ true
    → (t.stop_requested ≡ true) × (steps_left t.wait < steps_left s.wait)
unfolding test
WaitStep-steps_left (tests s e) h = (h, ground (arith, e, h))
WaitStep-steps_left (waits s e) h = (h, omega (arith, ap steps_left e))
WaitStep-steps_left (wakes s e) h = (h, omega (arith, ap steps_left e))
WaitStep-steps_left (times_out s e) h = (h, omega (arith, ap steps_left e))

notify-steps_left : (s : BackOff) → steps_left (notify s).wait ≤ steps_left s.wait
unfolding notify
notify-steps_left s = woken-steps_left s.wait
  where
    woken-steps_left : (p : WaitPhase) → steps_left (woken p) ≤ steps_left p
    woken-steps_left before_test = omega arith
    woken-steps_left before_wait = omega arith
    woken-steps_left waiting = omega arith
    woken-steps_left returned = omega arith

can_go_on : (s : BackOff) → (s.wait ≡ returned) ⊎ ((t : BackOff) × WaitStep s t)
can_go_on s = by_phase s.wait refl
  where
    by_phase : (p : WaitPhase) → s.wait ≡ p → (s.wait ≡ returned) ⊎ ((t : BackOff) × WaitStep s t)
    by_phase before_test e = inr (test s, tests s e)
    by_phase before_wait e = inr (_, waits s e)
    by_phase waiting e = inr (_, times_out s e)
    by_phase returned e = inl e

-- The test of the predicate ends the wait.
test-returned :
    {s t : BackOff}
    → WaitStep s t
    → s.wait ≡ before_test
    → s.stop_requested ≡ true
    → t.wait ≡ returned
unfolding test
test-returned (tests s e') e h = ground (arith, h)
test-returned (waits s e') e h = cc
test-returned (wakes s e') e h = cc
test-returned (times_out s e') e h = cc

-- The state in which a notification finds backOff in its wait.
abbrev pub found_waiting : BackOff → BackOff
found_waiting s = record s { wait = waiting }

notify-woken : (s : BackOff) → (notify (found_waiting s)).wait ≡ before_test
unfolding notify
notify-woken s = refl

notify-returned :
    (s t : BackOff)
    → s.stop_requested ≡ true
    → WaitStep (notify (found_waiting s)) t
    → t.wait ≡ returned
unfolding notify
notify-returned s t h step = test-returned step refl h

-- Once stop has set its flag, a notification that finds backOff in its wait wakes it, and its next step,
-- the test of the predicate, returns: the delay is not waited for. Whether or not the notification finds
-- it there, backOff returns after three steps of its thread at most, one of which may be the end of the
-- delay: until then its thread can take a step, each step leaves fewer, the notification leaves no more,
-- and the flag stays set.
pub backoff_ends :
    (s : BackOff)
    → s.stop_requested ≡ true
    → (steps_left s.wait ≤ 3)
      × ((s.wait ≡ returned) ⊎ ((t : BackOff) × WaitStep s t))
      × ((t : BackOff)
          → WaitStep s t
          → (t.stop_requested ≡ true) × (steps_left t.wait < steps_left s.wait))
      × (steps_left (notify s).wait ≤ steps_left s.wait)
      × ((notify (found_waiting s)).wait ≡ before_test)
      × ((t : BackOff) → WaitStep (notify (found_waiting s)) t → t.wait ≡ returned)
backoff_ends s h = (
  at_most_3 s.wait,
  can_go_on s,
  (λ t step. WaitStep-steps_left step h),
  notify-steps_left s,
  notify-woken s,
  (λ t step. notify-returned s t h step),
)
  where
    at_most_3 : (p : WaitPhase) → steps_left p ≤ 3
    at_most_3 before_test = omega arith
    at_most_3 before_wait = omega arith
    at_most_3 waiting = omega arith
    at_most_3 returned = omega arith
