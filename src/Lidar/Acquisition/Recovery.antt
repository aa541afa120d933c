-- ===== src/Lidar/Acquisition/Recovery.antt =====
-- lidar/Lidar.cpp: a run of failed revolutions, and the end of the loop.
use aeb_node.Prelude.{
  ℕ, zero, suc, ◌+◌, ◌%◌, ◌^◌, ◌≡◌, refl, true, false, List, [], ◌∷◌, Option, some, none,
  if◌then◌else◌, if-eq_of_true, Succeeds, Succeeds-if, ◌⊎◌, inl, inr,
}
use aeb_node.Lidar.Device.{Device, grab_failed, DeviceCalls, closed_device}
use aeb_node.Lidar.Device.{open_device as device_open}
use aeb_node.Lidar.Acquisition.{
  Lidar, set_error, Cycle, Turn, goes_on, leaves, turn, finish, run_loop,
}

-- The thread is not asked to stop, and the SDK yields no revolution.
pub record Fails (c : Cycle) : Type 0 where
  pub not_stopped : c.stop_at_test ≡ false
  pub no_revolution : c.nodes ≡ none

-- What one failed revolution leaves: the error, and one more read error.
abbrev pub failed_once : Lidar → Lidar
failed_once s = record s {
  last_error = some grab_failed;
  stats = record s.stats { read_errors = (s.stats.read_errors + 1) % 2 ^ 64 };
}

abbrev pub failed_times : ℕ → Lidar → Lidar
failed_times zero s = s
failed_times (suc n) s = failed_times n (failed_once s)

-- How the loop goes on after a turn.
abbrev pub after_turn : List Cycle → Turn → Option Lidar
after_turn cs (goes_on n s) = run_loop cs n s
after_turn cs (leaves s) = some (finish s)

failed_times-open : (n : ℕ) (s : Lidar) → (failed_times n s).device ≡ s.device
failed_times-open zero s = refl
failed_times-open (suc n) s = failed_times-open n (failed_once s)

-- The lidar after a reconnection: what the SDK makes of a closed device, and the outcome recorded.
abbrev pub reopened : DeviceCalls → Lidar → Lidar
reopened c s =
    let (ok, error, d) = device_open c closed_device in
    if ok
    then record s {
      device = d;
      stats = record s.stats { connects = (s.stats.connects + 1) % 2 ^ 64 };
      last_error = none;
    }
    else set_error error (record s { device = d })

-- Some round sees the request to stop.
abbrev pub Stops : List Cycle → Type 0
Stops [] = ⊥
Stops (c ∷ cs) = (c.stop_at_test ≡ true) ⊎ Stops cs

pub run_loop_ends : (cs : List Cycle) (n : ℕ) (s : Lidar) → Stops cs → Succeeds (run_loop cs n s)
unfolding run_loop
run_loop_ends [] n s h = absurd h
run_loop_ends (c ∷ cs) n s (inl e) = (_, if-eq_of_true c.stop_at_test _ _ e refl)
run_loop_ends (c ∷ cs) n s (inr h) =
    Succeeds-if c.stop_at_test _ _ (λ e. (_, refl))
      (λ e. turned (λ n s. run_loop_ends cs n s h) (turn c n s))
  where
    turned :
        ((n : ℕ) (s : Lidar) → Succeeds (run_loop cs n s))
        → (t : Turn)
        → Succeeds {A = Lidar}
            (elim t [ goes_on n' s' ↦ run_loop cs n' s' | leaves s' ↦ some (finish s') ])
    turned later (goes_on n' s') = later n' s'
    turned later (leaves s') = (_, refl)
