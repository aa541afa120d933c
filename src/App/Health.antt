-- ===== src/App/Health.antt =====
-- app/Application.cpp: the supervision's tick, and the count of errors that reportHealth prints.
pub mod Errors
mod Tests
use aeb_node.Prelude.{ℕ, ◌+◌, ◌-◌, ◌*◌, ◌%◌, ◌^◌, List, [], ◌∷◌, ltb, if◌then◌else◌}

-- `kIdleTick`
abbrev pub idle_tick : ℕ
idle_tick = 1000

-- The tick in milliseconds; `health_interval_s` is an `unsigned`, and so is its product with 1000.
unfoldable pub tick_ms : ℕ → ℕ
tick_ms health_interval_s =
    if ltb 0 health_interval_s then health_interval_s * 1000 % 2 ^ 32 else idle_tick

-- `reportHealth()`, of the lidar's `read_errors` and `reported_read_errors_`: the number of new errors,
-- and what is kept for the next report. The difference is that of 64-bit words.
unfoldable pub report_health : ℕ → ℕ → ℕ × ℕ
report_health read_errors reported = ((read_errors + 2 ^ 64 - reported) % 2 ^ 64, read_errors)

-- A report for each value of the counter: the numbers printed, and what is kept at the end.
unfoldable pub report_all : List ℕ → ℕ → List ℕ × ℕ
report_all [] reported = ([], reported)
report_all (errors ∷ counters) reported =
    let (new_errors, reported') = report_health errors reported in
    let (printed, kept) = report_all counters reported' in (new_errors ∷ printed, kept)
