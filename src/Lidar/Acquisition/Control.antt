-- ===== src/Lidar/Acquisition/Control.antt =====
-- lidar/Lidar.cpp: start and stop.
use aeb_node.Prelude.{ℕ, Bool, true, false, not, List, Option, some, none, if◌then◌else◌}
use aeb_node.Lidar.Device.{no_callback, already_running, spawn_failed, DeviceCalls, close_device}
use aeb_node.Lidar.Acquisition.{Lidar, set_error, open_lidar, Cycle, run_loop}

-- The last part of `start`. `none`: the thread is assigned to one that is still joinable, which ends
-- the process.
unfoldable pub spawn_worker : Bool → Lidar → Option (Bool × Lidar)
spawn_worker spawns s =
    if not spawns
    then some (
      false,
      record s {
        running = false;
        device = close_device s.device;
        has_callback = false;
        last_error = some spawn_failed;
      },
    )
    else if s.joinable
    then none
    else some (true, record s { running = true; joinable = true })

-- `start(callback)`
unfoldable pub start : DeviceCalls → Bool → Bool → Lidar → Option (Bool × Lidar)
start c callback spawns s =
    if not callback
    then some (false, set_error (some no_callback) s)
    else if s.running
    then some (false, set_error (some already_running) s)
    else (let (ok, s') = open_lidar c (record s { stop_requested = false; has_callback = true }) in
        if not ok then some (false, record s' { has_callback = false }) else spawn_worker spawns s')

-- `stop()`, with the rounds that the thread still takes until it sees the request.
unfoldable pub join : List Cycle → ℕ → Lidar → Option Lidar
join cs failures s =
    if not s.joinable
    then some s
    else if not s.running
    then some (record s { joinable = false })
    else elim (run_loop cs failures s) [
      | none ↦ none
      | some s' ↦ some (record s' { joinable = false })
    ]

unfoldable pub release : Lidar → Lidar
release s = record s { device = close_device s.device; running = false; has_callback = false }

unfoldable pub stop : List Cycle → ℕ → Lidar → Option Lidar
stop cs failures s = elim (join cs failures (record s { stop_requested = true })) [
  | none ↦ none
  | some s' ↦ some (release s')
]
