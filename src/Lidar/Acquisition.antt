-- ===== src/Lidar/Acquisition.antt =====
-- lidar/Lidar.hpp and lidar/Lidar.cpp: the acquisition thread, its recovery policy and its counters.
-- `delivered` lists the frames that the consumer's callback has been given.
pub mod Control
pub mod Numbering
pub mod Recovery
pub mod Loop
pub mod Stop
use aeb_node.Prelude.{
  ℕ, zero, suc, ◌+◌, ◌%◌, ◌^◌, Bool, true, false, not, ◌||◌, List, [], ◌∷◌, ◌++◌, Option, some,
  none, length, leb, ltb, ◌==◌, if◌then◌else◌,
}
use aeb_node.Types.{ScanPoint, ScanFrame, default_frame}
use aeb_node.Lidar.Device.{
  LidarError, no_callback, already_running, spawn_failed, Device, closed_device, device_is_open,
  DeviceCalls, close_device, MeasurementNode, grab_scan,
}
use aeb_node.Lidar.Device.{open_device as device_open}

-- `kMaxConsecutiveGrabFailures`
abbrev pub max_consecutive_grab_failures : ℕ
max_consecutive_grab_failures = 5

pub record LidarStats : Type 0 where
  pub frames_delivered : ℕ
  pub read_errors : ℕ
  pub connects : ℕ
  pub empty_frames : ℕ
  pub last_frame_us : ℕ

-- The members of `Impl` that a call changes, and `auto_reconnect` of its configuration.
pub record Lidar : Type 0 where
  pub auto_reconnect : Bool
  pub device : Device
  pub has_callback : Bool
  pub joinable : Bool
  pub stop_requested : Bool
  pub running : Bool
  pub stats : LidarStats
  pub last_error : Option LidarError
  pub frame : ScanFrame
  pub next_sequence : ℕ
  pub delivered : List ScanFrame

abbrev pub new_lidar : Bool → Lidar
new_lidar auto_reconnect = record {
  auto_reconnect = auto_reconnect;
  device = closed_device;
  has_callback = false;
  joinable = false;
  stop_requested = false;
  running = false;
  stats = record {
    frames_delivered = 0;
    read_errors = 0;
    connects = 0;
    empty_frames = 0;
    last_frame_us = 0;
  };
  last_error = none;
  frame = default_frame;
  next_sequence = 0;
  delivered = [];
}

-- `++` of a `std::uint64_t`
abbrev pub inc_64 : ℕ → ℕ
inc_64 n = (n + 1) % 2 ^ 64

unfoldable pub set_error : Option LidarError → Lidar → Lidar
set_error none s = s
set_error (some e) s = record s { last_error = some e }

-- `openDevice()`, with what the device's `open` returned.
unfoldable pub opened : Bool × Option LidarError × Device → Lidar → Bool × Lidar
opened (false, e, d) s = (false, set_error e (record s { device = d }))
opened (true, e, d) s = (
  true,
  record s {
    device = d;
    stats = record s.stats { connects = inc_64 s.stats.connects };
    last_error = none;
  },
)

unfoldable pub open_lidar : DeviceCalls → Lidar → Bool × Lidar
open_lidar c s = opened (device_open c s.device) s

abbrev pub count_read_error : Lidar → Lidar
count_read_error s = record s {
  stats = record s.stats { read_errors = inc_64 s.stats.read_errors };
}

-- `deliverFrame()` at the time `now`, with a callback that throws or not.
unfoldable pub deliver_frame : ℕ → Bool → Lidar → Lidar
deliver_frame now throws s =
    let stamped = record s.frame { sequence = s.next_sequence; timestamp_us = now } in
    let s' = record s {
      frame = stamped;
      next_sequence = (s.next_sequence + 1) % 2 ^ 32;
      delivered = s.delivered ++ (stamped ∷ []);
    } in
    let s'' = if throws then count_read_error s' else s' in
    record s'' {
      stats = record s''.stats {
        frames_delivered = inc_64 s''.stats.frames_delivered;
        last_frame_us = now;
      };
    }

-- What the system says to one round of the loop: the two reads of `stop_requested`, the revolution, the
-- clock, whether the callback throws, and the SDK's answers to a reconnection.
pub record Cycle : Type 0 where
  pub stop_at_test : Bool
  pub nodes : Option (List MeasurementNode)
  pub now : ℕ
  pub throws : Bool
  pub stop_at_reconnect : Bool
  pub reopening : DeviceCalls

-- `acquireOnce()` after the `grabScan`.
unfoldable pub grabbed : Cycle → Bool × Option LidarError × List ScanPoint → Lidar → Bool × Lidar
grabbed c (false, e, points) s =
    (false, set_error e (record s { frame = record s.frame { points = points } }))
grabbed c (true, e, points) s =
    let s' = record s { frame = record s.frame { points = points } } in
    if length points == 0
    then (
      true,
      record s' { stats = record s'.stats { empty_frames = inc_64 s'.stats.empty_frames } },
    )
    else (true, deliver_frame c.now c.throws s')

-- `acquireOnce()`
unfoldable pub acquire_once : Cycle → Lidar → Bool × Lidar
acquire_once c s =
    if not (device_is_open s.device)
    then (false, s)
    else grabbed c (grab_scan c.nodes s.device s.frame.points) s

-- How a round ends: with the count of consecutive failures, or by leaving the loop.
pub data Turn : Type 0 where
  goes_on : ℕ → Lidar → Turn
  leaves : Lidar → Turn

-- The fifth failure in a row: close, and reconnect unless told not to.
unfoldable pub reconnect : Cycle → Lidar → Turn
reconnect c s =
    let s' = record s { device = close_device s.device } in
    if not s.auto_reconnect || c.stop_at_reconnect
    then leaves s'
    else goes_on 0 (open_lidar c.reopening s').1

-- The round after a failed acquisition.
unfoldable pub recover : Cycle → ℕ → Lidar → Turn
recover c failures s =
    let s' = count_read_error s in
    if ltb (failures + 1) max_consecutive_grab_failures
    then goes_on (failures + 1) s'
    else reconnect c s'

unfoldable pub turn : Cycle → ℕ → Lidar → Turn
turn c failures s =
    let (ok, s') = acquire_once c s in if ok then goes_on 0 s' else recover c failures s'

-- What follows the loop of `run`.
unfoldable pub finish : Lidar → Lidar
finish s = record s { device = close_device s.device; running = false }

-- The loop; `none`: the rounds end before the thread does.
unfoldable pub run_loop : List Cycle → ℕ → Lidar → Option Lidar
run_loop [] failures s = none
run_loop (c ∷ cs) failures s =
    if c.stop_at_test then some (finish s) else elim (turn c failures s) [
      | goes_on failures' s' ↦ run_loop cs failures' s'
      | leaves s' ↦ some (finish s')
    ]

-- `run()`
unfoldable pub run : List Cycle → Lidar → Option Lidar
run cs s = run_loop cs 0 s
