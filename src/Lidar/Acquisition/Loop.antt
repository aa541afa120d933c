-- ===== src/Lidar/Acquisition/Loop.antt =====
-- lidar/Lidar.cpp: what start, the thread and stop leave behind.
use aeb_node.Prelude.{
  ◌≡◌, refl, ◌∙◌, Bool, true, false, not, List, Option, some, none, if◌then◌else◌, if-of, holds,
}
use aeb_node.Lidar.Device.{
  Device, closed_device, DeviceCalls, LidarError, no_callback, spawn_failed,
}
use aeb_node.Lidar.Device.{open_device as device_open}
use aeb_node.Lidar.Device.Laws.{open_device-Outcome, close_device_lem}
use aeb_node.Lidar.Device.Laws.{Outcome as DeviceOutcome}
use aeb_node.Lidar.Acquisition.{Lidar, set_error, opened, open_lidar, Cycle, run_loop, run}
use aeb_node.Lidar.Acquisition.Control.{spawn_worker, start}
use aeb_node.Lidar.Acquisition.Numbering.{IsDelivering, IsFinished, run_loop-IsFinished}
use aeb_node.Lidar.Acquisition.Recovery.{Stops, run_loop_ends}

-- From a lidar whose frames given so far are numbered and counted as follows: once some round sees the
-- request to stop, the thread ends, the device is closed, the flag is down, and the frames that the
-- consumer was given since the construction are numbered 0, 1, 2, ... modulo 2 ^ 32, are counted, are
-- not empty, and hold no point whose distance is 0 or less: the acquisition drops those points.
pub run-IsFinished :
    (cs : List Cycle) (s : Lidar)
    → IsDelivering s
    → Stops cs
    → (s' : Lidar) × (run cs s ≡ some s') × IsFinished s'
unfolding run
run-IsFinished cs s d h =
    let (s', e) = run_loop_ends cs 0 s h in
    (s', e, holds IsFinished (run_loop cs 0 s) (run_loop-IsFinished cs 0 s d) e)

-- What `start` leaves.
abbrev pub Started : Bool × Lidar → Type 0
Started (true, s) =
    (s.running ≡ true)
    × (s.joinable ≡ true)
    × (s.has_callback ≡ true)
    × (s.device.driver ≡ true)
    × (s.device.channel ≡ true)
Started (false, s) =
    (s.running ≡ false) × (s.device ≡ closed_device) × ((e : LidarError) × (s.last_error ≡ some e))

-- A call that returns, with a result that was started or not.
abbrev Starts : Option (Bool × Lidar) → Type 0
Starts m = (r : Bool × Lidar) × (m ≡ some r) × Started r

-- The state in which `start` may spawn: nothing else changed than the device.
abbrev Connected : Lidar → Bool × Lidar → Type 0
Connected s (true, s') =
    (s'.running ≡ s.running)
    × (s'.joinable ≡ s.joinable)
    × (s'.has_callback ≡ s.has_callback)
    × (s'.device.driver ≡ true)
    × (s'.device.channel ≡ true)
Connected s (false, s') =
    (s'.running ≡ s.running)
    × (s'.device ≡ closed_device)
    × ((e : LidarError) × (s'.last_error ≡ some e))

opened-Connected :
    (r : Bool × Option LidarError × Device) (s : Lidar) → DeviceOutcome r → Connected s (opened r s)
unfolding opened set_error
opened-Connected (true, e, d) s (no_error, driver, channel) = (refl, refl, refl, driver, channel)
opened-Connected (false, none, d) s ((m, q), k) = cc
opened-Connected (false, some e, d) s ((m, q), k) = (refl, k, (e, refl))

spawn_worker-Starts :
    (spawns : Bool) (s s' : Lidar)
    → Connected s (true, s')
    → s.joinable ≡ false
    → s.has_callback ≡ true
    → Starts (spawn_worker spawns s')
unfolding spawn_worker
spawn_worker-Starts spawns s s' (running, joinable, callback, driver, channel) h k =
    if-of Starts (not spawns) _ _
      (λ e. (_, refl, (refl, close_device_lem s'.device, (spawn_failed, refl))))
      (λ e.
        if-of Starts s'.joinable _ _ (λ e'. cc)
          (λ e'. (_, refl, (refl, refl, callback ∙ k, driver, channel))))

-- The part of `start` that follows the connection.
Connected-Starts :
    (spawns : Bool) (s : Lidar) (r : Bool × Lidar)
    → Connected s r
    → s.running ≡ false
    → s.joinable ≡ false
    → s.has_callback ≡ true
    → Starts (
        if not r.0
        then some (false, record r.1 { has_callback = false })
        else spawn_worker spawns r.1)
Connected-Starts spawns s (true, s') c h j k = spawn_worker-Starts spawns s s' c j k
Connected-Starts spawns s (false, s') (running, closed, error) h j k =
    (_, refl, (running ∙ h, closed, error))

-- `start` of a lidar that neither runs nor holds the device, and whose thread has been joined, returns.
-- Either the thread runs with the callback and the open device, or, be it for want of a callback, of
-- the device or of a thread, nothing runs, the device is released, and the error is recorded.
pub start-Starts :
    (c : DeviceCalls) (callback spawns : Bool) (s : Lidar)
    → s.running ≡ false
    → s.joinable ≡ false
    → s.device ≡ closed_device
    → (r : Bool × Lidar) × (start c callback spawns s ≡ some r) × Started r
unfolding start set_error open_lidar
start-Starts c callback spawns s h j d =
    if-of Starts (not callback) _ _ (λ e. (_, refl, (h, d, (no_callback, refl))))
      (λ e.
        if-of Starts s.running _ _ (λ e'. cc)
          (λ e'.
            let at : Lidar = record s { stop_requested = false; has_callback = true } in
            Connected-Starts spawns at (opened (device_open c at.device) at)
              (opened-Connected (device_open c at.device) at (open_device-Outcome c at.device)) h j
              refl))
