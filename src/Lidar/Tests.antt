-- ===== src/Lidar/Tests.antt =====
-- Runs of the acquisition.
use Prim.{tt}
use aeb_node.Prelude.{◌≡◌, refl, Bool, true, false, List, [], ◌∷◌, some, none, inl, inr, arith}
use aeb_node.Float32.{f_le, f_mul, f_div, f_of_unsigned}
use aeb_node.Lidar.Device.{
  DeviceCalls, is_ok, not_supported, fault, open_device, closed_device, to_points, to_degrees,
  to_millimetres,
}
use aeb_node.Lidar.Device.Laws.{Outcome, open_device-Outcome}
use aeb_node.Lidar.Acquisition.{Lidar, new_lidar, Cycle, run}
use aeb_node.Lidar.Acquisition.Control.{start}
use aeb_node.Lidar.Acquisition.Numbering.{IsDelivering, IsFinished}
use aeb_node.Lidar.Acquisition.Control.{stop}
use aeb_node.Lidar.Acquisition.Stop.{IsReleased, stop-IsReleased}
use aeb_node.Lidar.Acquisition.Loop.{run-IsFinished, Started, start-Starts}

-- A sensor whose motor has no speed control.
abbrev calls : DeviceCalls
calls = record {
  channel_created = true;
  driver_created = true;
  connect = is_ok;
  device_info = is_ok;
  motor_speed = not_supported;
  start_scan = is_ok;
}

abbrev failing : Cycle
failing = record {
  stop_at_test = false;
  nodes = none;
  now = 0;
  throws = false;
  stop_at_reconnect = false;
  reopening = calls;
}

abbrev seeing : Cycle
seeing = record failing {
  nodes = some (record { angle_z_q14 = 0; dist_mm_q2 = 2000; quality = 47 } ∷ []);
}

abbrev stopping : Cycle
stopping = record failing { stop_at_test = true }

abbrev scanning : Lidar
scanning = record (new_lidar true) {
  device = record { driver = true; channel = true };
  running = true;
  joinable = true;
}

scanning-IsDelivering : IsDelivering scanning
scanning-IsDelivering = record { numbered = tt; next = omega arith; counted = omega arith }

run-IsFinished_example :
    (s' : Lidar) × (run (seeing ∷ failing ∷ stopping ∷ []) scanning ≡ some s') × IsFinished s'
run-IsFinished_example =
    run-IsFinished (seeing ∷ failing ∷ stopping ∷ []) scanning scanning-IsDelivering
      (inr (inr (inl refl)))

abbrev four : List Cycle
four = failing ∷ failing ∷ failing ∷ failing ∷ []

start-Starts_example :
    (r : Bool × Lidar) × (start calls true true (new_lidar true) ≡ some r) × Started r
start-Starts_example = start-Starts calls true true (new_lidar true) refl refl refl

-- A lidar without reconnection.
abbrev lasting : Lidar
lasting = record scanning { auto_reconnect = false }

open_device-Outcome_example :
    Outcome (open_device (record calls { start_scan = fault }) closed_device)
open_device-Outcome_example =
    open_device-Outcome (record calls { start_scan = fault }) closed_device

one_point :
    to_points (
      record { angle_z_q14 = 16384; dist_mm_q2 = 2000; quality = 47 }
      ∷ record { angle_z_q14 = 0; dist_mm_q2 = 0; quality = 0 }
      ∷ [])
    ≡ (record { angle_deg = 0x42b4_0000; distance_mm = 0x43fa_0000; quality = 47 } ∷ [])
unfolding to_points to_degrees to_millimetres f_le f_mul f_div f_of_unsigned
one_point = refl

stop-IsReleased_example : (s' : Lidar) × (stop (stopping ∷ []) 0 scanning ≡ some s') × IsReleased s'
stop-IsReleased_example = stop-IsReleased (stopping ∷ []) 0 scanning (inl refl)
