-- ===== src/Lidar/Device.antt =====
-- lidar/RpLidarDevice.cpp. The SDK's answers are arguments; `driver` and `channel` say whether the
-- pointers are set.
pub mod Laws
use aeb_node.Prelude.{
  ℕ, ◌%◌, ◌^◌, Bool, true, false, not, ◌&&◌, List, [], ◌∷◌, Option, some, none, if◌then◌else◌,
}
use aeb_node.Float32.{Float32, f_zero, f_le, f_mul, f_div, f_of_unsigned}
use aeb_node.Types.{ScanPoint}

-- `sl_result`: what `SL_IS_OK` accepts, and the failures, of which one is told apart.
pub data SlResult : Type 0 where
  is_ok not_supported fault : SlResult

abbrev pub sl_is_ok : SlResult → Bool
sl_is_ok is_ok = true
sl_is_ok not_supported = false
sl_is_ok fault = false

pub data LidarError : Type 0 where
  no_channel no_driver connect_failed no_device_info motor_failed scan_failed : LidarError
  device_closed grab_failed no_callback already_running spawn_failed : LidarError

pub record Device : Type 0 where
  pub driver : Bool
  pub channel : Bool

abbrev pub closed_device : Device
closed_device = record { driver = false; channel = false }

abbrev pub device_is_open : Device → Bool
device_is_open d = d.driver

pub record DeviceCalls : Type 0 where
  pub channel_created : Bool
  pub driver_created : Bool
  pub connect : SlResult
  pub device_info : SlResult
  pub motor_speed : SlResult
  pub start_scan : SlResult

-- `close()` releases the driver, then the channel.
unfoldable pub close_driver : Device → Device
close_driver d = if d.driver then record d { driver = false } else d

unfoldable pub close_channel : Device → Device
close_channel d = if d.channel then record d { channel = false } else d

unfoldable pub close_device : Device → Device
unfolding close_driver close_channel
close_device d = close_channel (close_driver d)

-- The part of `open` with both objects created.
unfoldable pub bring_up : DeviceCalls → Device → Bool × Option LidarError × Device
bring_up c d =
    if not (sl_is_ok c.connect)
    then (false, some connect_failed, close_device d)
    else if not (sl_is_ok c.device_info)
    then (false, some no_device_info, close_device d)
    else if not (sl_is_ok c.motor_speed)
        && not (elim c.motor_speed [ not_supported ↦ true | _ ↦ false ])
    then (false, some motor_failed, close_device d)
    else if not (sl_is_ok c.start_scan)
    then (false, some scan_failed, close_device d)
    else (true, none, d)

-- `open(error)`
unfoldable pub open_device : DeviceCalls → Device → Bool × Option LidarError × Device
unfolding bring_up
open_device c d =
    let d = close_device d in
    if not c.channel_created
    then (false, some no_channel, d)
    else if not c.driver_created
    then (false, some no_driver, close_device (record d { channel = true }))
    else bring_up c (record d { channel = true; driver = true })

-- `sl_lidar_response_measurement_node_hq_t`
pub record MeasurementNode : Type 0 where
  pub angle_z_q14 : ℕ
  pub dist_mm_q2 : ℕ
  pub quality : ℕ

-- `angle_z_q14 * 90.0F / 16384.0F`
unfoldable pub to_degrees : ℕ → Float32
to_degrees angle_z_q14 = f_div (f_mul (f_of_unsigned angle_z_q14) 0x42b4_0000) 0x4680_0000

-- `dist_mm_q2 / 4.0F`
unfoldable pub to_millimetres : ℕ → Float32
to_millimetres dist_mm_q2 = f_div (f_of_unsigned dist_mm_q2) 0x4080_0000

-- The loop of `grabScan`.
unfoldable pub to_points : List MeasurementNode → List ScanPoint
to_points [] = []
to_points (node ∷ nodes) =
    let rest = to_points nodes in
    let distance_mm = to_millimetres node.dist_mm_q2 in
    if f_le distance_mm f_zero
    then rest
    else record {
      angle_deg = to_degrees node.angle_z_q14;
      distance_mm = distance_mm;
      quality = node.quality;
    }
      ∷ rest

-- `grabScan(points, error)`; `nodes` is the revolution as the SDK has sorted it, `none` its failure.
unfoldable pub grab_scan :
    Option (List MeasurementNode)
    → Device
    → List ScanPoint
    → Bool × Option LidarError × List ScanPoint
grab_scan nodes d points =
    if not d.driver then (false, some device_closed, points) else elim nodes [
      | none ↦ (false, some grab_failed, points)
      | some nodes ↦ (true, none, to_points nodes)
    ]
