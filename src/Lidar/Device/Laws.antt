-- ===== src/Lidar/Device/Laws.antt =====
-- lidar/RpLidarDevice.cpp: what open leaves on each of its paths, and which points grabScan forwards.
use Prim.{tt}
use aeb_node.Prelude.{
  ◌≡◌, refl, Bool, true, false, not, ◌&&◌, List, [], ◌∷◌, Option, some, none, arith, All, if-of,
}
use aeb_node.Float32.{f_zero, f_le}
use aeb_node.Types.{ScanPoint}
use aeb_node.Lidar.Device.{
  not_supported, sl_is_ok, LidarError, Device, closed_device, DeviceCalls, close_driver,
  close_channel, close_device, bring_up, open_device, MeasurementNode, to_millimetres, to_points,
  no_channel, no_driver, connect_failed, no_device_info, motor_failed, scan_failed,
}

pub close_device_lem : (d : Device) → close_device d ≡ closed_device
unfolding close_device close_driver close_channel
close_device_lem d = ground arith

-- What `open` leaves: on success both objects and no error; else neither, and an error.
abbrev pub Outcome : Bool × Option LidarError × Device → Type 0
Outcome (true, e, d) = (e ≡ none) × (d.driver ≡ true) × (d.channel ≡ true)
Outcome (false, e, d) = ((m : LidarError) × (e ≡ some m)) × (d ≡ closed_device)

abandoned : (m : LidarError) (d : Device) → Outcome (false, some m, close_device d)
abandoned m d = ((m, refl), close_device_lem d)

-- `open` is all or nothing: it succeeds with the channel and the driver, or it fails with an error and
-- holds neither, whatever it held before and whichever of its steps failed.
pub open_device-Outcome : (c : DeviceCalls) (d : Device) → Outcome (open_device c d)
unfolding open_device bring_up
open_device-Outcome c d =
    if-of Outcome (not c.channel_created) _ _ (λ e. abandoned no_channel d)
      (λ e.
        if-of Outcome (not c.driver_created) _ _ (λ e. abandoned no_driver _)
          (λ e. brought_up (record { channel = true; driver = true }) refl refl))
  where
    brought_up : (d : Device) → d.driver ≡ true → d.channel ≡ true → Outcome (bring_up c d)
    brought_up d h k =
        if-of Outcome (not (sl_is_ok c.connect)) _ _ (λ e. abandoned connect_failed d)
          (λ e.
            if-of Outcome (not (sl_is_ok c.device_info)) _ _ (λ e. abandoned no_device_info d)
              (λ e.
                if-of Outcome
                  (not (sl_is_ok c.motor_speed)
                    && not (elim c.motor_speed [ not_supported ↦ true | _ ↦ false ]))
                  _ _ (λ e. abandoned motor_failed d)
                  (λ e.
                    if-of Outcome (not (sl_is_ok c.start_scan)) _ _ (λ e. abandoned scan_failed d)
                      (λ e. (refl, h, k)))))

-- Does the range lie above zero?
abbrev pub HasReturn : ScanPoint → Type 0
HasReturn p = f_le p.distance_mm f_zero ≡ false

pub to_points-HasReturn : (nodes : List MeasurementNode) → All HasReturn (to_points nodes)
unfolding to_points
to_points-HasReturn [] = tt
to_points-HasReturn (n ∷ nodes) =
    if-of (All HasReturn) (f_le (to_millimetres n.dist_mm_q2) f_zero) _ _
      (λ e. to_points-HasReturn nodes) (λ e. (e, to_points-HasReturn nodes))
