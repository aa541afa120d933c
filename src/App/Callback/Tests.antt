-- ===== src/App/Callback/Tests.antt =====
-- A frame with three points 0.5 m ahead engages the brake.
use Prim.{tt}
use aeb_node.Prelude.{◌≡◌, refl, true, false, [], ◌∷◌, some, none, arith, All}
use aeb_node.Float32.{f_lt, f_le, f_sub, f_div, f_to_int}
use aeb_node.Types.{ScanPoint, ScanFrame}
use aeb_node.Perception.{
  default_config, sector_index, norm_angle, sector_width, no_return, outside_angle, beyond_distance,
  low_quality,
}
use aeb_node.Perception.Filters.{HasSector}
use aeb_node.Network.FrameQueue.Invariant.{new-IsValid}
use aeb_node.Network.ClientSession.{count}
use aeb_node.Network.TcpServer.{new_server}
use aeb_node.App.Callback.{Node, on_frame}
use aeb_node.App.Callback.Brake.{any_blocked, Handled, on_frame-Handled}

abbrev ahead : ScanPoint
ahead = record { angle_deg = 0; distance_mm = 0x43fa_0000; quality = 15 }

abbrev frame : ScanFrame
frame = record { sequence = 1; timestamp_us = 2; points = ahead ∷ ahead ∷ ahead ∷ [] }

abbrev node : Node
node = record {
  tcp_server = new_server 16;
  can_bus = record { fd = some 5; last_error = none };
  perception = default_config;
  no_can = false;
  wire = [];
}

three_ahead : All (HasSector default_config) frame.points
unfolding sector_index norm_angle sector_width f_lt f_le f_sub f_div f_to_int no_return
    outside_angle beyond_distance low_quality
three_ahead = (refl, (refl, (refl, tt)))

brakes : any_blocked default_config frame ≡ true
unfolding sector_index norm_angle sector_width f_lt f_le f_sub f_div f_to_int no_return
    outside_angle beyond_distance low_quality
brakes = refl

on_frame-Handled_example :
    (node' : Node) × (on_frame (count 1 ∷ []) true frame node ≡ some node')
    × Handled (count 1 ∷ []) frame node node'
on_frame-Handled_example =
    on_frame-Handled (count 1 ∷ []) frame node 5 (omega arith) three_ahead (new-IsValid 16)
      (omega arith) refl refl
