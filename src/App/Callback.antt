-- ===== src/App/Callback.antt =====
-- app/Application.cpp, the callback of startLidar: the one place where a frame reaches every consumer.
pub mod Brake
mod Tests
use aeb_node.Prelude.{
  ℕ, Bool, true, false, not, ◌||◌, List, [], ◌∷◌, Option, some, none, set, if◌then◌else◌, ◌>>=◌,
}
use aeb_node.Types.{ScanFrame}
use aeb_node.Perception.{PerceptionConfig, DetectionResult, process}
use aeb_node.CanBus.{CanMessage, new_message, CanBus, CanFrame, send}
use aeb_node.Network.ClientSession.{IoResult}
use aeb_node.Network.TcpServer.{TcpServer, publish}

abbrev pub brake_can_id : ℕ
brake_can_id = 0x080

abbrev pub brake_disengage : ℕ
brake_disengage = 0x01

abbrev pub brake_engage : ℕ
brake_engage = 0x02

-- What the callback works on, with `wire` the frames that the CAN interface has taken.
pub record Node : Type 0 where
  pub tcp_server : TcpServer
  pub can_bus : CanBus
  pub perception : PerceptionConfig
  pub no_can : Bool
  pub wire : List CanFrame

-- An obstacle in any sector.
unfoldable pub obstacle : DetectionResult → Bool
obstacle r =
    r.left.obstacle_detected || r.left_center.obstacle_detected || r.center.obstacle_detected
    || r.right_center.obstacle_detected || r.right.obstacle_detected

unfoldable pub brake_message : Bool → CanMessage
brake_message engaged = record new_message {
  id = brake_can_id;
  dlc = 1;
  data_bytes = set new_message.data_bytes 0 (if engaged then brake_engage else brake_disengage);
}

unfoldable pub send_brake : Bool → Node → DetectionResult → Node
send_brake taken node result =
    if not node.no_can
    then record node {
      wire = (send taken (brake_message (obstacle result)) node.can_bus node.wire).1;
    }
    else node

-- The callback, on the answers to the wakeup's `write` and whether the CAN interface takes the frame.
-- `none`: the answers end, or the detection runs into undefined behaviour.
unfoldable pub on_frame : List IoResult → Bool → ScanFrame → Node → Option Node
on_frame rs taken frame node = do
  server ← publish rs frame node.tcp_server
  result ← process node.perception frame
  some (send_brake taken (record node { tcp_server = server }) result)
