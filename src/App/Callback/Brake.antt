-- ===== src/App/Callback/Brake.antt =====
-- app/Application.cpp: the brake command against the points of the frame.
use aeb_node.Prelude.{
  ℕ, ◌<◌, ◌^◌, ◌≡◌, refl, ap, ◌∙◌, sym, subst, Bool, true, false, ◌||◌, List, [], ◌∷◌, ◌++◌, some,
  length, All, count_if, if◌then◌else◌, >>=-eq_of_some, arith,
}
use aeb_node.Types.{ScanFrame}
use aeb_node.Perception.{
  PerceptionConfig, DetectionResult, Sector, sector_0, sector_1, sector_2, sector_3, sector_4,
  process,
}
use aeb_node.Perception.Filters.{HasSector, hits_sector, enough}
use aeb_node.Perception.Hits.{Reports, process-Reports}
use aeb_node.CanBus.{CanFrame, send, to_frame}
use aeb_node.Network.FrameQueue.Invariant.{IsValid}
use aeb_node.Network.ClientSession.{IoResult}
use aeb_node.Network.ClientSession.Progress.{settled}
use aeb_node.Network.TcpServer.{publish}
use aeb_node.Network.TcpServer.Publish.{Published, publish-Published}
use aeb_node.App.Callback.{Node, obstacle, brake_message, send_brake, on_frame}

-- Do enough points of the frame pass the filters and fall into the sector?
abbrev pub blocked : PerceptionConfig → ScanFrame → Sector → Bool
blocked cfg f j = enough cfg (count_if (hits_sector cfg j) f.points)

abbrev pub any_blocked : PerceptionConfig → ScanFrame → Bool
any_blocked cfg f =
    blocked cfg f sector_0
    || blocked cfg f sector_1
    || blocked cfg f sector_2
    || blocked cfg f sector_3
    || blocked cfg f sector_4

-- The frame on the bus: identifier 0x80 and one octet, 2 to engage the brake and 1 to disengage it.
abbrev pub command : Bool → CanFrame
command engaged = record {
  can_id = 0x80;
  can_dlc = 1;
  frame_bytes = (if engaged then 2 else 1) ∷ 0 ∷ 0 ∷ 0 ∷ 0 ∷ 0 ∷ 0 ∷ 0 ∷ [];
}

obstacle-any_blocked :
    (cfg : PerceptionConfig) (f : ScanFrame) (r : DetectionResult)
    → Reports cfg f r
    → obstacle r ≡ any_blocked cfg f
unfolding obstacle
obstacle-any_blocked cfg f r p = cc (
  p.obstacles sector_0,
  p.obstacles sector_1,
  p.obstacles sector_2,
  p.obstacles sector_3,
  p.obstacles sector_4,
)

to_frame-brake_message : (b : Bool) → to_frame (brake_message b) ≡ command b
unfolding to_frame brake_message
to_frame-brake_message true = refl
to_frame-brake_message false = refl

-- What `on_frame` leaves behind.
pub record Handled (rs : List IoResult) (f : ScanFrame) (node node' : Node) : Type 0 where
  pub streamed : Published rs f node.tcp_server node'.tcp_server
  pub commanded : node'.wire ≡ (node.wire ++ (command (any_blocked node.perception f) ∷ []))
  pub same_bus : node'.can_bus ≡ node.can_bus
  pub same_config : node'.perception ≡ node.perception

send_brake-wire :
    (node : Node) (r : DetectionResult) (fd : ℕ)
    → node.no_can ≡ false
    → node.can_bus.fd ≡ some fd
    → (send_brake true node r).wire ≡ (node.wire ++ (command (obstacle r) ∷ []))
unfolding send_brake send
send_brake-wire node r fd n e = ground (arith, to_frame-brake_message (obstacle r))

send_brake_same :
    (node : Node) (r : DetectionResult)
    → ((send_brake true node r).tcp_server ≡ node.tcp_server)
      × ((send_brake true node r).can_bus ≡ node.can_bus)
      × ((send_brake true node r).perception ≡ node.perception)
unfolding send_brake
send_brake_same node r = ground arith

-- On a frame of fewer than 2 ^ 32 points, each of which has a defined sector if it passes the filters
-- (an empty field of view has none), with CAN enabled, the bus open and taking the frame, the server's
-- queue valid and the wakeup answered, the callback returns. It puts exactly one frame on the bus, with
-- identifier 0x80 and one octet, 2 to engage the brake if enough points, one at least, pass the filters
-- and fall into one of the five sectors, and else 1 to disengage it; and the frame is published, which
-- bears on nothing in the command.
pub on_frame-Handled :
    (rs : List IoResult) (f : ScanFrame) (node : Node) (fd : ℕ)
    → length f.points < 2 ^ 32
    → All (HasSector node.perception) f.points
    → IsValid node.tcp_server.queue
    → 0 < settled rs
    → node.no_can ≡ false
    → node.can_bus.fd ≡ some fd
    → (node' : Node) × (on_frame rs true f node ≡ some node') × Handled rs f node node'
unfolding on_frame
on_frame-Handled rs f node fd h d v w n b =
    let (s', e, p) = publish-Published rs f node.tcp_server v w in
    let (r, e', q) = process-Reports node.perception f h d in
    let at = record node { tcp_server = s' } in
    let (server, bus, config) = send_brake_same at r in
    (
      send_brake true at r,
      >>=-eq_of_some (publish rs f node.tcp_server) _ e
          (>>=-eq_of_some (process node.perception f) _ e' refl),
      record {
        streamed = subst (Published rs f node.tcp_server) (sym server) p;
        commanded =
            send_brake-wire at r fd n b
            ∙ ap (λ c. node.wire ++ (command c ∷ [])) (obstacle-any_blocked node.perception f r q);
        same_bus = bus;
        same_config = config;
      },
    )
