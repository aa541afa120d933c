-- ===== src/Protocol/Wire.antt =====
-- The wire format as the table at the top of common/Protocol.hpp lays it out, written down apart from
-- the encoder and the decoder. A packet of a newer writer may have a longer header, longer records
-- and the CRC trailer; what a version 1 reader skips stands in `header_tail`, `tail` and `trailer`.
pub mod Packets
pub mod Encoded
pub mod RoundTrip
use aeb_node.Prelude.{ℕ, ◌+◌, ◌*◌, ◌^◌, ◌≤◌, ◌<◌, ◌≡◌, List, [], ◌∷◌, ◌++◌, map, length, All}
use aeb_node.Types.{ScanPoint, ScanFrame, IsPoint}
use aeb_node.Protocol.{magic, version, max_points_per_frame, max_point_stride, max_header_size}
use aeb_node.Protocol.Octets.{Bytes}
use aeb_node.Protocol.Octets.Laws.{octets}

-- A point record; `tail` begins at offset 9, with the reserved octet.
pub record PointRecord : Type 0 where
  pub point : ScanPoint
  pub tail : Bytes

-- `header_tail` begins at offset 30, with the reserved field.
pub record Packet : Type 0 where
  pub flags : ℕ
  pub sequence : ℕ
  pub timestamp_us : ℕ
  pub point_stride : ℕ
  pub header_tail : Bytes
  pub records : List PointRecord
  pub trailer : Bytes

abbrev pub record_octets : PointRecord → Bytes
record_octets r =
    octets 4 r.point.angle_deg
    ++ (octets 4 r.point.distance_mm ++ (octets 1 r.point.quality ++ r.tail))

abbrev pub payload : List PointRecord → Bytes
payload [] = []
payload (r ∷ rs) = record_octets r ++ payload rs

-- What follows the 30 octets of the fixed header fields.
abbrev pub body : Packet → Bytes
body k = k.header_tail ++ (payload k.records ++ k.trailer)

unfoldable pub wire : Packet → Bytes
wire k =
    octets 4 magic
    ++ (octets 2 version
        ++ (octets 2 (30 + length k.header_tail)
            ++ (octets 4 k.flags
                ++ (octets 4 k.sequence
                    ++ (octets 8 k.timestamp_us
                        ++ (octets 4 (length k.records) ++ (octets 2 k.point_stride ++ body k)))))))

-- The frame that a packet carries.
abbrev pub frame_of : Packet → ScanFrame
frame_of k = record {
  sequence = k.sequence;
  timestamp_us = k.timestamp_us;
  points = map (λ r. r.point) k.records;
}

-- The packets that a version 1 reader must take. `flags` is 0, or 1 for the CRC trailer.
pub record IsPacket (k : Packet) : Type 0 where
  pub flags_known : k.flags < 2
  pub sequence_fits : k.sequence < 2 ^ 32
  pub timestamp_fits : k.timestamp_us < 2 ^ 64
  pub stride_low : 10 ≤ k.point_stride
  pub stride_high : k.point_stride ≤ max_point_stride
  pub header_low : 2 ≤ length k.header_tail
  pub header_high : 30 + length k.header_tail ≤ max_header_size
  pub count_fits : length k.records ≤ max_points_per_frame
  pub trailer_fits : length k.trailer ≡ 4 * k.flags
  pub records_fit : All (λ r. (9 + length r.tail ≡ k.point_stride) × IsPoint r.point) k.records
