-- ===== src/Protocol/Decoder.antt =====
-- common/Protocol.hpp, class ProtocolDecoder: feed, decode, reset and buffered.
pub mod Bounds
pub mod Stable
pub mod Unchanged
use aeb_node.Prelude.{
  ℕ, zero, suc, ◌+◌, ◌*◌, ◌^◌, ◌-◌, List, [], ◌∷◌, ◌++◌, Bool, not, ◌||◌, Option, some, length,
  drop, get_elem?, bit_and, ltb, ◌==◌, if◌then◌else◌, ◌>>=◌,
}
use aeb_node.Types.{ScanPoint, ScanFrame}
use aeb_node.Protocol.{
  magic, version, header_size_v1, point_stride_v1, flag_crc32, known_flags_mask, crc_trailer_size,
  max_points_per_frame, max_point_stride, max_header_size, DecodeStatus, ok, need_more_data,
  bad_magic, bad_version, bad_header, too_large,
}
use aeb_node.Protocol.Octets.{Bytes, get_uint, get_float32}

pub record Decoder : Type 0 where
  pub buffer : Bytes

abbrev pub new_decoder : Decoder
new_decoder = record { buffer = [] }

-- `feed(data, size)`; a null pointer or a size of 0 is the empty list.
unfoldable pub feed : Decoder → Bytes → Decoder
feed d received = record { buffer = d.buffer ++ received }

-- `reset()` and `buffered()`
unfoldable pub reset : Decoder → Decoder
reset d = record { buffer = [] }

unfoldable pub buffered : Decoder → ℕ
buffered d = length d.buffer

-- The header fields that `decode` reads once the magic number and the version are right.
pub record Header : Type 0 where
  pub header_size : ℕ
  pub flags : ℕ
  pub sequence : ℕ
  pub timestamp_us : ℕ
  pub point_count : ℕ
  pub point_stride : ℕ

unfoldable pub read_header : Bytes → Option Header
read_header h = do
  header_size ← get_uint 2 (drop 6 h)
  flags ← get_uint 4 (drop 8 h)
  sequence ← get_uint 4 (drop 12 h)
  timestamp_us ← get_uint 8 (drop 16 h)
  point_count ← get_uint 4 (drop 24 h)
  point_stride ← get_uint 2 (drop 28 h)
  some (record {
    header_size = header_size;
    flags = flags;
    sequence = sequence;
    timestamp_us = timestamp_us;
    point_count = point_count;
    point_stride = point_stride;
  })

-- The checks of `header_size` and `point_stride`.
unfoldable pub sizes_unusable : Header → Bool
sizes_unusable h =
    ltb h.header_size header_size_v1
    || ltb max_header_size h.header_size
    || ltb h.point_stride point_stride_v1
    || ltb max_point_stride h.point_stride

-- `(flags & ~kKnownFlagsMask) != 0`; `~` is that of a 32-bit word.
unfoldable pub flags_unknown : Header → Bool
flags_unknown h = not (bit_and h.flags (2 ^ 32 - 1 - known_flags_mask) == 0)

unfoldable pub trailer_size : Header → ℕ
trailer_size h = if not (bit_and h.flags flag_crc32 == 0) then crc_trailer_size else 0

-- `std::size_t` sums: the limits above keep them far below 2 ^ 32.
unfoldable pub packet_size : Header → ℕ
unfolding trailer_size
packet_size h = h.header_size + h.point_count * h.point_stride + trailer_size h

-- One record at offset `p` of the buffer.
unfoldable pub read_point : Bytes → ℕ → Option ScanPoint
read_point buffer p = do
  angle_deg ← get_float32 (drop p buffer)
  distance_mm ← get_float32 (drop (p + 4) buffer)
  quality ← get_elem? buffer (p + 8)
  some (record { angle_deg = angle_deg; distance_mm = distance_mm; quality = quality })

-- The loop over the records, with `left` rounds to go.
unfoldable pub read_points : ℕ → ℕ → ℕ → Bytes → Option (List ScanPoint)
unfolding read_point
read_points zero p stride buffer = some []
read_points (suc left) p stride buffer = do
  point ← read_point buffer p
  points ← read_points left (p + stride) stride buffer
  some (point ∷ points)

-- The fields that a successful `decode` assigns to its output frame.
abbrev pub with_points : Header → List ScanPoint → ScanFrame
with_points h points = record {
  sequence = h.sequence;
  timestamp_us = h.timestamp_us;
  points = points;
}

-- A status, the decoder and the frame handed in, as a call leaves them.
abbrev pub Decoded : Type 0
Decoded = DecodeStatus × Decoder × ScanFrame

-- The part of `decode` that follows the checks of the header.
unfoldable pub decode_payload : Decoder → ScanFrame → Header → Option Decoded
unfolding packet_size read_points
decode_payload d out h =
    if ltb (length d.buffer) (packet_size h) then some (need_more_data, d, out) else do
      points ← read_points h.point_count h.header_size h.point_stride d.buffer
      some (ok, record { buffer = drop (packet_size h) d.buffer }, with_points h points)

unfoldable pub decode_header : Decoder → ScanFrame → Header → Option Decoded
unfolding sizes_unusable flags_unknown decode_payload
decode_header d out h =
    if sizes_unusable h
    then some (bad_header, d, out)
    else if flags_unknown h
    then some (bad_header, d, out)
    else if ltb max_points_per_frame h.point_count
    then some (too_large, d, out)
    else decode_payload d out h

unfoldable pub decode_version : Decoder → ScanFrame → ℕ → Option Decoded
unfolding read_header decode_header
decode_version d out v =
    if not (v == version)
    then some (bad_version, d, out)
    else do h ← read_header d.buffer; decode_header d out h

unfoldable pub decode_magic : Decoder → ScanFrame → ℕ → Option Decoded
unfolding decode_version
decode_magic d out m =
    if not (m == magic)
    then some (bad_magic, d, out)
    else do v ← get_uint 2 (drop 4 d.buffer); decode_version d out v

-- `decode(out)`. `none` would be a read outside of the buffer.
unfoldable pub decode : Decoder → ScanFrame → Option Decoded
unfolding decode_magic
decode d out =
    if ltb (length d.buffer) header_size_v1
    then some (need_more_data, d, out)
    else do m ← get_uint 4 d.buffer; decode_magic d out m
