-- ===== src/Protocol/Tests.antt =====
-- Runs of the encoder and the decoder of common/Protocol.hpp, and its theorems at concrete inputs.
use aeb_node.Prelude.{
  ◌≤◌, ◌≡◌, refl, Bool, true, [], ◌∷◌, ◌++◌, some, length, take, replicate, arith,
}
use aeb_node.Types.{ScanPoint, ScanFrame, IsFrame, default_frame}
use aeb_node.Protocol.{ok, need_more_data, bad_magic}
use aeb_node.Protocol.Octets.{Bytes, put_uint, get_uint, get_float32}
use aeb_node.Protocol.Encoder.{encode, encoded_size}
use aeb_node.Protocol.Decoder.{Decoder, Decoded, feed, decode}
use aeb_node.Protocol.Decoder.Bounds.{decode_total}
use aeb_node.Protocol.Decoder.Stable.{decode-feed}
use aeb_node.Protocol.Decoder.Unchanged.{decode_unchanged}
use aeb_node.Protocol.Resync.{resynchronise}
use aeb_node.Protocol.Resync.Recovery.{Recovers, resynchronise_lem}
use aeb_node.Protocol.Wire.{Packet, IsPacket, wire, frame_of}
use aeb_node.Protocol.Wire.Encoded.{truncated, length-encode}
use aeb_node.Protocol.Wire.RoundTrip.{decode-wire, decode_incomplete, decode-encode}

-- 45 degrees, 2000 mm
abbrev far_point : ScanPoint
far_point = record { angle_deg = 0x4234_0000; distance_mm = 0x44fa_0000; quality = 47 }

abbrev frame : ScanFrame
frame = record { sequence = 0x0102_0304; timestamp_us = 5_000_000; points = far_point ∷ [] }

abbrev on_wire : Bytes
on_wire =
    0x31 ∷ 0x41 ∷ 0x45 ∷ 0x42 ∷ 1 ∷ 0 ∷ 32 ∷ 0 ∷ 0 ∷ 0 ∷ 0 ∷ 0 ∷ 4 ∷ 3 ∷ 2 ∷ 1 ∷ 0x40 ∷ 0x4b ∷ 0x4c
    ∷ 0 ∷ 0 ∷ 0 ∷ 0 ∷ 0 ∷ 1 ∷ 0 ∷ 0 ∷ 0 ∷ 10 ∷ 0 ∷ 0 ∷ 0 ∷ 0 ∷ 0 ∷ 0x34 ∷ 0x42 ∷ 0 ∷ 0 ∷ 0xfa ∷ 0x44
    ∷ 47 ∷ 0 ∷ []

encode-frame : encode frame ≡ on_wire
unfolding encode put_uint
encode-frame = refl

abbrev holding : Bytes → Decoder
holding b = record { buffer = b }

decode-on_wire :
    decode (holding (on_wire ++ (7 ∷ []))) default_frame ≡ some (ok, holding (7 ∷ []), frame)
unfolding decode get_uint get_float32
decode-on_wire = refl

-- The first field that is wrong decides.
decode-zeros :
    decode (holding (replicate 32 0)) default_frame
    ≡ some (bad_magic, holding (replicate 32 0), default_frame)
unfolding decode get_uint
decode-zeros = refl

-- A newer writer's packet: four more header octets, one more octet a point, and the CRC trailer.
abbrev newer : Packet
newer = record {
  flags = 1;
  sequence = 9;
  timestamp_us = 10;
  point_stride = 11;
  header_tail = 0 ∷ 0 ∷ 1 ∷ 2 ∷ 3 ∷ 4 ∷ [];
  records = record { point = far_point; tail = 0 ∷ 5 ∷ [] } ∷ [];
  trailer = 6 ∷ 7 ∷ 8 ∷ 9 ∷ [];
}

newer-IsPacket : IsPacket newer
newer-IsPacket = record {
  flags_known = omega arith;
  sequence_fits = omega arith;
  timestamp_fits = omega arith;
  stride_low = omega arith;
  stride_high = omega arith;
  header_low = omega arith;
  header_high = omega arith;
  count_fits = omega arith;
  trailer_fits = refl;
  records_fit = omega arith;
}

frame-IsFrame : IsFrame frame
frame-IsFrame = omega arith

decode-wire_example :
    decode (holding (wire newer ++ (7 ∷ []))) default_frame
    ≡ some (ok, holding (7 ∷ []), frame_of newer)
decode-wire_example = decode-wire newer (7 ∷ []) newer-IsPacket default_frame

decode-encode_example :
    decode (holding (encode frame ++ (7 ∷ []))) default_frame
    ≡ some (ok, holding (7 ∷ []), truncated frame)
decode-encode_example = decode-encode frame default_frame (7 ∷ []) frame-IsFrame

decode_incomplete_example :
    decode (holding (take 48 (wire newer))) default_frame
    ≡ some (need_more_data, holding (take 48 (wire newer)), default_frame)
unfolding wire
decode_incomplete_example =
    decode_incomplete newer (take 48 (wire newer)) (8 ∷ 9 ∷ []) 7 default_frame newer-IsPacket refl

decode-feed_example :
    decode (feed (holding (replicate 32 0)) on_wire) default_frame
    ≡ some (bad_magic, feed (holding (replicate 32 0)) on_wire, default_frame)
decode-feed_example =
    decode-feed on_wire (holding (replicate 32 0)) (holding (replicate 32 0)) default_frame
      default_frame bad_magic decode-zeros (λ e. cc)

decode_total_example : (v : Decoded) × (decode (holding on_wire) default_frame ≡ some v)
decode_total_example = decode_total (holding on_wire) default_frame

decode_unchanged_example :
    (holding (replicate 32 0) ≡ holding (replicate 32 0)) × (default_frame ≡ default_frame)
decode_unchanged_example =
    decode_unchanged (holding (replicate 32 0)) default_frame (holding (replicate 32 0))
      default_frame bad_magic decode-zeros (λ e. cc)

length-encode_example : (length (encode frame) ≡ encoded_size frame) × (encoded_size frame ≤ 655392)
length-encode_example = length-encode frame

resynchronise_lem_example :
    (b : Bool) × (d' : Decoder) × (resynchronise (holding (0 ∷ on_wire)) ≡ some (b, d'))
    × Recovers (0 ∷ on_wire) b d'.buffer
resynchronise_lem_example = resynchronise_lem (holding (0 ∷ on_wire))

resynchronise_skips : resynchronise (holding (0 ∷ on_wire)) ≡ some (true, holding on_wire)
unfolding resynchronise get_uint
resynchronise_skips = refl
