-- ===== src/Protocol.antt =====
-- common/Protocol.hpp: the constants of the wire format and the outcome of a decode attempt.
-- The children model the octet helpers, the encoder and the decoder, and prove how they fit.
pub mod Receive
pub mod Octets
pub mod Encoder
pub mod Decoder
pub mod Resync
pub mod Wire
mod Tests
use aeb_node.Prelude.{ℕ}
use aeb_node.Prelude.Text.{Text, codes}

abbrev pub magic : ℕ
magic = 0x4245_4131

abbrev pub version : ℕ
version = 1

abbrev pub header_size_v1 : ℕ
header_size_v1 = 32

abbrev pub point_stride_v1 : ℕ
point_stride_v1 = 10

abbrev pub flag_crc32 : ℕ
flag_crc32 = 0x0000_0001

abbrev pub known_flags_mask : ℕ
known_flags_mask = flag_crc32

abbrev pub crc_trailer_size : ℕ
crc_trailer_size = 4

abbrev pub max_points_per_frame : ℕ
max_points_per_frame = 65536

abbrev pub max_point_stride : ℕ
max_point_stride = 256

abbrev pub max_header_size : ℕ
max_header_size = 1024

pub data DecodeStatus : Type 0 where
  ok need_more_data bad_magic bad_version bad_header too_large crc_mismatch : DecodeStatus

-- `toString(status)`
unfoldable pub to_string : DecodeStatus → Text
to_string ok = codes "Ok"
to_string need_more_data = codes "NeedMoreData"
to_string bad_magic = codes "BadMagic"
to_string bad_version = codes "BadVersion"
to_string bad_header = codes "BadHeader"
to_string too_large = codes "TooLarge"
to_string crc_mismatch = codes "CrcMismatch"
