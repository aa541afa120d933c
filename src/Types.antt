-- ===== src/Types.antt =====
-- common/Types.hpp: the values that sensing, perception and streaming share.
use aeb_node.Prelude.{ℕ, ◌^◌, ◌<◌, Bool, ◌&&◌, List, [], ltb, length, All, ◌==◌}
use aeb_node.Float32.{Float32, f_lt, f_zero}

pub record ScanPoint : Type 0 where
  pub angle_deg : Float32
  pub distance_mm : Float32
  pub quality : ℕ

-- A measurement that carries a usable range.
unfoldable pub is_valid : ScanPoint → Bool
is_valid p = f_lt f_zero p.distance_mm && ltb 0 p.quality

pub record ScanFrame : Type 0 where
  pub sequence : ℕ
  pub timestamp_us : ℕ
  pub points : List ScanPoint

-- `ScanFrame{}` and `ScanPoint{}`
abbrev pub default_point : ScanPoint
default_point = record { angle_deg = f_zero; distance_mm = f_zero; quality = 0 }

abbrev pub default_frame : ScanFrame
default_frame = record { sequence = 0; timestamp_us = 0; points = [] }

unfoldable pub frame_size : ScanFrame → ℕ
frame_size f = length f.points

unfoldable pub frame_empty : ScanFrame → Bool
frame_empty f = length f.points == 0

-- The fields lie in the ranges of their C++ types.
abbrev pub IsPoint : ScanPoint → Type 0
IsPoint p = (p.angle_deg < 2 ^ 32) × (p.distance_mm < 2 ^ 32) × (p.quality < 256)

abbrev pub IsFrame : ScanFrame → Type 0
IsFrame f = (f.sequence < 2 ^ 32) × (f.timestamp_us < 2 ^ 64) × All IsPoint f.points
