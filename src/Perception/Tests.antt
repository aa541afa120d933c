-- ===== src/Perception/Tests.antt =====
-- Runs of the detection with the default thresholds.
use aeb_node.Prelude.{◌≡◌, refl, Bool, [], ◌∷◌, some, none, arith, All, false}
use Prim.{tt}
use aeb_node.Float32.{f_lt, f_le, f_sub, f_div, f_to_int, is_nan}
use aeb_node.Types.{ScanPoint, ScanFrame}
use aeb_node.Perception.{
  DetectionResult, default_config, sector_0, sector_index, norm_angle, sector_width, no_return,
  outside_angle, beyond_distance, low_quality, process, PerceptionConfig, Sector, sector_at,
}
use aeb_node.Perception.Filters.{HasSector, hits_sector}
use aeb_node.Perception.Hits.{Reports, process-Reports}
use aeb_node.Perception.Nearest.{IsNearest}
use aeb_node.Perception.Nearest.Loop.{process-Nearest}

-- 0.5 m away at 0 degrees, and at 330, which is -30.
abbrev ahead : ScanPoint
ahead = record { angle_deg = 0; distance_mm = 0x43fa_0000; quality = 15 }

abbrev to_the_left : ScanPoint
to_the_left = record { angle_deg = 0x43a5_0000; distance_mm = 0x43fa_0000; quality = 15 }

abbrev frame : ScanFrame
frame = record { sequence = 7; timestamp_us = 9; points = ahead ∷ ahead ∷ to_the_left ∷ ahead ∷ [] }

left_sector : sector_index default_config to_the_left ≡ some sector_0
unfolding sector_index norm_angle sector_width f_lt f_sub f_div f_to_int
left_sector = refl

frame-HasSector : All (HasSector default_config) frame.points
unfolding sector_index norm_angle sector_width f_lt f_le f_sub f_div f_to_int no_return
    outside_angle beyond_distance low_quality
frame-HasSector = (refl, (refl, (refl, (refl, tt))))

detected : DetectionResult → Bool
detected r = r.center.obstacle_detected

process-Reports_example :
    (r : DetectionResult) × (process default_config frame ≡ some r) × Reports default_config frame r
process-Reports_example = process-Reports default_config frame (omega arith) frame-HasSector

frame-numbers : All (λ p. is_nan p.distance_mm ≡ false) frame.points
unfolding is_nan
frame-numbers = (refl, (refl, (refl, (refl, tt))))

process-Nearest_example :
    (r : DetectionResult) × (process default_config frame ≡ some r)
    × ((j : Sector) → IsNearest (hits_sector default_config j) frame.points (sector_at r j))
process-Nearest_example =
    process-Nearest default_config frame (omega arith) frame-HasSector frame-numbers

-- A field of view of no width, as `--min-angle 0 --max-angle 0` sets: 0.0 / 0.0 is not a number, and
-- its cast to int undefined.
abbrev no_view : PerceptionConfig
no_view = record default_config { min_angle_deg = 0; max_angle_deg = 0 }

no_width : sector_index no_view ahead ≡ none
unfolding sector_index norm_angle sector_width f_lt f_sub f_div f_to_int
no_width = refl
