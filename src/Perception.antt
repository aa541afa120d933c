-- ===== src/Perception.antt =====
-- perception/PerceptionConfig.hpp, perception/DetectionResult.hpp and perception/Perception.cpp: the
-- obstacle detection that runs on every frame.
pub mod Filters
pub mod Flags
pub mod Step
pub mod Hits
pub mod Nearest
mod Tests
use aeb_node.Prelude.{
  ℕ, zero, suc, ◌+◌, ◌%◌, ◌^◌, Bool, true, false, ◌||◌, List, [], ◌∷◌, Option, none, some, length,
  ltb, leb, if◌then◌else◌, ◌>>=◌,
}
use aeb_node.Prelude.Int.{ℤ, pos, negsuc}
use aeb_node.Float32.{Float32, f_zero, f_lt, f_le, f_sub, f_div, f_to_int}
use aeb_node.Types.{ScanPoint, ScanFrame}

pub record PerceptionConfig : Type 0 where
  pub min_angle_deg : Float32
  pub max_angle_deg : Float32
  pub max_distance_mm : Float32
  pub minimum_quality : ℕ
  pub min_hits_per_sector : ℕ

-- -45.0, 45.0 and 2000.0
abbrev pub default_config : PerceptionConfig
default_config = record {
  min_angle_deg = 0xc234_0000;
  max_angle_deg = 0x4234_0000;
  max_distance_mm = 0x44fa_0000;
  minimum_quality = 15;
  min_hits_per_sector = 3;
}

pub record SectorResult : Type 0 where
  pub obstacle_detected : Bool
  pub nearest_distance_mm : Float32
  pub nearest_angle_deg : Float32

-- The distance starts at -1.0.
abbrev pub no_obstacle : SectorResult
no_obstacle = record {
  obstacle_detected = false;
  nearest_distance_mm = 0xbf80_0000;
  nearest_angle_deg = f_zero;
}

pub record DetectionResult : Type 0 where
  pub left : SectorResult
  pub left_center : SectorResult
  pub center : SectorResult
  pub right_center : SectorResult
  pub right : SectorResult
  pub total_points : ℕ
  pub angle_filtered_points : ℕ
  pub distance_filtered_points : ℕ
  pub quality_filtered_points : ℕ
  pub timestamp : ℕ

-- An index of the arrays `sectors` and `sector_hits`, from 0 to 4.
pub data Sector : Type 0 where
  sector_0 sector_1 sector_2 sector_3 sector_4 : Sector

abbrev pub same_sector : Sector → Sector → Bool
same_sector sector_0 sector_0 = true
same_sector sector_1 sector_1 = true
same_sector sector_2 sector_2 = true
same_sector sector_3 sector_3 = true
same_sector sector_4 sector_4 = true
same_sector i j = false

-- `*sectors[i]`, read and written
abbrev pub sector_at : DetectionResult → Sector → SectorResult
sector_at r sector_0 = r.left
sector_at r sector_1 = r.left_center
sector_at r sector_2 = r.center
sector_at r sector_3 = r.right_center
sector_at r sector_4 = r.right

abbrev pub set_sector : DetectionResult → Sector → SectorResult → DetectionResult
set_sector r sector_0 s = record r { left = s }
set_sector r sector_1 s = record r { left_center = s }
set_sector r sector_2 s = record r { center = s }
set_sector r sector_3 s = record r { right_center = s }
set_sector r sector_4 s = record r { right = s }

-- What the loop changes: the result, and the array `sector_hits`.
pub record Scan : Type 0 where
  pub result : DetectionResult
  pub sector_hits : Sector → ℕ

-- `fov_span / 5.0F`
unfoldable pub sector_width : PerceptionConfig → Float32
sector_width cfg = f_div (f_sub cfg.max_angle_deg cfg.min_angle_deg) 0x40a0_0000

-- Above 180.0 the angle is taken down by 360.0.
unfoldable pub norm_angle : ScanPoint → Float32
norm_angle p = if f_lt 0x4334_0000 p.angle_deg then f_sub p.angle_deg 0x43b4_0000 else p.angle_deg

-- The index clamped to the array.
abbrev pub clamp_index : ℤ → Sector
clamp_index (negsuc n) = sector_0
clamp_index (pos zero) = sector_0
clamp_index (pos (suc zero)) = sector_1
clamp_index (pos (suc (suc zero))) = sector_2
clamp_index (pos (suc (suc (suc zero)))) = sector_3
clamp_index (pos (suc (suc (suc (suc n))))) = sector_4

-- The sectorization. `none`: the cast to int is undefined behaviour.
unfoldable pub sector_index : PerceptionConfig → ScanPoint → Option Sector
sector_index cfg p = do
  i ← f_to_int (f_div (f_sub (norm_angle p) cfg.min_angle_deg) (sector_width cfg))
  some (clamp_index i)

-- The tests that drop a point, in the order of the loop.
unfoldable pub no_return : ScanPoint → Bool
no_return p = f_le p.distance_mm f_zero

unfoldable pub outside_angle : PerceptionConfig → ScanPoint → Bool
outside_angle cfg p = f_lt (norm_angle p) cfg.min_angle_deg || f_lt cfg.max_angle_deg (norm_angle p)

unfoldable pub beyond_distance : PerceptionConfig → ScanPoint → Bool
beyond_distance cfg p = f_lt cfg.max_distance_mm p.distance_mm

unfoldable pub low_quality : PerceptionConfig → ScanPoint → Bool
low_quality cfg p = ltb p.quality cfg.minimum_quality

-- `++` of a `std::uint32_t`
abbrev pub inc : ℕ → ℕ
inc n = (n + 1) % 2 ^ 32

abbrev pub count_angle : Scan → Scan
count_angle st = record st {
  result = record st.result { angle_filtered_points = inc st.result.angle_filtered_points };
}

abbrev pub count_distance : Scan → Scan
count_distance st = record st {
  result = record st.result { distance_filtered_points = inc st.result.distance_filtered_points };
}

abbrev pub count_quality : Scan → Scan
count_quality st = record st {
  result = record st.result { quality_filtered_points = inc st.result.quality_filtered_points };
}

-- `sector_hits[i]++`
abbrev pub count_hit : (Sector → ℕ) → Sector → Sector → ℕ
count_hit hits i j = if same_sector i j then inc (hits j) else hits j

-- The nearest point of a sector, after one more hit.
unfoldable pub nearer : SectorResult → ScanPoint → SectorResult
nearer s p =
    if f_lt p.distance_mm s.nearest_distance_mm || f_lt s.nearest_distance_mm f_zero
    then record s { nearest_distance_mm = p.distance_mm; nearest_angle_deg = norm_angle p }
    else s

-- `if (sector_hits[i] >= min_hits_per_sector) sector.obstacle_detected = true`
unfoldable pub declare_obstacle : PerceptionConfig → ℕ → SectorResult → SectorResult
declare_obstacle cfg hits s =
    if leb cfg.min_hits_per_sector hits then record s { obstacle_detected = true } else s

-- A point that passed every filter, in sector `i`.
unfoldable pub hit : PerceptionConfig → ScanPoint → Sector → Scan → Scan
hit cfg p i st =
    let hits = count_hit st.sector_hits i in
    record {
      result =
          set_sector st.result i (declare_obstacle cfg (hits i) (nearer (sector_at st.result i) p));
      sector_hits = hits;
    }

-- One round of the loop, on the outcomes of the tests.
unfoldable pub filtered :
    PerceptionConfig → ScanPoint → Bool → Bool → Bool → Bool → Option Sector → Scan → Option Scan
filtered cfg p no_ret outside beyond low index st =
    if no_ret
    then some st
    else if outside
    then some st
    else if beyond
    then some (count_angle st)
    else if low
    then some (count_distance (count_angle st))
    else do i ← index; some (hit cfg p i (count_quality (count_distance (count_angle st))))

unfoldable pub process_point : PerceptionConfig → ScanPoint → Scan → Option Scan
unfolding filtered
process_point cfg p st =
    filtered cfg p (no_return p) (outside_angle cfg p) (beyond_distance cfg p) (low_quality cfg p)
      (sector_index cfg p) st

unfoldable pub process_points : PerceptionConfig → List ScanPoint → Scan → Option Scan
process_points cfg [] st = some st
process_points cfg (p ∷ points) st = do st' ← process_point cfg p st; process_points cfg points st'

-- The state before the loop.
abbrev pub new_scan : ScanFrame → Scan
new_scan f = record {
  result = record {
    left = no_obstacle;
    left_center = no_obstacle;
    center = no_obstacle;
    right_center = no_obstacle;
    right = no_obstacle;
    total_points = length f.points % 2 ^ 32;
    angle_filtered_points = 0;
    distance_filtered_points = 0;
    quality_filtered_points = 0;
    timestamp = f.timestamp_us;
  };
  sector_hits = λ i. 0;
}

-- `process(frame)`
unfoldable pub process : PerceptionConfig → ScanFrame → Option DetectionResult
unfolding process_points
process cfg f = do st ← process_points cfg f.points (new_scan f); some st.result
