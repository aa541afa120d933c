-- ===== src/Perception/Filters.antt =====
-- What it takes for a point to pass the filters of perception/Perception.cpp and to count as a hit of
-- a sector, said apart from the loop.
use aeb_node.Prelude.{ℕ, ◌≡◌, Bool, true, false, not, ◌&&◌, ◌||◌, Option, none, some, leb}
use aeb_node.Types.{ScanPoint}
use aeb_node.Perception.{
  PerceptionConfig, Sector, same_sector, sector_index, no_return, outside_angle, beyond_distance,
  low_quality,
}

-- The filters of the documentation, each on top of the one before.
abbrev pub passes_angle : PerceptionConfig → ScanPoint → Bool
passes_angle cfg p = not (no_return p) && not (outside_angle cfg p)

abbrev pub passes_distance : PerceptionConfig → ScanPoint → Bool
passes_distance cfg p = passes_angle cfg p && not (beyond_distance cfg p)

abbrev pub passes_quality : PerceptionConfig → ScanPoint → Bool
passes_quality cfg p = passes_distance cfg p && not (low_quality cfg p)

abbrev pub falls_in : Option Sector → Sector → Bool
falls_in none j = false
falls_in (some i) j = same_sector i j

-- Does the point count as a hit of the sector?
abbrev pub hits_sector : PerceptionConfig → Sector → ScanPoint → Bool
hits_sector cfg j p = passes_quality cfg p && falls_in (sector_index cfg p) j

-- No point makes the cast to int undefined.
abbrev pub is_defined : Option Sector → Bool
is_defined none = false
is_defined (some i) = true

abbrev pub HasSector : PerceptionConfig → ScanPoint → Type 0
HasSector cfg p = (not (passes_quality cfg p) || is_defined (sector_index cfg p)) ≡ true

-- The flag of a sector with `hits` hits: enough of them, and one at least.
abbrev pub enough : PerceptionConfig → ℕ → Bool
enough cfg hits = leb 1 hits && leb cfg.min_hits_per_sector hits
