-- ===== src/Perception/Hits.antt =====
-- perception/Perception.cpp: the counters and the obstacle flags against an independent count of the
-- points that pass each filter.
use aeb_node.Prelude.{
  ℕ, ◌+◌, ◌<◌, ◌%◌, ◌^◌, ◌≡◌, refl, ap, ◌∙◌, List, [], ◌∷◌, some, length, >>=-eq_of_some, arith,
  count_if, All,
}
use aeb_node.Types.{ScanPoint, ScanFrame}
use aeb_node.Perception.{
  PerceptionConfig, DetectionResult, Sector, sector_at, Scan, sector_index, no_return,
  outside_angle, beyond_distance, low_quality, process_point, process_points, new_scan, process,
}
use aeb_node.Perception.Filters.{
  passes_angle, passes_distance, passes_quality, hits_sector, HasSector, enough,
}
use aeb_node.Perception.Flags.{IsTallied, Adds}
use aeb_node.Perception.Step.{filtered-Tallied, unchanged}

Adds-trans :
    {a d q a' d' q' : ℕ} {h h' : Sector → ℕ} {st st' st'' : Scan}
    → Adds a d q h st st'
    → Adds a' d' q' h' st' st''
    → Adds (a + a') (d + d') (q + q') (λ j. h j + h' j) st st''
Adds-trans e e' = record {
  angle_added = omega (arith, e.angle_added, e'.angle_added);
  distance_added = omega (arith, e.distance_added, e'.distance_added);
  quality_added = omega (arith, e.quality_added, e'.quality_added);
  hits_added = λ j. omega (arith, e.hits_added j, e'.hits_added j);
  same_total = e'.same_total ∙ e.same_total;
  same_timestamp = e'.same_timestamp ∙ e.same_timestamp;
}

-- So does a stretch of points, each of which has a sector if it is counted.
process_points-Tallied :
    (cfg : PerceptionConfig) (points : List ScanPoint) (st : Scan)
    → All (HasSector cfg) points
    → IsTallied cfg (length points) st
    → (st' : Scan) × (process_points cfg points st ≡ some st')
      × Adds
          (count_if (passes_angle cfg) points)
          (count_if (passes_distance cfg) points)
          (count_if (passes_quality cfg) points)
          (λ j. count_if (hits_sector cfg j) points)
          st
          st'
      × IsTallied cfg 0 st'
unfolding process_points process_point
process_points-Tallied cfg [] st d t = (st, refl, unchanged st, t)
process_points-Tallied cfg (p ∷ points) st d t =
    let (st', e, a, t') =
      filtered-Tallied cfg p (no_return p) (outside_angle cfg p) (beyond_distance cfg p)
        (low_quality cfg p) (sector_index cfg p) st (length points) t d.0 in
    let (st'', e', a', t'') = process_points-Tallied cfg points st' d.1 t' in
    (
      st'',
      >>=-eq_of_some (process_point cfg p st) (process_points cfg points) e e',
      Adds-trans a a',
      t'',
    )

-- What a detection reports of the points of its frame.
pub record Reports (cfg : PerceptionConfig) (f : ScanFrame) (r : DetectionResult) : Type 0 where
  pub total : r.total_points ≡ length f.points
  pub timestamp : r.timestamp ≡ f.timestamp_us
  pub angle : r.angle_filtered_points ≡ count_if (passes_angle cfg) f.points
  pub distance : r.distance_filtered_points ≡ count_if (passes_distance cfg) f.points
  pub quality : r.quality_filtered_points ≡ count_if (passes_quality cfg) f.points
  pub obstacles :
      (j : Sector)
      → (sector_at r j).obstacle_detected ≡ enough cfg (count_if (hits_sector cfg j) f.points)

small_length : (n : ℕ) → n < 2 ^ 32 → n % 2 ^ 32 ≡ n
small_length n h = omega arith

from_zero : (n m : ℕ) → n ≡ 0 + m → n ≡ m
from_zero n m e = omega arith

no_flags :
    (cfg : PerceptionConfig) (f : ScanFrame) (j : Sector)
    → (sector_at (new_scan f).result j).obstacle_detected ≡ enough cfg 0
no_flags cfg f j = ground arith

-- On a frame of fewer than 2 ^ 32 points, each of which has a defined sector if it passes the filters,
-- `process` returns, its three counters are the numbers of points that pass the angle filter, that and
-- the distance filter, and all three filters, and a sector's flag is set exactly if the points that
-- pass all filters and fall into the sector are at least one and at least `min_hits_per_sector`.
pub process-Reports :
    (cfg : PerceptionConfig) (f : ScanFrame)
    → length f.points < 2 ^ 32
    → All (HasSector cfg) f.points
    → (r : DetectionResult) × (process cfg f ≡ some r) × Reports cfg f r
unfolding process
process-Reports cfg f h d =
    let start : IsTallied cfg (length f.points) (new_scan f) = record {
      angle_small = omega arith;
      distance_small = omega arith;
      quality_small = omega arith;
      hits_small = λ j. omega arith;
      flags = no_flags cfg f;
    } in
    let (st, e, a, t) = process_points-Tallied cfg f.points (new_scan f) d start in
    (
      st.result,
      >>=-eq_of_some (process_points cfg f.points (new_scan f)) (λ st. some st.result) e refl,
      record {
        total = a.same_total ∙ small_length (length f.points) h;
        timestamp = a.same_timestamp;
        angle = omega (arith, a.angle_added);
        distance = omega (arith, a.distance_added);
        quality = omega (arith, a.quality_added);
        obstacles = λ j. t.flags j ∙ ap (enough cfg) (from_zero _ _ (a.hits_added j));
      },
    )
