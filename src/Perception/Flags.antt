-- ===== src/Perception/Flags.antt =====
-- perception/Perception.cpp: the counters and the flag of a sector after a hit.
use aeb_node.Prelude.{
  ℕ, suc, ◌+◌, ◌<◌, ◌^◌, ◌≡◌, refl, true, false, ◌||◌, leb, if◌then◌else◌, arith, bit, Bool-cases,
  inl, inr, ◌⊎◌, subst,
}
use aeb_node.Types.{ScanPoint}
use aeb_node.Perception.{
  PerceptionConfig, SectorResult, DetectionResult, Sector, sector_0, sector_1, sector_2, sector_3,
  sector_4, same_sector, sector_at, set_sector, Scan, nearer, declare_obstacle, hit, inc, count_hit,
}
use aeb_node.Perception.Filters.{enough}

pub sector_at-set_sector :
    (r : DetectionResult) (i j : Sector) (s : SectorResult)
    → sector_at (set_sector r i s) j ≡ (if same_sector i j then s else sector_at r j)
sector_at-set_sector r i j s = ground arith

-- No counter wraps within the next `n` points, and the flags agree with the hits so far.
pub record IsTallied (cfg : PerceptionConfig) (n : ℕ) (st : Scan) : Type 0 where
  pub angle_small : st.result.angle_filtered_points + n < 2 ^ 32
  pub distance_small : st.result.distance_filtered_points + n < 2 ^ 32
  pub quality_small : st.result.quality_filtered_points + n < 2 ^ 32
  pub hits_small : (j : Sector) → st.sector_hits j + n < 2 ^ 32
  pub flags :
      (j : Sector) → (sector_at st.result j).obstacle_detected ≡ enough cfg (st.sector_hits j)

-- What a stretch of the loop adds to the counters.
pub record Adds (angle distance quality : ℕ) (hits : Sector → ℕ) (st st' : Scan) : Type 0 where
  pub angle_added : st'.result.angle_filtered_points ≡ st.result.angle_filtered_points + angle
  pub distance_added :
      st'.result.distance_filtered_points ≡ st.result.distance_filtered_points + distance
  pub quality_added :
      st'.result.quality_filtered_points ≡ st.result.quality_filtered_points + quality
  pub hits_added : (j : Sector) → st'.sector_hits j ≡ st.sector_hits j + hits j
  pub same_total : st'.result.total_points ≡ st.result.total_points
  pub same_timestamp : st'.result.timestamp ≡ st.result.timestamp

pub set_sector-counters :
    (r : DetectionResult) (i : Sector) (s : SectorResult)
    → ((set_sector r i s).angle_filtered_points ≡ r.angle_filtered_points)
      × ((set_sector r i s).distance_filtered_points ≡ r.distance_filtered_points)
      × ((set_sector r i s).quality_filtered_points ≡ r.quality_filtered_points)
      × ((set_sector r i s).total_points ≡ r.total_points)
      × ((set_sector r i s).timestamp ≡ r.timestamp)
set_sector-counters r sector_0 s = (refl, refl, refl, refl, refl)
set_sector-counters r sector_1 s = (refl, refl, refl, refl, refl)
set_sector-counters r sector_2 s = (refl, refl, refl, refl, refl)
set_sector-counters r sector_3 s = (refl, refl, refl, refl, refl)
set_sector-counters r sector_4 s = (refl, refl, refl, refl, refl)

pub inc-suc : (n m : ℕ) → n + suc m < 2 ^ 32 → inc n ≡ n + 1
inc-suc n m h = omega arith

pub count_hit-eq :
    (hits : Sector → ℕ) (i j : Sector) (m : ℕ)
    → hits j + suc m < 2 ^ 32
    → count_hit hits i j ≡ hits j + bit (same_sector i j)
count_hit-eq hits i j m h = ground (arith, inc-suc (hits j) m h)

same_sector_self : (i : Sector) → same_sector i i ≡ true
same_sector_self i = ground arith

same_sector-eq : (i j : Sector) → same_sector i j ≡ true → i ≡ j
same_sector-eq i j h = ground arith

nearer-flag :
    (s : SectorResult) (p : ScanPoint) → (nearer s p).obstacle_detected ≡ s.obstacle_detected
unfolding nearer
nearer-flag s p = ground arith

declare_obstacle-flag :
    (cfg : PerceptionConfig) (n : ℕ) (s : SectorResult)
    → (declare_obstacle cfg n s).obstacle_detected
      ≡ (s.obstacle_detected || leb cfg.min_hits_per_sector n)
unfolding declare_obstacle
declare_obstacle-flag cfg n s = ground arith

-- The flag of the sector that is hit.
hit-flag_self :
    (cfg : PerceptionConfig) (p : ScanPoint) (i : Sector) (st : Scan) (m : ℕ)
    → st.sector_hits i + suc m < 2 ^ 32
    → (sector_at st.result i).obstacle_detected ≡ enough cfg (st.sector_hits i)
    → (sector_at (hit cfg p i st).result i).obstacle_detected
      ≡ enough cfg (count_hit st.sector_hits i i)
unfolding hit
hit-flag_self cfg p i st m h e =
    let n = count_hit st.sector_hits i i in
    let s = nearer (sector_at st.result i) p in
    ground (
      arith,
      sector_at-set_sector st.result i i (declare_obstacle cfg n s),
      same_sector_self i,
      declare_obstacle-flag cfg n s,
      nearer-flag (sector_at st.result i) p,
      inc-suc (st.sector_hits i) m h,
    )

pub hit-flag :
    (cfg : PerceptionConfig) (p : ScanPoint) (i j : Sector) (st : Scan) (m : ℕ)
    → st.sector_hits j + suc m < 2 ^ 32
    → (sector_at st.result j).obstacle_detected ≡ enough cfg (st.sector_hits j)
    → (sector_at (hit cfg p i st).result j).obstacle_detected
      ≡ enough cfg (count_hit st.sector_hits i j)
unfolding hit
hit-flag cfg p i j st m h e = by_sector (Bool-cases (same_sector i j)) h e
  where
    by_sector :
        ((same_sector i j ≡ true) ⊎ (same_sector i j ≡ false))
        → st.sector_hits j + suc m < 2 ^ 32
        → (sector_at st.result j).obstacle_detected ≡ enough cfg (st.sector_hits j)
        → (sector_at (hit cfg p i st).result j).obstacle_detected
          ≡ enough cfg (count_hit st.sector_hits i j)
    by_sector (inl t) h e =
        subst
          (λ k.
            st.sector_hits k + suc m < 2 ^ 32
            → (sector_at st.result k).obstacle_detected ≡ enough cfg (st.sector_hits k)
            → (sector_at (hit cfg p i st).result k).obstacle_detected
              ≡ enough cfg (count_hit st.sector_hits i k))
          (same_sector-eq i j t) (hit-flag_self cfg p i st m) h e
    by_sector (inr t) h e = ground (
      arith,
      sector_at-set_sector st.result i j
          (declare_obstacle cfg (count_hit st.sector_hits i i) (nearer (sector_at st.result i) p)),
    )
