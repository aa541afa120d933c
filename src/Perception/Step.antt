-- ===== src/Perception/Step.antt =====
-- perception/Perception.cpp: what one round of the loop adds to each counter.
use aeb_node.Prelude.{
  ℕ, suc, ◌≤◌, ◌≡◌, refl, ap, ◌∙◌, sym, Bool, true, false, not, ◌&&◌, ◌||◌, Option, none, some,
  arith, bit,
}
use aeb_node.Types.{ScanPoint}
use aeb_node.Perception.{
  PerceptionConfig, Sector, same_sector, sector_at, Scan, count_angle, count_distance,
  count_quality, nearer, declare_obstacle, hit, filtered, count_hit,
}
use aeb_node.Perception.Filters.{falls_in, is_defined, enough}
use aeb_node.Perception.Flags.{
  IsTallied, Adds, inc-suc, count_hit-eq, hit-flag, set_sector-counters,
}

-- What one point does, whichever filter drops it.
abbrev pub Tallied :
    PerceptionConfig → ℕ → Bool → Bool → Bool → Option Sector → Scan → Option Scan → Type 0
Tallied cfg m angle distance quality index st r =
    (st' : Scan) × (r ≡ some st')
    × Adds (bit angle) (bit distance) (bit quality) (λ j. bit (quality && falls_in index j)) st st'
    × IsTallied cfg m st'

bit_le : (b : Bool) → bit b ≤ 1
bit_le true = omega arith
bit_le false = omega arith

-- A step that adds at most 1 to each counter uses up one of the points that may come.
Adds-IsTallied :
    (cfg : PerceptionConfig) (m : ℕ) (a d q : Bool) (h : Sector → Bool) (st st' : Scan)
    → IsTallied cfg (suc m) st
    → Adds (bit a) (bit d) (bit q) (λ j. bit (h j)) st st'
    → ((j : Sector) → (sector_at st'.result j).obstacle_detected ≡ enough cfg (st'.sector_hits j))
    → IsTallied cfg m st'
Adds-IsTallied cfg m a d q h st st' t e flags = record {
  angle_small = omega (arith, t.angle_small, e.angle_added, bit_le a);
  distance_small = omega (arith, t.distance_small, e.distance_added, bit_le d);
  quality_small = omega (arith, t.quality_small, e.quality_added, bit_le q);
  hits_small = λ j. omega (arith, t.hits_small j, e.hits_added j, bit_le (h j));
  flags = flags;
}

-- A point that a filter drops changes no sector.
dropped :
    (cfg : PerceptionConfig) (m : ℕ) (a d : Bool) (st st' : Scan)
    → IsTallied cfg (suc m) st
    → st'.sector_hits ≡ st.sector_hits
    → ((j : Sector) → sector_at st'.result j ≡ sector_at st.result j)
    → Adds (bit a) (bit d) 0 (λ j. 0) st st'
    → Tallied cfg m a d false none st (some st')
dropped cfg m a d st st' t hits sectors e =
    (st', refl, e, Adds-IsTallied cfg m a d false (λ j. false) st st' t e flags_kept)
  where
    flags_kept :
        (j : Sector) → (sector_at st'.result j).obstacle_detected ≡ enough cfg (st'.sector_hits j)
    flags_kept j =
        ap (λ s. s.obstacle_detected) (sectors j)
        ∙ t.flags j
        ∙ ap (λ h. enough cfg (h j)) (sym hits)

-- Every filter passed, before the sector is looked at.
abbrev pub passed : Scan → Scan
passed st = count_quality (count_distance (count_angle st))

pub sector_at-count_angle :
    (st : Scan) (j : Sector) → sector_at (count_angle st).result j ≡ sector_at st.result j
sector_at-count_angle st j = ground arith

pub sector_at-count_distance :
    (st : Scan) (j : Sector) → sector_at (count_distance st).result j ≡ sector_at st.result j
sector_at-count_distance st j = ground arith

sector_at-count_quality :
    (st : Scan) (j : Sector) → sector_at (count_quality st).result j ≡ sector_at st.result j
sector_at-count_quality st j = ground arith

pub sector_at-passed :
    (st : Scan) (j : Sector) → sector_at (passed st).result j ≡ sector_at st.result j
sector_at-passed st j =
    sector_at-count_quality (count_distance (count_angle st)) j
    ∙ sector_at-count_distance (count_angle st) j
    ∙ sector_at-count_angle st j

hit-Adds :
    (cfg : PerceptionConfig) (p : ScanPoint) (i : Sector) (st : Scan) (m : ℕ)
    → IsTallied cfg (suc m) st
    → Adds 1 1 1 (λ j. bit (same_sector i j)) st (hit cfg p i (passed st))
unfolding hit
hit-Adds cfg p i st m t =
    let r = (passed st).result in
    let hits = count_hit st.sector_hits i i in
    let (angle, distance, quality, total, timestamp) =
      set_sector-counters r i (declare_obstacle cfg hits (nearer (sector_at r i) p)) in
    record {
      angle_added = angle ∙ inc-suc st.result.angle_filtered_points m t.angle_small;
      distance_added = distance ∙ inc-suc st.result.distance_filtered_points m t.distance_small;
      quality_added = quality ∙ inc-suc st.result.quality_filtered_points m t.quality_small;
      hits_added = λ j. count_hit-eq st.sector_hits i j m (t.hits_small j);
      same_total = total;
      same_timestamp = timestamp;
    }

hit-IsTallied :
    (cfg : PerceptionConfig) (p : ScanPoint) (i : Sector) (st : Scan) (m : ℕ)
    → IsTallied cfg (suc m) st
    → IsTallied cfg m (hit cfg p i (passed st))
unfolding hit
hit-IsTallied cfg p i st m t =
    Adds-IsTallied cfg m true true true (same_sector i) st (hit cfg p i (passed st)) t
      (hit-Adds cfg p i st m t)
      (λ j.
        hit-flag cfg p i j (passed st) m (t.hits_small j)
          (ap (λ s. s.obstacle_detected) (sector_at-passed st j) ∙ t.flags j))

pub unchanged : (st : Scan) → Adds 0 0 0 (λ j. 0) st st
unchanged st = record {
  angle_added = omega arith;
  distance_added = omega arith;
  quality_added = omega arith;
  hits_added = λ j. omega arith;
  same_total = refl;
  same_timestamp = refl;
}

pub filtered-Tallied :
    (cfg : PerceptionConfig) (p : ScanPoint) (no_ret outside beyond low : Bool)
    (index : Option Sector) (st : Scan) (m : ℕ)
    → IsTallied cfg (suc m) st
    → (not (not no_ret && not outside && not beyond && not low) || is_defined index) ≡ true
    → Tallied cfg m
        (not no_ret && not outside)
        (not no_ret && not outside && not beyond)
        (not no_ret && not outside && not beyond && not low)
        index
        st
        (filtered cfg p no_ret outside beyond low index st)
unfolding filtered hit
filtered-Tallied cfg p true outside beyond low index st m t d =
    dropped cfg m false false st st t refl (λ j. refl) (unchanged st)
filtered-Tallied cfg p false true beyond low index st m t d =
    dropped cfg m false false st st t refl (λ j. refl) (unchanged st)
filtered-Tallied cfg p false false true low index st m t d =
    dropped cfg m true false st (count_angle st) t refl (sector_at-count_angle st) (record {
      angle_added = inc-suc st.result.angle_filtered_points m t.angle_small;
      distance_added = omega arith;
      quality_added = omega arith;
      hits_added = λ j. omega arith;
      same_total = refl;
      same_timestamp = refl;
    })
filtered-Tallied cfg p false false false true index st m t d =
    dropped cfg m true true st (count_distance (count_angle st)) t refl
      (λ j. sector_at-count_distance (count_angle st) j ∙ sector_at-count_angle st j)
      (record {
        angle_added = inc-suc st.result.angle_filtered_points m t.angle_small;
        distance_added = inc-suc st.result.distance_filtered_points m t.distance_small;
        quality_added = omega arith;
        hits_added = λ j. omega arith;
        same_total = refl;
        same_timestamp = refl;
      })
filtered-Tallied cfg p false false false false none st m t d = cc
filtered-Tallied cfg p false false false false (some i) st m t d =
    (hit cfg p i (passed st), refl, hit-Adds cfg p i st m t, hit-IsTallied cfg p i st m t)
