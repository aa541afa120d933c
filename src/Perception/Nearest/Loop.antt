-- ===== src/Perception/Nearest/Loop.antt =====
-- perception/Perception.cpp: the nearest points that a detection reports.
use aeb_node.Prelude.{
  ℕ, ◌<◌, ◌^◌, ◌≡◌, refl, ◌∙◌, sym, subst, ◌⊎◌, inl, inr, Bool, true, false, not, ◌&&◌, List, [],
  ◌∷◌, Option, none, some, arith, All, if-of, Holds, Holds->>=, holds, length,
}
use Prim.{tt}
use aeb_node.Types.{ScanPoint, ScanFrame}
use aeb_node.Float32.{f_zero, is_nan}
use aeb_node.Perception.{
  PerceptionConfig, SectorResult, DetectionResult, Sector, same_sector, sector_at, Scan, no_return,
  nearer, declare_obstacle, hit, filtered, count_angle, count_distance, outside_angle,
  beyond_distance, low_quality, sector_index, process_point, process_points, new_scan, process,
  count_hit,
}
use aeb_node.Perception.Filters.{hits_sector, falls_in, HasSector}
use aeb_node.Perception.Flags.{sector_at-set_sector}
use aeb_node.Perception.Step.{
  sector_at-count_angle, sector_at-count_distance, sector_at-passed, passed,
}
use aeb_node.Perception.Hits.{process-Reports}
use aeb_node.Perception.Nearest.{
  Any, Shows, NotNearer, IsNearest, IsDistance, IsNearest-nearer, IsNearest-other,
}

declare_obstacle-IsNearest :
    (hits : ScanPoint → Bool) (points : List ScanPoint) (cfg : PerceptionConfig) (n : ℕ)
    (s : SectorResult)
    → IsNearest hits points s
    → IsNearest hits points (declare_obstacle cfg n s)
unfolding declare_obstacle
declare_obstacle-IsNearest hits points cfg n s h =
    if-of (IsNearest hits points) _ _ _ (λ e. h) (λ e. h)

same_sector-eq : (i j : Sector) → same_sector i j ≡ true → i ≡ j
same_sector-eq i j h = ground arith

module _ (cfg : PerceptionConfig) (j : Sector) (p : ScanPoint) (seen : List ScanPoint) where
  -- The sector after a point.
  Seen : Scan → Type 0
  Seen st = IsNearest (hits_sector cfg j) (p ∷ seen) (sector_at st.result j)

  hit-Seen :
      (i : Sector) (st : Scan)
      → hits_sector cfg j p ≡ same_sector i j
      → All (λ p. hits_sector cfg j p ≡ true → IsDistance p) seen
      → IsNearest (hits_sector cfg j) seen (sector_at st.result j)
      → Seen (hit cfg p i (passed st))
  unfolding hit Seen
  hit-Seen i st e d h =
      let hits = hits_sector cfg j in
      let s = sector_at (passed st).result i in
      subst (IsNearest hits (p ∷ seen)) (sym (sector_at-set_sector (passed st).result i j _)) (
        if-of (IsNearest hits (p ∷ seen)) (same_sector i j)
          (declare_obstacle cfg (count_hit st.sector_hits i i) (nearer s p))
          (sector_at (passed st).result j)
          (λ same.
            declare_obstacle-IsNearest hits (p ∷ seen) cfg (count_hit st.sector_hits i i)
              (nearer s p)
              (IsNearest-nearer hits p seen s (e ∙ same) d (
                subst (λ k. IsNearest hits seen (sector_at (passed st).result k))
                  (sym (same_sector-eq i j same))
                  (subst (IsNearest hits seen) (sym (sector_at-passed st j)) h))))
          (λ other.
            IsNearest-other hits p seen (sector_at (passed st).result j) (e ∙ other)
              (subst (IsNearest hits seen) (sym (sector_at-passed st j)) h)))

  -- A point that some filter drops, or that has no sector.
  kept-Seen :
      (st st' : Scan)
      → hits_sector cfg j p ≡ false
      → sector_at st'.result j ≡ sector_at st.result j
      → IsNearest (hits_sector cfg j) seen (sector_at st.result j)
      → Seen st'
  unfolding Seen
  kept-Seen st st' e same h =
      IsNearest-other (hits_sector cfg j) p seen (sector_at st'.result j) e
        (subst (IsNearest (hits_sector cfg j) seen) (sym same) h)

  filtered-Seen :
      (no_ret outside beyond low : Bool) (index : Option Sector) (st : Scan)
      → hits_sector cfg j p
        ≡ (not no_ret && not outside && not beyond && not low && falls_in index j)
      → All (λ p. hits_sector cfg j p ≡ true → IsDistance p) seen
      → IsNearest (hits_sector cfg j) seen (sector_at st.result j)
      → Holds Seen (filtered cfg p no_ret outside beyond low index st)
  unfolding filtered
  filtered-Seen true outside beyond low index st e d h = kept-Seen st st e refl h
  filtered-Seen false true beyond low index st e d h = kept-Seen st st e refl h
  filtered-Seen false false true low index st e d h =
      kept-Seen st (count_angle st) e (sector_at-count_angle st j) h
  filtered-Seen false false false true index st e d h =
      kept-Seen st (count_distance (count_angle st)) e
        (sector_at-count_distance (count_angle st) j ∙ sector_at-count_angle st j) h
  filtered-Seen false false false false none st e d h = tt
  filtered-Seen false false false false (some i) st e d h = hit-Seen i st e d h

rev_onto : List ScanPoint → List ScanPoint → List ScanPoint
rev_onto [] seen = seen
rev_onto (p ∷ points) seen = rev_onto points (p ∷ seen)

All-rev_onto :
    (P : ScanPoint → Type 0) (points seen : List ScanPoint)
    → All P (rev_onto points seen)
    → All P points × All P seen
unfolding rev_onto
All-rev_onto P [] seen h = (tt, h)
All-rev_onto P (p ∷ points) seen h =
    let (rest, first) = All-rev_onto P points (p ∷ seen) h in ((first.0, rest), first.1)

Any-rev_onto :
    (P : ScanPoint → Type 0) (points seen : List ScanPoint)
    → Any P (rev_onto points seen)
    → Any P points ⊎ Any P seen
unfolding rev_onto
Any-rev_onto P [] seen h = inr h
Any-rev_onto P (p ∷ points) seen h = elim (Any-rev_onto P points (p ∷ seen) h) [
  | inl rest ↦ inl (inr rest)
  | inr (inl first) ↦ inl (inl first)
  | inr (inr k) ↦ inr k
]

IsNearest-rev_onto :
    (hits : ScanPoint → Bool) (points : List ScanPoint) (s : SectorResult)
    → IsNearest hits (rev_onto points []) s
    → IsNearest hits points s
IsNearest-rev_onto hits points s (inl (n, e, a)) =
    inl ((All-rev_onto (λ p. hits p ≡ false) points [] n).0, e, a)
IsNearest-rev_onto hits points s (inr (shown, n)) = inr (
  elim (Any-rev_onto (Shows hits s) points [] shown) [ inl k ↦ k | inr k ↦ absurd k ],
  (All-rev_onto (NotNearer hits s) points [] n).0,
)

-- A hit is neither a missing return nor at a NaN.
hit-IsDistance :
    (cfg : PerceptionConfig) (j : Sector) (p : ScanPoint)
    → is_nan p.distance_mm ≡ false
    → hits_sector cfg j p ≡ true
    → IsDistance p
hit-IsDistance cfg j p n h = (ground (arith, h), n)

process_points-Nearest :
    (cfg : PerceptionConfig) (j : Sector) (points seen : List ScanPoint) (st : Scan)
    → All (λ p. is_nan p.distance_mm ≡ false) points
    → All (λ p. hits_sector cfg j p ≡ true → IsDistance p) seen
    → IsNearest (hits_sector cfg j) seen (sector_at st.result j)
    → Holds
        (λ st'. IsNearest (hits_sector cfg j) (rev_onto points seen) (sector_at st'.result j))
        (process_points cfg points st)
unfolding process_points process_point rev_onto Seen
process_points-Nearest cfg j [] seen st n d h = h
process_points-Nearest cfg j (p ∷ points) seen st n d h =
    Holds->>= (Seen cfg j p seen) _ (process_point cfg p st) (process_points cfg points)
      (filtered-Seen cfg j p seen (no_return p) (outside_angle cfg p) (beyond_distance cfg p)
        (low_quality cfg p) (sector_index cfg p) st (ground arith) d h)
      (λ st' k.
        process_points-Nearest cfg j points (p ∷ seen) st' (n.1) (hit-IsDistance cfg j p (n.0), d)
          k)

process-Holds :
    (cfg : PerceptionConfig) (f : ScanFrame) (j : Sector)
    → All (λ p. is_nan p.distance_mm ≡ false) f.points
    → Holds (λ r. IsNearest (hits_sector cfg j) f.points (sector_at r j)) (process cfg f)
unfolding process
process-Holds cfg f j n =
    Holds->>= (λ st. IsNearest (hits_sector cfg j) (rev_onto f.points []) (sector_at st.result j)) _
      (process_points cfg f.points (new_scan f)) (λ st. some st.result)
      (process_points-Nearest cfg j f.points [] (new_scan f) n tt
        (inl (tt, start_distance j, start_angle j)))
      (λ st k. IsNearest-rev_onto (hits_sector cfg j) f.points (sector_at st.result j) k)
  where
    start_distance :
        (j : Sector) → (sector_at (new_scan f).result j).nearest_distance_mm ≡ 0xbf80_0000
    start_distance j = ground arith

    start_angle : (j : Sector) → (sector_at (new_scan f).result j).nearest_angle_deg ≡ f_zero
    start_angle j = ground arith

-- On a frame of fewer than 2 ^ 32 points, none of them at a distance that is a NaN and each with a
-- defined sector if it passes the filters, `process` returns, and for every sector: either no point
-- counts as a hit of the sector, and its result stays at the distance -1.0 and the angle 0; or its
-- result has the distance and the angle, taken down by 360 above 180, of one of its hits, and no hit of
-- the sector is nearer, also where the hits are too few to declare an obstacle.
pub process-Nearest :
    (cfg : PerceptionConfig) (f : ScanFrame)
    → length f.points < 2 ^ 32
    → All (HasSector cfg) f.points
    → All (λ p. is_nan p.distance_mm ≡ false) f.points
    → (r : DetectionResult) × (process cfg f ≡ some r)
      × ((j : Sector) → IsNearest (hits_sector cfg j) f.points (sector_at r j))
process-Nearest cfg f small defined numbers =
    let (r, e, reports) = process-Reports cfg f small defined in
    (
      r,
      e,
      λ j.
          holds (λ r. IsNearest (hits_sector cfg j) f.points (sector_at r j)) (process cfg f)
            (process-Holds cfg f j numbers) e,
    )
