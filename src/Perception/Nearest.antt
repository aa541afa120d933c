-- ===== src/Perception/Nearest.antt =====
-- perception/Perception.cpp: the nearest point of a sector.
pub mod Loop
use aeb_node.Prelude.{
  ℕ, ◌≡◌, refl, ap, ◌∙◌, sym, ◌⊎◌, inl, inr, Bool, true, false, not, ◌&&◌, ◌||◌, List, [], ◌∷◌,
  Option, none, some, if◌then◌else◌, arith, subst, All, Bool-cases, if-eq_of_true, if-eq_of_false,
}
use mathlib.Core.Bool.{false≢true}
use Prim.{tt}
use aeb_node.Types.{ScanPoint}
use aeb_node.Float32.{Float32, f_zero, f_lt, is_nan}
use aeb_node.Float32.Order.{f_lt_irrefl, f_lt_trans, f_lt-zero}
use aeb_node.Perception.{PerceptionConfig, SectorResult, norm_angle, no_return, nearer}
use aeb_node.Perception.Filters.{hits_sector}

-- Some element has a property.
abbrev pub Any : (ScanPoint → Type 0) → List ScanPoint → Type 0
Any P [] = ⊥
Any P (p ∷ points) = P p ⊎ Any P points

-- A hit, by `hits`, that the sector's result is about.
abbrev pub Shows : (ScanPoint → Bool) → SectorResult → ScanPoint → Type 0
Shows hits s p =
    (hits p ≡ true) × (s.nearest_distance_mm ≡ p.distance_mm) × (s.nearest_angle_deg ≡ norm_angle p)

abbrev pub NotNearer : (ScanPoint → Bool) → SectorResult → ScanPoint → Type 0
NotNearer hits s p = hits p ≡ true → f_lt p.distance_mm s.nearest_distance_mm ≡ false

-- -1.0 at 0 degrees without a hit, and else distance and angle of a hit than which none is nearer.
abbrev pub IsNearest : (ScanPoint → Bool) → List ScanPoint → SectorResult → Type 0
IsNearest hits points s =
    (All (λ p. hits p ≡ false) points
      × (s.nearest_distance_mm ≡ 0xbf80_0000)
      × (s.nearest_angle_deg ≡ f_zero))
    ⊎ (Any (Shows hits s) points × All (NotNearer hits s) points)

-- A distance that a hit may have.
abbrev pub IsDistance : ScanPoint → Type 0
IsDistance p = (no_return p ≡ false) × (is_nan p.distance_mm ≡ false)

distance_not_negative : (p : ScanPoint) → IsDistance p → f_lt p.distance_mm f_zero ≡ false
unfolding no_return
distance_not_negative p d = f_lt-zero p.distance_mm (d.0) (d.1)

taken : SectorResult → ScanPoint → SectorResult
taken s p = record s { nearest_distance_mm = p.distance_mm; nearest_angle_deg = norm_angle p }

nearer-taken :
    (s : SectorResult) (p : ScanPoint)
    → (f_lt p.distance_mm s.nearest_distance_mm || f_lt s.nearest_distance_mm f_zero) ≡ true
    → nearer s p ≡ taken s p
unfolding nearer taken
nearer-taken s p h = if-eq_of_true _ _ _ h refl

nearer-kept :
    (s : SectorResult) (p : ScanPoint)
    → (f_lt p.distance_mm s.nearest_distance_mm || f_lt s.nearest_distance_mm f_zero) ≡ false
    → nearer s p ≡ s
unfolding nearer
nearer-kept s p h = if-eq_of_false _ _ _ h refl

-- The nearest distance is negative before the first hit, and only then.
unset_negative :
    (s : SectorResult)
    → s.nearest_distance_mm ≡ 0xbf80_0000
    → f_lt s.nearest_distance_mm f_zero ≡ true
unfolding f_lt
unset_negative s e = ap (λ x. f_lt x f_zero) e

shown_not_negative :
    (hits : ScanPoint → Bool) (points : List ScanPoint) (s : SectorResult)
    → All (λ p. hits p ≡ true → IsDistance p) points
    → Any (Shows hits s) points
    → f_lt s.nearest_distance_mm f_zero ≡ false
shown_not_negative hits [] s d k = absurd k
shown_not_negative hits (p ∷ points) s d (inl (h, e, a)) =
    ap (λ x. f_lt x f_zero) e ∙ distance_not_negative p ((d.0) h)
shown_not_negative hits (p ∷ points) s d (inr k) = shown_not_negative hits points s (d.1) k

-- Nothing is nearer than itself, and a nearer point leaves the others behind.
NotNearer-taken :
    (hits : ScanPoint → Bool) (s : SectorResult) (p q : ScanPoint)
    → f_lt p.distance_mm s.nearest_distance_mm ≡ true
    → NotNearer hits s q
    → NotNearer hits (taken s p) q
unfolding taken
NotNearer-taken hits s p q lt n h = elim (Bool-cases (f_lt q.distance_mm p.distance_mm)) [
  | inl e ↦
      absurd
        (false≢true (sym (n h) ∙ f_lt_trans q.distance_mm p.distance_mm s.nearest_distance_mm e lt))
  | inr e ↦ e
]

All-NotNearer-taken :
    (hits : ScanPoint → Bool) (s : SectorResult) (p : ScanPoint) (points : List ScanPoint)
    → f_lt p.distance_mm s.nearest_distance_mm ≡ true
    → All (NotNearer hits s) points
    → All (NotNearer hits (taken s p)) points
All-NotNearer-taken hits s p [] lt n = tt
All-NotNearer-taken hits s p (q ∷ points) lt n =
    (NotNearer-taken hits s p q lt (n.0), All-NotNearer-taken hits s p points lt (n.1))

All-NotNearer_none :
    (hits : ScanPoint → Bool) (s : SectorResult) (points : List ScanPoint)
    → All (λ p. hits p ≡ false) points
    → All (NotNearer hits s) points
All-NotNearer_none hits s [] n = tt
All-NotNearer_none hits s (q ∷ points) n =
    ((λ h. absurd (false≢true (sym (n.0) ∙ h))), All-NotNearer_none hits s points (n.1))

IsNearest-taken :
    (hits : ScanPoint → Bool) (p : ScanPoint) (points : List ScanPoint) (s : SectorResult)
    → hits p ≡ true
    → All (NotNearer hits (taken s p)) points
    → IsNearest hits (p ∷ points) (taken s p)
unfolding taken
IsNearest-taken hits p points s h n =
    inr (inl (h, refl, refl), ((λ k. f_lt_irrefl p.distance_mm), n))

-- One more hit.
pub IsNearest-nearer :
    (hits : ScanPoint → Bool) (p : ScanPoint) (points : List ScanPoint) (s : SectorResult)
    → hits p ≡ true
    → All (λ p. hits p ≡ true → IsDistance p) points
    → IsNearest hits points s
    → IsNearest hits (p ∷ points) (nearer s p)
IsNearest-nearer hits p points s h d (inl (none_hit, unset, angle)) =
    subst (IsNearest hits (p ∷ points))
      (sym (nearer-taken s p (ground (arith, unset_negative s unset))))
      (IsNearest-taken hits p points s h (All-NotNearer_none hits (taken s p) points none_hit))
IsNearest-nearer hits p points s h d (inr (shown, n)) =
    let not_negative = shown_not_negative hits points s d shown in
    elim (Bool-cases (f_lt p.distance_mm s.nearest_distance_mm)) [
      | inl lt ↦
          subst (IsNearest hits (p ∷ points)) (sym (nearer-taken s p (ground (arith, lt))))
            (IsNearest-taken hits p points s h (All-NotNearer-taken hits s p points lt n))
      | inr ge ↦
          subst (IsNearest hits (p ∷ points))
            (sym (nearer-kept s p (ground (arith, ge, not_negative))))
            (inr (inr shown, ((λ k. ge), n)))
    ]

-- A point that is no hit.
pub IsNearest-other :
    (hits : ScanPoint → Bool) (p : ScanPoint) (points : List ScanPoint) (s : SectorResult)
    → hits p ≡ false
    → IsNearest hits points s
    → IsNearest hits (p ∷ points) s
IsNearest-other hits p points s h (inl (n, e, a)) = inl ((h, n), e, a)
IsNearest-other hits p points s h (inr (a, n)) =
    inr (inr a, ((λ k. absurd (false≢true (sym h ∙ k))), n))
