-- ===== src/Float32/Range.antt =====
-- Results of Float32 and Float32.Text as bit patterns of 32 bits.
use aeb_node.Prelude.{
  ℕ, ◌≤◌, ◌<◌, ◌*◌, ◌%◌, ◌^◌, Bool, not, ◌&&◌, ◌||◌, some, none, Holds, Holds-if, ltb,
  if◌then◌else◌, ◌==◌, arith,
}
use Prim.{tt}
use aeb_node.Prelude.Text.{Text}
use aeb_node.Float32.{Float32, infinity, quiet_nan, rounded, round_ratio, one_unit, with_sign}
use aeb_node.Float32.Text.{
  Number, no_number, infinite, not_a_number, fraction, stof, nearest, read_number, read_sign,
  skip_spaces,
}

abbrev pub IsFloat : Float32 → Type 0
IsFloat x = x < 2 ^ 32

at_most_infinity : (n : ℕ) → (if ltb n infinity then n else infinity) ≤ infinity
at_most_infinity n = ground arith

round_ratio-le_infinity : (num den : ℕ) → round_ratio num den ≤ infinity
unfolding round_ratio
round_ratio-le_infinity num den = at_most_infinity (rounded num den)

with_sign-IsFloat : (negative : Bool) (m : ℕ) → m < 2 ^ 31 → IsFloat (with_sign negative m)
with_sign-IsFloat negative m h = ground arith

nearest-IsFloat : (negative : Bool) (num den : ℕ) → Holds IsFloat (nearest negative num den)
unfolding nearest
nearest-IsFloat negative num den =
    let m = round_ratio (num * one_unit) den in
    Holds-if IsFloat (m == infinity || (ltb m 0x0080_0000 && not ((num * one_unit) % den == 0)))
      none (some (with_sign negative m)) (λ e. tt)
      (λ e.
        with_sign-IsFloat negative m (omega (arith, round_ratio-le_infinity (num * one_unit) den)))

pub stof-IsFloat : (t : Text) → Holds IsFloat (stof t)
unfolding stof
stof-IsFloat t = let (negative, s) = read_sign (skip_spaces t) in number negative (read_number s)
  where
    number :
        (negative : Bool) (n : Number)
        → Holds IsFloat (elim n [
          | no_number ↦ none
          | infinite ↦ some (with_sign negative infinity)
          | not_a_number ↦ some (with_sign negative quiet_nan)
          | fraction num den ↦ nearest negative num den
        ])
    number negative no_number = tt
    number negative infinite = with_sign-IsFloat negative infinity (omega arith)
    number negative not_a_number = with_sign-IsFloat negative quiet_nan (omega arith)
    number negative (fraction num den) = nearest-IsFloat negative num den
