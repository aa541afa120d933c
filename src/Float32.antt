-- ===== src/Float32.antt =====
-- The C++ type `float`, IEEE-754 binary32 with rounding to nearest, ties to even.
-- A float is its bit pattern, a number below 2 ^ 32. A finite one is a whole number of units of
-- 2 ^ -149, so the results of an operation are exact fractions of such units, rounded once.
pub mod Text
pub mod Range
pub mod Order
mod Tests
use aeb_node.Prelude.{
  ℕ, zero, suc, ◌+◌, ◌-◌, ◌*◌, ◌/◌, ◌%◌, ◌^◌, Bool, true, false, not, ◌&&◌, ◌||◌, Option, none,
  some, ltb, leb, ◌==◌, if◌then◌else◌,
}
use aeb_node.Prelude.Int.{ℤ, pos, negsuc, sub_ℕ, ltb_ℤ, pos_part, neg_part}

abbrev pub Float32 : Type 0
Float32 = ℕ

abbrev sign_bit : ℕ
sign_bit = 0x8000_0000

abbrev pub infinity : ℕ
infinity = 0x7f80_0000

abbrev pub quiet_nan : ℕ
quiet_nan = 0x7fc0_0000

abbrev pub f_zero : Float32
f_zero = 0

abbrev differ : Bool → Bool → Bool
differ a b = if a then not b else b

-- The pattern without its sign bit.
abbrev magnitude : Float32 → ℕ
magnitude x = x % sign_bit

abbrev is_negative : Float32 → Bool
is_negative x = leb sign_bit x

unfoldable pub is_nan : Float32 → Bool
is_nan x = ltb infinity (magnitude x)

is_infinite : Float32 → Bool
is_infinite x = magnitude x == infinity

-- Patterns of one sign are ordered as their magnitudes are.
abbrev order_key : Float32 → ℤ
order_key x = if is_negative x then sub_ℕ 0 (magnitude x) else pos (magnitude x)

-- `x < y`
unfoldable pub f_lt : Float32 → Float32 → Bool
unfolding is_nan
f_lt x y = not (is_nan x) && not (is_nan y) && ltb_ℤ (order_key x) (order_key y)

-- `x <= y`
unfoldable pub f_le : Float32 → Float32 → Bool
unfolding is_nan
f_le x y = not (is_nan x) && not (is_nan y) && not (ltb_ℤ (order_key y) (order_key x))

-- How many units of 2 ^ -149 a finite float is, its sign aside.
units : Float32 → ℕ
units x =
    let exponent = magnitude x / 2 ^ 23 in
    let fraction = magnitude x % 2 ^ 23 in
    if exponent == 0 then fraction else (2 ^ 23 + fraction) * 2 ^ (exponent - 1)

unfoldable pub one_unit : ℕ
one_unit = 2 ^ 149

-- The least k from `k` on at which `num / den` has at most 24 bits above 2 ^ k.
scale : ℕ → ℕ → ℕ → ℕ → ℕ
scale zero num den k = k
scale (suc fuel) num den k =
    let rest = scale fuel num den (k + 1) in if ltb num (2 ^ 24 * den * 2 ^ k) then k else rest

-- The pattern of the float nearest to `num / den` units, if there is one: a carry out of the fraction
-- runs on into the exponent, and from there to infinity and past it. No quotient of two floats needs a
-- scale above 448.
unfoldable pub rounded : ℕ → ℕ → ℕ
unfolding scale
rounded num den =
    let k = scale 448 num den 0 in
    let step = den * 2 ^ k in
    let q = num / step in
    let r = num % step in
    let up = ltb step (2 * r) || (2 * r == step && q % 2 == 1) in
    (if up then q + 1 else q) + k * 2 ^ 23

-- The magnitude of that float.
unfoldable pub round_ratio : ℕ → ℕ → ℕ
unfolding rounded
round_ratio num den = let bits = rounded num den in if ltb bits infinity then bits else infinity

abbrev pub with_sign : Bool → ℕ → Float32
with_sign negative m = if negative then sign_bit + m else m

signed_units : Float32 → ℤ
unfolding units
signed_units x = if is_negative x then sub_ℕ 0 (units x) else pos (units x)

-- The float nearest to `a - b` units; `zero_sign` is the sign that an exact zero takes.
difference : Bool → ℤ → ℤ → Float32
unfolding round_ratio
difference zero_sign a b =
    let up = pos_part a + neg_part b in
    let down = pos_part b + neg_part a in
    if up == down
    then with_sign zero_sign 0
    else if ltb down up
    then round_ratio (up - down) 1
    else with_sign true (round_ratio (down - up) 1)

-- `x - y`
unfoldable pub f_sub : Float32 → Float32 → Float32
unfolding is_nan is_infinite signed_units difference
f_sub x y =
    if is_nan x || is_nan y
    then quiet_nan
    else if is_infinite x
    then (if is_infinite y && not (differ (is_negative x) (is_negative y)) then quiet_nan else x)
    else if is_infinite y
    then with_sign (not (is_negative y)) infinity
    else difference (is_negative x && not (is_negative y)) (signed_units x) (signed_units y)

-- `x * y`
unfoldable pub f_mul : Float32 → Float32 → Float32
unfolding is_nan is_infinite units round_ratio one_unit
f_mul x y =
    let negative = differ (is_negative x) (is_negative y) in
    if is_nan x || is_nan y
    then quiet_nan
    else if is_infinite x || is_infinite y
    then (if units x == 0 || units y == 0 then quiet_nan else with_sign negative infinity)
    else with_sign negative (round_ratio (units x * units y) one_unit)

-- `x / y`
unfoldable pub f_div : Float32 → Float32 → Float32
unfolding is_nan is_infinite units round_ratio one_unit
f_div x y =
    let negative = differ (is_negative x) (is_negative y) in
    if is_nan x || is_nan y
    then quiet_nan
    else if is_infinite x
    then (if is_infinite y then quiet_nan else with_sign negative infinity)
    else if is_infinite y
    then with_sign negative 0
    else if units y == 0
    then (if units x == 0 then quiet_nan else with_sign negative infinity)
    else with_sign negative (round_ratio (units x * one_unit) (units y))

-- `static_cast<float>(n)` of an unsigned integer
unfoldable pub f_of_unsigned : ℕ → Float32
unfolding round_ratio one_unit
f_of_unsigned n = round_ratio (n * one_unit) 1

-- `static_cast<int>(x)` drops the fraction. `none`: the value does not fit, which C++ leaves undefined.
unfoldable pub f_to_int : Float32 → Option ℤ
unfolding is_nan is_infinite units one_unit
f_to_int x =
    let whole = units x / one_unit in
    if is_nan x || is_infinite x
    then none
    else if is_negative x
    then (if leb whole (2 ^ 31) then some (sub_ℕ 0 whole) else none)
    else if ltb whole (2 ^ 31)
    then some (pos whole)
    else none
