-- ===== src/Float32/Order.antt =====
-- The order of floats.
use aeb_node.Prelude.{◌≡◌, refl, sym, ap, Bool, true, false, not, ◌&&◌, arith}
use mathlib.Core.Bool.{false≢true}
use aeb_node.Prelude.Int.{ℤ, ltb_ℤ}
use aeb_node.Float32.{Float32, is_nan, f_zero, f_lt, f_le, order_key}

ltb_ℤ_irrefl : (a : ℤ) → ltb_ℤ a a ≡ false
ltb_ℤ_irrefl a = ground arith

ltb_ℤ_trans : (a b c : ℤ) → ltb_ℤ a b ≡ true → ltb_ℤ b c ≡ true → ltb_ℤ a c ≡ true
ltb_ℤ_trans a b c p q = ground arith

ltb_ℤ_asymm : (a b : ℤ) → ltb_ℤ a b ≡ true → ltb_ℤ b a ≡ false
ltb_ℤ_asymm a b p = ground arith

-- The parts of a conjunction, and a conjunction of parts.
both_parts : (a b c : Bool) → (a && b && c) ≡ true → (a ≡ true) × (b ≡ true) × (c ≡ true)
both_parts true true true e = (refl, refl, refl)
both_parts true true false e = absurd (false≢true e)
both_parts true false c e = absurd (false≢true e)
both_parts false b c e = absurd (false≢true e)

conjunction : (a b c : Bool) → a ≡ true → b ≡ true → c ≡ true → (a && b && c) ≡ true
conjunction a b c p q r = ground (arith, p, q, r)

refuted : (a b c : Bool) → c ≡ false → (a && b && c) ≡ false
refuted a b c r = ground (arith, r)

pub f_lt_irrefl : (x : Float32) → f_lt x x ≡ false
unfolding f_lt
f_lt_irrefl x =
    refuted (not (is_nan x)) (not (is_nan x)) (ltb_ℤ (order_key x) (order_key x))
      (ltb_ℤ_irrefl (order_key x))

pub f_lt_trans : (x y z : Float32) → f_lt x y ≡ true → f_lt y z ≡ true → f_lt x z ≡ true
unfolding f_lt
f_lt_trans x y z p q =
    let (x_num, y_num, xy) =
      both_parts (not (is_nan x)) (not (is_nan y)) (ltb_ℤ (order_key x) (order_key y)) p in
    let (y_num', z_num, yz) =
      both_parts (not (is_nan y)) (not (is_nan z)) (ltb_ℤ (order_key y) (order_key z)) q in
    conjunction (not (is_nan x)) (not (is_nan z)) (ltb_ℤ (order_key x) (order_key z)) x_num z_num
      (ltb_ℤ_trans (order_key x) (order_key y) (order_key z) xy yz)

above_zero : (a b c : Bool) → (a && b && not c) ≡ false → a ≡ true → b ≡ true → c ≡ true
above_zero true true true e p q = refl
above_zero true true false e p q = absurd (false≢true (sym e))
above_zero true false c e p q = absurd (false≢true q)
above_zero false b c e p q = absurd (false≢true p)

-- A number that is not at most zero is not below it.
pub f_lt-zero : (x : Float32) → f_le x f_zero ≡ false → is_nan x ≡ false → f_lt x f_zero ≡ false
unfolding f_lt f_le
f_lt-zero x p q =
    refuted (not (is_nan x)) (not (is_nan f_zero)) (ltb_ℤ (order_key x) (order_key f_zero)) (
      ltb_ℤ_asymm (order_key f_zero) (order_key x) (
        above_zero (not (is_nan x)) (not (is_nan f_zero)) (ltb_ℤ (order_key f_zero) (order_key x)) p
          (ap not q) refl))
