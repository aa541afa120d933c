-- ===== src/Prelude/Bits.antt =====
-- `|` and `&` at variables, and the powers of two that shifts by whole bytes go by.
use Prim.Native.Nat.{
  ℕ, zero, suc, ◌+◌, ◌-◌, ◌*◌, ◌/◌, ◌%◌, ◌^◌, ◌≤◌, ◌<◌, min, max, digits, bit_and, bit_or,
  bit_and-bitwise, bit_or-bitwise,
}
use mathlib.Core.Path.{◌≡◌, refl, ap, sym, ◌∙◌}
use native.Mathlib.Nat.{pow-suc}
use native.Mathlib.Numerals.{towards_suc, add-one}
use native.Mathlib.Omega.{arith}

-- The recursion on binary digits that a native operation stands for does not depend on its fuel.
module _ (z : ℕ → ℕ) (f : ℕ → ℕ → ℕ) where
  digits_any_fuel : (k l a b : ℕ) → a ≤ k → a ≤ l → digits z f k a b ≡ digits z f l a b
  digits_any_fuel zero zero a b p q = refl
  digits_any_fuel zero (suc l) zero b p q = refl
  digits_any_fuel zero (suc l) (suc a) b p q = absurd (omega arith)
  digits_any_fuel (suc k) zero zero b p q = refl
  digits_any_fuel (suc k) zero (suc a) b p q = absurd (omega arith)
  digits_any_fuel (suc k) (suc l) zero b p q = refl
  digits_any_fuel (suc k) (suc l) (suc a) b p q =
      omega (arith, digits_any_fuel k l (suc a / 2) (b / 2) (omega arith) (omega arith))

zero-bit_or : (b : ℕ) → bit_or 0 b ≡ b
zero-bit_or b = bit_or-bitwise 0 b

zero-bit_and : (b : ℕ) → bit_and 0 b ≡ 0
zero-bit_and b = bit_and-bitwise 0 b

pub bit_or_halve : (a b : ℕ) → bit_or a b ≡ bit_or (a / 2) (b / 2) * 2 + max (a % 2) (b % 2)
bit_or_halve zero b = omega (arith, zero-bit_or b, zero-bit_or (b / 2))
bit_or_halve (suc a) b = omega (
  arith,
  bit_or-bitwise (suc a) b,
  bit_or-bitwise (suc a / 2) (b / 2),
  digits_any_fuel (λ b. b) max a (suc a / 2) (suc a / 2) (b / 2) (omega arith) (omega arith),
)

pub bit_and_halve : (a b : ℕ) → bit_and a b ≡ bit_and (a / 2) (b / 2) * 2 + min (a % 2) (b % 2)
bit_and_halve zero b = omega (arith, zero-bit_and b, zero-bit_and (b / 2))
bit_and_halve (suc a) b = omega (
  arith,
  bit_and-bitwise (suc a) b,
  bit_and-bitwise (suc a / 2) (b / 2),
  digits_any_fuel (λ b. zero) min a (suc a / 2) (suc a / 2) (b / 2) (omega arith) (omega arith),
)

mul-pow-suc : (b s : ℕ) → b * 2 ^ suc s ≡ b * 2 ^ s * 2
mul-pow-suc b s = omega (arith, ap (λ (t : ℕ). b * t) (pow-suc 2 s))

-- `a | (b << s)` is a sum when `a` has no bit at `s` or above.
pub bit_or_shifted : (s a b : ℕ) → a < 2 ^ s → bit_or a (b * 2 ^ s) ≡ a + b * 2 ^ s
bit_or_shifted zero a b h = ground (arith, zero-bit_or b)
bit_or_shifted (suc s) a b h = ground (
  arith,
  pow-suc 2 s,
  mul-pow-suc b s,
  bit_or_halve a (b * 2 ^ suc s),
  bit_or_shifted s (a / 2) b (omega (arith, pow-suc 2 s)),
)

-- `&` with a mask of ones keeps a number that the mask covers.
pub bit_and_ones : (s a : ℕ) → a < 2 ^ s → bit_and a (2 ^ s - 1) ≡ a
bit_and_ones zero a h = ground (arith, zero-bit_and 0)
bit_and_ones (suc s) a h = ground (
  arith,
  pow-suc 2 s,
  bit_and_halve a (2 ^ suc s - 1),
  bit_and_ones s (a / 2) (omega (arith, pow-suc 2 s)),
)

-- One more octet multiplies the place value by 256.
pub two-pow-octet : (i : ℕ) → 2 ^ (8 * (i + 1)) ≡ 256 * 2 ^ (8 * i)
two-pow-octet i = rw (split i) (simp towards_suc (omega arith))
  where
    split : (i : ℕ) → 8 * (i + 1) ≡ 8 * i + 8
    split i = omega arith

pub two-pow-octet_suc : (i : ℕ) → 2 ^ (8 * suc i) ≡ 256 * 2 ^ (8 * i)
two-pow-octet_suc i = ap (λ k. 2 ^ (8 * k)) (sym (add-one i)) ∙ two-pow-octet i
