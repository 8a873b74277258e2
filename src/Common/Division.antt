-- ===== src/Common/Division.antt =====
-- Rounded division: bounds, monotonicity, and the comparison of two fractions.
use Prim.Native.Nat.{ℕ, ◌*◌, ◌/◌, ◌≤◌, ◌<◌}
use native.Mathlib.Omega.{arith}
use native.Mathlib.Nat.{
  div-mul-le_self, le-div_iff_mul-le, div-lt_iff_lt-mul, mul-le-mul_right, mul-le-mul_left,
  le_of_mul-le-mul_right,
}

pub le-div : {x n : ℕ} (y : ℕ) → 0 < y → x * y ≤ n → x ≤ n / y
le-div y h p = (le-div_iff_mul-le h).1 p

pub div-mul-le : (n y : ℕ) → n / y * y ≤ n
div-mul-le n y = div-mul-le_self n y

pub div-lt : {x n : ℕ} (y : ℕ) → 0 < y → n < x * y → n / y < x
div-lt y h p = (div-lt_iff_lt-mul h).1 p

pub div_mono : {m n : ℕ} (y : ℕ) → 0 < y → m ≤ n → m / y ≤ n / y
div_mono {m} {n} y h p = le-div y h (omega (arith, div-mul-le_self m y))

-- If p / q is at most r / s as a fraction, h shares at the first price are worth no more than at
-- the second, rounding included.
pub div_fraction_mono : (h p q r s : ℕ) → 0 < q → 0 < s → p * s ≤ r * q → h * p / q ≤ h * r / s
div_fraction_mono h p q r s hq hs e = le-div s hs (le_of_mul-le-mul_right chain hq)
  where
    chain : h * p / q * s * q ≤ h * r * q
    chain = omega (arith, mul-le-mul_right s (div-mul-le_self (h * p) q), mul-le-mul_left h e)
