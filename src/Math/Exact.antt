-- ===== src/Math/Exact.antt =====
-- The percentage operations against exact rational arithmetic, rounded down.
use native.Mathlib.Nat.{
  mul-le-mul, mul-le-mul_left, mul-le-mul_right, div-zero, lt-div-mul-add, mul-div_right,
}
use hypertensor_blockchain.Common.{
  ℕ, zero, suc, ◌+◌, ◌-◌, ◌*◌, ◌/◌, ◌≤◌, ◌<◌, min, ◌≡◌, refl, false, arith, ltb, ge→not_ltb,
  u128_max, u256_max,
}
use hypertensor_blockchain.Common.Division.{le-div, div-mul-le, div_mono}
use hypertensor_blockchain.Math.{
  percentage_factor, half_percent, percent_mul, percent_div, to_u128_or_max,
}

product_le : (x y : ℕ) → x ≤ u128_max → y ≤ u128_max → x * y ≤ u256_max - half_percent
product_le x y hx hy = omega (arith, mul-le-mul hx hy)

-- The overflow guard never fires on u128 arguments.
guard_false :
    (x y : ℕ) → 0 < y → x ≤ u128_max → y ≤ u128_max → ltb ((u256_max - half_percent) / y) x ≡ false
guard_false x y pos hx hy = ge→not_ltb _ _ (le-div y pos (product_le x y hx hy))

pub to_u128_or_max-eq-min : (n : ℕ) → to_u128_or_max n ≡ min n u128_max
to_u128_or_max-eq-min n = ground arith

-- On u128 arguments `percent_mul` is the product over 1e18, rounded down, and capped at the largest
-- u128; the branch that returns 0 on overflow is never taken, and the 256-bit product never
-- overflows.
pub percent_mul-eq-min :
    (x y : ℕ)
    → x ≤ u128_max
    → y ≤ u128_max
    → (percent_mul x y ≡ min (x * y / percentage_factor) u128_max) × (x * y ≤ u256_max)
unfolding percent_mul
percent_mul-eq-min zero y hx hy = (omega arith, omega arith)
percent_mul-eq-min (suc x) zero hx hy = (ground arith, omega arith)
percent_mul-eq-min (suc x) (suc y) hx hy =
    let in_range = guard_false (suc x) (suc y) (omega arith) hx hy in
    let fits = product_le (suc x) (suc y) hx hy in (ground (arith, in_range), omega arith)

-- On a u128 x, `percent_div` is x * 1e18 / y, rounded down and capped at the largest u128 (a
-- division by 0 is 0); the 256-bit product never overflows.
pub percent_div-eq-min :
    (x y : ℕ)
    → x ≤ u128_max
    → (percent_div x y ≡ min (x * percentage_factor / y) u128_max)
      × (x * percentage_factor ≤ u256_max)
unfolding percent_div
percent_div-eq-min zero y hx = (omega arith, omega arith)
percent_div-eq-min (suc x) zero hx =
    (ground (arith, div-zero (suc x * percentage_factor)), omega arith)
percent_div-eq-min (suc x) (suc y) hx = (ground arith, omega arith)

-- On u128 arguments `percent_mul` and `percent_div` are x * y / 1e18 and x * 1e18 / y, rounded down
-- and capped at the largest u128 (a division by 0 is 0); the branch of `percent_mul` that returns 0
-- on overflow is never taken, and neither 256-bit product overflows.
pub percents-eq-min :
    (x y : ℕ)
    → x ≤ u128_max
    → y ≤ u128_max
    → (percent_mul x y ≡ min (x * y / percentage_factor) u128_max)
      × (percent_div x y ≡ min (x * percentage_factor / y) u128_max)
      × (x * y ≤ u256_max)
      × (x * percentage_factor ≤ u256_max)
percents-eq-min x y hx hy =
    let (mul, mul_fits) = percent_mul-eq-min x y hx hy in
    let (div, div_fits) = percent_div-eq-min x y hx in (mul, div, mul_fits, div_fits)

-- A share of at most 100% of a u128 is no more than the whole.
pub percent_mul-le : (x y : ℕ) → x ≤ u128_max → y ≤ percentage_factor → percent_mul x y ≤ x
percent_mul-le x y hx hy =
    let exact = (percent_mul-eq-min x y hx (omega arith)).0 in
    omega (arith, exact, mul-le-mul_left x hy, div-mul-le (x * y) percentage_factor)

-- A larger value or a larger percentage never gives less.
pub percent_mul_mono :
    (x x' y y' : ℕ)
    → x ≤ x'
    → y ≤ y'
    → x' ≤ u128_max
    → y' ≤ u128_max
    → percent_mul x y ≤ percent_mul x' y'
percent_mul_mono x x' y y' hx hy bx by =
    let small = (percent_mul-eq-min x y (omega arith) (omega arith)).0 in
    let large = (percent_mul-eq-min x' y' bx by).0 in
    let step : x * y / percentage_factor ≤ x' * y' / percentage_factor =
      div_mono percentage_factor (omega arith) (mul-le-mul hx hy) in
    omega (arith, small, large)

percent_div_zero : (x : ℕ) → percent_div x 0 ≡ 0
unfolding percent_div
percent_div_zero zero = refl
percent_div_zero (suc x) = ground arith

pub percent_div_mono : (x x' y : ℕ) → x ≤ x' → x' ≤ u128_max → percent_div x y ≤ percent_div x' y
percent_div_mono x x' zero hx bx = rw (percent_div_zero x, percent_div_zero x') (omega arith)
percent_div_mono x x' (suc y) hx bx =
    let small = (percent_div-eq-min x (suc y) (omega arith)).0 in
    let large = (percent_div-eq-min x' (suc y) bx).0 in
    let step : x * percentage_factor / suc y ≤ x' * percentage_factor / suc y =
      div_mono (suc y) (omega arith) (mul-le-mul_right percentage_factor hx) in
    omega (arith, small, large)

-- Taking the ratio x / y of y gives x back, up to one unit of rounding, where x is at most y, and y
-- is above 0 and no more than 1e18.
pub percent_mul-percent_div :
    (x y : ℕ)
    → x ≤ y
    → 0 < y
    → y ≤ percentage_factor
    → (percent_mul y (percent_div x y) ≤ x) × (x ≤ percent_mul y (percent_div x y) + 1)
percent_mul-percent_div x y hx pos hy =
    let d = percent_div x y in
    let scaled : x * percentage_factor / y ≤ percentage_factor =
      omega (arith, div_mono y pos (mul-le-mul_right percentage_factor hx), full) in
    let exact : d ≡ x * percentage_factor / y =
      omega (arith, (percent_div-eq-min x y (omega arith)).0) in
    let part = (percent_mul-eq-min y d (omega arith) (omega arith)).0 in
    let low : d * y ≤ x * percentage_factor = rw exact (div-mul-le (x * percentage_factor) y) in
    let high : x * percentage_factor < d * y + y =
      rw exact (lt-div-mul-add {a = x * percentage_factor} pos) in
    let up : y * d / percentage_factor ≤ x = omega arith in
    let down : x ≤ y * d / percentage_factor + 1 = omega arith in omega arith
  where
    full : y * percentage_factor / y ≡ percentage_factor
    full = mul-div_right percentage_factor pos
