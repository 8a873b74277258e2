-- ===== src/Math.antt =====
-- The integer part of pallets/network/src/utilities/math.rs: percentages with eighteen decimals,
-- computed in 256 bits. U256 products that are not checked panic when they overflow; the model
-- writes the exact product, and `Math.Exact` shows where it stays below 2 ^ 256.
use hypertensor_blockchain.Common.{
  ℕ, ◌+◌, ◌-◌, ◌*◌, ◌/◌, ◌^◌, Bool, Option, none, some, ◌||◌, ltb, leb, ◌==◌, if◌then◌else◌,
  u128_max, u256_max,
}
pub mod Exact
pub mod Floats

-- `PERCENTAGE_FACTOR` and `percentage_factor_as_u128`: 1e18 stands for 1.0
abbrev pub percentage_factor : ℕ
percentage_factor = 10 ^ 18

-- `HALF_PERCENT`
abbrev pub half_percent : ℕ
half_percent = 5 * 10 ^ 17

-- `result.try_into().unwrap_or(u128::MAX)`
abbrev pub to_u128_or_max : ℕ → ℕ
to_u128_or_max n = if leb n u128_max then n else u128_max

unfoldable pub percent_mul : ℕ → ℕ → ℕ
percent_mul x y =
    if x == 0 || y == 0
    then 0
    else if ltb ((u256_max - half_percent) / y) x
    then 0
    else let result = x * y / percentage_factor in
      if ltb u128_max result then u128_max else to_u128_or_max result

unfoldable pub percent_div : ℕ → ℕ → ℕ
percent_div x y = if x == 0 || y == 0 then 0 else to_u128_or_max (x * percentage_factor / y)

-- `U256::checked_mul`
abbrev pub checked_mul : ℕ → ℕ → Option ℕ
checked_mul x y = if leb (x * y) u256_max then some (x * y) else none

unfoldable pub checked_mul_div : ℕ → ℕ → ℕ → Option ℕ
checked_mul_div x y z =
    if z == 0 then none else elim (checked_mul x y) [ none ↦ none | some p ↦ some (p / z) ]
