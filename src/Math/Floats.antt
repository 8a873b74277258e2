-- ===== src/Math/Floats.antt =====
-- The floating-point part of pallets/network/src/utilities/math.rs. The type `f64` with its
-- operations, and `exp` and `pow` of libm, are a parameter.
use hypertensor_blockchain.Common.{ℕ, ◌^◌, Bool, if◌then◌else◌}
use hypertensor_blockchain.Math.{percentage_factor}

pub record Floats (F : Type 0) : Type 0 where
  -- `n as f64`, and `x as u128`, which cuts the decimals and stops at the ends of u128
  pub of_u128 : ℕ → F
  pub as_u128 : F → ℕ
  pub add : F → F → F
  pub sub : F → F → F
  pub mul : F → F → F
  pub div : F → F → F
  pub abs : F → F
  pub lt : F → F → Bool
  pub le : F → F → Bool
  pub pow : F → F → F
  pub exp : F → F

module _ {F : Type 0} (floats : Floats F) where
  abbrev pub zero_f64 : F
  zero_f64 = floats.of_u128 0

  abbrev pub one_f64 : F
  one_f64 = floats.of_u128 1

  abbrev pub percentage_factor_as_f64 : F
  percentage_factor_as_f64 = floats.of_u128 (10 ^ 18)

  unfoldable pub get_percent_as_f64 : ℕ → F
  get_percent_as_f64 v = floats.div (floats.of_u128 v) (floats.of_u128 percentage_factor)

  unfoldable pub get_f64_as_percentage : F → ℕ
  get_f64_as_percentage v = floats.as_u128 (floats.mul v percentage_factor_as_f64)

  -- `f64::clamp`
  abbrev pub clamp : F → F → F → F
  clamp x low high = if floats.lt x low then low else if floats.lt high x then high else x

  unfoldable pub sigmoid_decreasing : F → F → F → F → F → F
  sigmoid_decreasing x mid k low high =
      let c = floats.abs (floats.sub x mid) in
      let e = floats.exp (floats.mul k c) in
      let sigmoid =
        if floats.lt mid x
        then floats.div one_f64 (floats.add one_f64 e)
        else floats.div e (floats.add one_f64 e) in
      clamp sigmoid low high

  unfoldable pub concave_down_decreasing : F → F → F → F → F
  concave_down_decreasing x low high power =
      let p = if floats.le power zero_f64 then one_f64 else power in
      let curve = floats.sub one_f64 (floats.pow x p) in
      clamp (floats.add low (floats.mul (floats.sub high low) curve)) low high
