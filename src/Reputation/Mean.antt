-- ===== src/Reputation/Mean.antt =====
-- The mean of a validator's attestation ratios (`next_average`, a part of
-- pallets/network/src/utilities/reputation.rs).
use native.Mathlib.Nat.{mul-le-mul, mul-le-mul_right, div-one}
use hypertensor_blockchain.Common.{
  ℕ, zero, suc, ◌+◌, ◌-◌, ◌*◌, ◌/◌, ◌≤◌, ◌<◌, ◌≡◌, arith, u32_max, min, max, subst, sym,
}
use hypertensor_blockchain.Common.Division.{le-div, div-lt}
use hypertensor_blockchain.Epochs.Progress.{epoch_blocks}
use hypertensor_blockchain.Math.{percentage_factor}
use hypertensor_blockchain.Reputation.{next_average}

-- Below the caps of u32 and u128, the mean is a division.
next_average-eq :
    (average i d a t : ℕ)
    → average ≤ percentage_factor
    → a ≤ percentage_factor
    → i + d ≡ t + 1
    → t + 1 ≤ u32_max
    → next_average average i d a ≡ (average * t + a) / (t + 1)
unfolding next_average
next_average-eq average i d a zero ha hb e fits = ground (arith, div-one a)
next_average-eq average i d a (suc t) ha hb e fits =
    let big : average * suc t ≤ percentage_factor * u32_max =
      mul-le-mul {m₂ = u32_max} ha (omega arith) in
    let total : min (i + d) u32_max - 1 ≡ suc t = omega arith in rw total (ground arith)

-- For a mean and a ratio of at most 100%, and counts that are not both 0 and fit in a u32 together:
-- the new mean is the mean of all ratios, rounded down, and lies between the old mean and the
-- ratio.
pub next_average_lem :
    (average increases decreases a : ℕ)
    → average ≤ percentage_factor
    → a ≤ percentage_factor
    → 0 < increases + decreases
    → increases + decreases ≤ u32_max
    → let total = increases + decreases in
      let average' = next_average average increases decreases a in
      (average' * total ≤ average * (total - 1) + a)
      × (average * (total - 1) + a < (average' + 1) * total)
      × (min average a ≤ average')
      × (average' ≤ max average a)
next_average_lem average i d a ha hb pos fits =
    let t = i + d - 1 in
    let whole : i + d ≡ t + 1 = omega arith in
    let value = next_average-eq average i d a t ha hb whole (omega arith) in
    let blocks = epoch_blocks (average * t + a) (t + 1) (omega arith) in
    let low : min average a * t ≤ average * t = mul-le-mul_right t (omega arith) in
    let high : average * t ≤ max average a * t = mul-le-mul_right t (omega arith) in
    let above = le-div {x = min average a} {n = average * t + a} (t + 1) (omega arith) in
    let below = div-lt {x = max average a + 1} {n = average * t + a} (t + 1) (omega arith) in
    rw value (
      subst (λ n. (average * t + a) / (t + 1) * n ≤ average * t + a) (sym whole) blocks.0,
      subst (λ n. average * t + a < ((average * t + a) / (t + 1) + 1) * n) (sym whole) blocks.1,
      above (omega (arith, low)),
      omega (arith, below (omega (arith, high))),
    )
