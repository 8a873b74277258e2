-- ===== src/Rewards/Shares.antt =====
-- The rewards of the nodes by their scores are no more than what the subnet has for its nodes.
use native.Mathlib.Nat.{mul-le-mul_right, le_of_mul-le-mul_right}
use hypertensor_blockchain.Common.{ℕ, ◌+◌, ◌*◌, ◌/◌, ◌≤◌, ◌<◌, List, [], ◌∷◌, arith, u128_max}
use hypertensor_blockchain.Common.Lists.{All}
use hypertensor_blockchain.Common.Division.{div-mul-le}
use hypertensor_blockchain.Math.{percentage_factor, percent_mul, percent_div}
use hypertensor_blockchain.Math.Exact.{percent_mul-le, percent_mul-eq-min, percent_div-eq-min}
use hypertensor_blockchain.Rewards.{node_reward}

-- The rewards of the nodes with these scores and reward factors.
abbrev pub rewards_sum : ℕ → ℕ → List (ℕ × ℕ) → ℕ
rewards_sum weight_sum rewards [] = 0
rewards_sum weight_sum rewards (e ∷ es) =
    node_reward e.0 weight_sum rewards e.1 + rewards_sum weight_sum rewards es

abbrev pub scores_sum : List (ℕ × ℕ) → ℕ
scores_sum [] = 0
scores_sum (e ∷ es) = e.0 + scores_sum es

module _ (weight_sum rewards : ℕ) (pos : 0 < weight_sum) (fits : weight_sum ≤ u128_max)
    (rewards_fit : rewards ≤ u128_max) where
  -- A node's share, against its exact share of the rewards.
  node_reward-le :
      (score factor : ℕ)
      → score ≤ weight_sum
      → factor ≤ percentage_factor
      → node_reward score weight_sum rewards factor * weight_sum ≤ score * rewards
  unfolding node_reward
  node_reward-le score factor small part =
      let w = percent_div score weight_sum in
      let r = percent_mul w rewards in
      let ratio = (percent_div-eq-min score weight_sum (omega arith)).0 in
      let exact = (percent_mul-eq-min w rewards (omega arith) rewards_fit).0 in
      let cut = percent_mul-le r factor (omega arith) part in
      let below : w ≤ score * percentage_factor / weight_sum = omega arith in
      let up : w * weight_sum ≤ score * percentage_factor = omega (
        arith,
        mul-le-mul_right weight_sum below,
        div-mul-le (score * percentage_factor) weight_sum,
      ) in
      let low : r * percentage_factor ≤ w * rewards =
        omega (arith, div-mul-le (w * rewards) percentage_factor) in
      omega (
        arith,
        mul-le-mul_right weight_sum cut,
        mul-le-mul_right weight_sum low,
        mul-le-mul_right rewards up,
      )

  rewards_sum-le :
      (es : List (ℕ × ℕ))
      → scores_sum es ≤ weight_sum
      → All (λ e. e.1 ≤ percentage_factor) es
      → rewards_sum weight_sum rewards es * weight_sum ≤ scores_sum es * rewards
  rewards_sum-le [] h parts = omega arith
  rewards_sum-le (e ∷ es) h (part, parts) =
      omega
        (arith, node_reward-le e.0 e.1 (omega arith) part, rewards_sum-le es (omega arith) parts)

  -- Where the sum of the weights is above 0 and a u128, the nodes' rewards are a u128, and every
  -- reward factor is at most 100%: nodes whose scores add up to no more than the sum of the weights
  -- are paid no more than the nodes' rewards together.
  pub node_rewards_lem :
      (es : List (ℕ × ℕ))
      → scores_sum es ≤ weight_sum
      → All (λ e. e.1 ≤ percentage_factor) es
      → rewards_sum weight_sum rewards es ≤ rewards
  node_rewards_lem es h parts =
      le_of_mul-le-mul_right (omega (arith, rewards_sum-le es h parts, mul-le-mul_right rewards h))
        pos
