-- ===== src/Rewards/Split.antt =====
-- The split of a subnet's rewards adds up.
use hypertensor_blockchain.Common.{ℕ, ◌+◌, ◌-◌, ◌≤◌, ◌≡◌, arith, min, u128_max}
use hypertensor_blockchain.Common.Map
use hypertensor_blockchain.Math.{percentage_factor, percent_mul}
use hypertensor_blockchain.Math.Exact.{percent_mul-le, percent_mul-eq-min}
use hypertensor_blockchain.Rewards.{
  RewardsParams, calculate_rewards, default_delegate_stake_rewards_percentage,
}

abbrev pub delegates_percentage : ℕ → RewardsParams → ℕ
delegates_percentage s p =
    Map.get_or default_delegate_stake_rewards_percentage s
      p.subnet_delegate_stake_rewards_percentage

percent_mul-le_max : (x y : ℕ) → x ≤ u128_max → y ≤ u128_max → percent_mul x y ≤ u128_max
percent_mul-le_max x y hx hy = omega (arith, (percent_mul-eq-min x y hx hy).0)

-- With an emission weight that is a u128, and percentages of the owner and of the delegators of at
-- most 100%: the owner's reward, the delegators' and the nodes' are the subnet's overall reward
-- together, no more and no less; and where the emission weight is at most 100%, that is no more
-- than the rewards of the network and of the subnet's capacitor together.
pub calculate_rewards_lem :
    (s rewards weight : ℕ) (p : RewardsParams)
    → weight ≤ u128_max
    → p.subnet_owner_percentage ≤ percentage_factor
    → delegates_percentage s p ≤ percentage_factor
    → let d = calculate_rewards s rewards weight p in
      (d.subnet_owner_reward + d.delegate_stake_rewards + d.subnet_node_rewards
        ≡ d.overall_subnet_reward)
      × (weight ≤ percentage_factor
          → d.overall_subnet_reward ≤ rewards + Map.get s p.rewards_capacitor)
unfolding calculate_rewards
calculate_rewards_lem s rewards weight p hw ho hd =
    let all = min (rewards + Map.get s p.rewards_capacitor) u128_max in
    let overall = percent_mul all weight in
    let fits = percent_mul-le_max all weight (omega arith) hw in
    let owner = percent_mul-le overall p.subnet_owner_percentage fits ho in
    let subnet = overall - percent_mul overall p.subnet_owner_percentage in
    let delegates = percent_mul-le subnet (delegates_percentage s p) (omega arith) hd in
    (omega arith, λ small. omega (arith, percent_mul-le all weight (omega arith) small))
