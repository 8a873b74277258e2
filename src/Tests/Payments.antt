-- ===== src/Tests/Payments.antt =====
-- The split of rewards and their payment.
use hypertensor_blockchain.Common.{◌+◌, ◌*◌, ◌^◌, ◌≤◌, ◌≡◌, [], ◌∷◌, some, arith}
use hypertensor_blockchain.Common.Map
use hypertensor_blockchain.Math.{percentage_factor}
use hypertensor_blockchain.NodeStake.Totals.{IsTotalled}
use hypertensor_blockchain.Rewards.{RewardsParams, Recipient, Payees, calculate_rewards, pay_node}
use hypertensor_blockchain.Rewards.Split.{calculate_rewards_lem}
use hypertensor_blockchain.Rewards.Shares.{rewards_sum, node_rewards_lem}
use hypertensor_blockchain.Rewards.Payout.{payees_sum, pay_node_lem}
use hypertensor_blockchain.Tests.Chain.{pools}
use hypertensor_blockchain.Tests.Network.{stake, stake-IsTotalled}

abbrev split_params : RewardsParams
split_params = record {
  rewards_capacitor = (1, 500) ∷ [];
  subnet_owner_percentage = 10 ^ 17;
  subnet_delegate_stake_rewards_percentage = [];
}

calculate_rewards_example :
    let d = calculate_rewards 1 1000000 (5 * 10 ^ 17) split_params in
    (d.subnet_owner_reward + d.delegate_stake_rewards + d.subnet_node_rewards
      ≡ d.overall_subnet_reward)
    × (5 * 10 ^ 17 ≤ percentage_factor → d.overall_subnet_reward ≤ 1000000 + 500)
unfolding Map.lookup
calculate_rewards_example =
    calculate_rewards_lem 1 1000000 (5 * 10 ^ 17) split_params (omega arith) (omega arith)
      (omega arith)

-- Two nodes with scores 30 and 60 of 100.
node_rewards_example :
    rewards_sum 100 1000000 ((30, percentage_factor) ∷ (60, 5 * 10 ^ 17) ∷ []) ≤ 1000000
node_rewards_example =
    node_rewards_lem 100 1000000 (omega arith) (omega arith) (omega arith)
      ((30, percentage_factor) ∷ (60, 5 * 10 ^ 17) ∷ []) (omega arith)
      (omega arith, (omega arith, tt))

abbrev payees : Payees
payees = record {
  node_stake = stake;
  validator_pools = pools;
  delegate_accounts = record { balance_of = []; total_of = 0 };
}

abbrev recipient : Recipient
recipient = record {
  validator_id = 1;
  delegate_reward_rate = 10 ^ 17;
  delegate_account = some (record { account_id = 5; rate = 2 * 10 ^ 17 });
}

pay_node_example :
    let y' = pay_node 1 2 10000 (some recipient) payees in
    (payees_sum y' ≡ payees_sum payees + 10000) × IsTotalled y'.node_stake
pay_node_example =
    pay_node_lem 1 2 10000 (some recipient) payees (omega arith, omega arith) stake-IsTotalled
      (omega arith)
