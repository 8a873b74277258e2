-- ===== src/Rewards.antt =====
-- Rewards: the split of a subnet's rewards (pallets/network/src/utilities/slot.rs), and of a node's
-- reward between its validator's delegators, a delegate account and the node's stake
-- (pallets/network/src/bank/rewards.rs). Weights and events are left out.
use hypertensor_blockchain.Common.{
  ℕ, Bool, Option, none, some, List, ◌==◌, ltb, leb, if◌then◌else◌, ◌&&◌, saturating_add,
  saturating_sub, saturating_add_u32, add_u32,
}
use hypertensor_blockchain.Common.Map
use hypertensor_blockchain.Common.Map.{Map}
use hypertensor_blockchain.Math.{percentage_factor, percent_mul, percent_div}
use hypertensor_blockchain.State.{NodeStake, Pools, Balances, lookup_double, insert_at, remove_at}
use hypertensor_blockchain.NodeStake.{increase_node_stake}
use hypertensor_blockchain.Pools.{shares_in, donate}
use hypertensor_blockchain.DelegateAccount.{increase_delegate_account_balance}
use hypertensor_blockchain.Nodes.{Nodes, EmergencySubnetValidatorData}
use hypertensor_blockchain.Nodes.Removal.{graduate_class, graduate_to_validator_class}
pub mod Split
pub mod Shares
pub mod Payout
pub mod Precheck

pub record RewardsData : Type 0 where
  pub overall_subnet_reward : ℕ
  pub subnet_owner_reward : ℕ
  pub subnet_rewards : ℕ
  pub delegate_stake_rewards : ℕ
  pub subnet_node_rewards : ℕ

-- The storage that the split reads.
pub record RewardsParams : Type 0 where
  pub rewards_capacitor : Map ℕ
  pub subnet_owner_percentage : ℕ
  pub subnet_delegate_stake_rewards_percentage : Map ℕ

-- `DefaultDelegateStakeRewardsPercentage`
abbrev pub default_delegate_stake_rewards_percentage : ℕ
default_delegate_stake_rewards_percentage = 100000000000000000

unfoldable pub calculate_rewards : ℕ → ℕ → ℕ → RewardsParams → RewardsData
calculate_rewards subnet_id network_rewards emission_weight p =
    let overall_rewards = saturating_add network_rewards (Map.get subnet_id p.rewards_capacitor) in
    let overall = percent_mul overall_rewards emission_weight in
    let owner = percent_mul overall p.subnet_owner_percentage in
    let subnet = saturating_sub overall owner in
    let delegates = percent_mul subnet (
      Map.get_or default_delegate_stake_rewards_percentage subnet_id
        p.subnet_delegate_stake_rewards_percentage) in
    record {
      overall_subnet_reward = overall;
      subnet_owner_reward = owner;
      subnet_rewards = subnet;
      delegate_stake_rewards = delegates;
      subnet_node_rewards = saturating_sub subnet delegates;
    }

-- The reward of a node by its score, before the split.
unfoldable pub node_reward : ℕ → ℕ → ℕ → ℕ → ℕ
node_reward node_score weight_sum subnet_node_rewards reward_factor =
    let node_weight = percent_div node_score weight_sum in
    percent_mul (percent_mul node_weight subnet_node_rewards) reward_factor

-- What the rewards of nodes are paid into.
pub record Payees : Type 0 where
  pub node_stake : NodeStake
  pub validator_pools : Pools
  pub delegate_accounts : Balances

pub record DelegateAccount : Type 0 where
  pub account_id : ℕ
  pub rate : ℕ

-- The reward that is left to the node, where the validator's pool has shares.
unfoldable pub handle_validator_delegate_stake : ℕ → ℕ → ℕ → Payees → Option ℕ × Payees
handle_validator_delegate_stake validator_id delegate_reward_rate account_reward y =
    if shares_in validator_id y.validator_pools == 0
    then (none, y)
    else let node_delegate_reward = percent_mul account_reward delegate_reward_rate in
      (
        some (saturating_sub account_reward node_delegate_reward),
        record y { validator_pools = donate validator_id node_delegate_reward y.validator_pools },
      )

unfoldable pub handle_delegate_account : ℕ → ℕ → ℕ → Payees → ℕ × Payees
handle_delegate_account account_reward delegate_account_id rate y =
    let deposit = percent_mul account_reward rate in
    (
      saturating_sub account_reward deposit,
      record y {
        delegate_accounts =
            increase_delegate_account_balance delegate_account_id deposit y.delegate_accounts;
      },
    )

-- What a validator's record says of the rewards of its nodes.
pub record Recipient : Type 0 where
  pub validator_id : ℕ
  pub delegate_reward_rate : ℕ
  pub delegate_account : Option DelegateAccount

abbrev pub or_reward : ℕ → Option ℕ → ℕ
or_reward r none = r
or_reward r (some r') = r'

-- The delegators' part, where the validator's rate is not 0.
unfoldable pub share_with_delegators : ℕ → Recipient → Payees → ℕ × Payees
share_with_delegators account_reward v y =
    let split =
      handle_validator_delegate_stake v.validator_id v.delegate_reward_rate account_reward y in
    if v.delegate_reward_rate == 0
    then (account_reward, y)
    else (or_reward account_reward split.0, split.1)

-- The delegate account's part, where the validator has one.
unfoldable pub share_with_account : ℕ → Option DelegateAccount → Payees → ℕ × Payees
share_with_account account_reward none y = (account_reward, y)
share_with_account account_reward (some d) y =
    handle_delegate_account account_reward d.account_id d.rate y

-- The two splits of a node's reward, for a validator that is registered or not.
unfoldable pub split_reward : ℕ → Option Recipient → Payees → ℕ × Payees
split_reward account_reward none y = (account_reward, y)
split_reward account_reward (some v) y =
    let (reward, y') = share_with_delegators account_reward v y in
    share_with_account reward v.delegate_account y'

-- The end of the round of a node: the splits, and what is left as stake.
unfoldable pub pay_node : ℕ → ℕ → ℕ → Option Recipient → Payees → Payees
pay_node subnet_id subnet_node_id account_reward v y =
    let (reward, y') = split_reward account_reward v y in
    record y' { node_stake = increase_node_stake subnet_node_id subnet_id reward y'.node_stake }

-- A counter of epochs in a row, with its next value.
abbrev pub next_count : ℕ → ℕ → Map (Map ℕ) → ℕ
next_count s x m = add_u32 (or_reward 0 (lookup_double s x m)) 1

unfoldable pub handle_idle_node : ℕ → ℕ → ℕ → ℕ → Nodes → Nodes
handle_idle_node s x idle_epochs current_subnet_epoch n =
    let count = next_count s x n.subnet_node_idle_consecutive_epochs in
    let counted = record n {
      subnet_node_idle_consecutive_epochs =
          insert_at s x count n.subnet_node_idle_consecutive_epochs;
    } in
    if ltb count idle_epochs
    then counted
    else let (graduated, n') = graduate_class s x current_subnet_epoch counted in
      if graduated
      then record n' {
        subnet_node_idle_consecutive_epochs = remove_at s x n'.subnet_node_idle_consecutive_epochs;
      }
      else n'

unfoldable pub handle_included_node : ℕ → ℕ → ℕ → ℕ → ℕ → Nodes → Nodes
handle_included_node s x reputation included_epochs current_subnet_epoch n =
    let count = next_count s x n.subnet_node_consecutive_included_epochs in
    let counted = record n {
      subnet_node_consecutive_included_epochs =
          insert_at s x count n.subnet_node_consecutive_included_epochs;
    } in
    if leb percentage_factor reputation && leb included_epochs count
    then (let (graduated, n') = graduate_to_validator_class s x current_subnet_epoch counted in
        if graduated
        then record n' {
          subnet_node_consecutive_included_epochs =
              remove_at s x n'.subnet_node_consecutive_included_epochs;
        }
        else n')
    else counted

unfoldable pub maybe_get_forked_subnet_node_ids : ℕ → Nodes → Option (List ℕ) × Nodes
maybe_get_forked_subnet_node_ids subnet_id n =
    elim (Map.lookup subnet_id n.emergency_subnet_node_election_data) [
      | none ↦ (none, n)
      | some e ↦ (
        some e.subnet_node_ids,
        record n {
          emergency_subnet_node_election_data =
              Map.insert subnet_id (record e { total_epochs = saturating_add_u32 e.total_epochs 1 })
                n.emergency_subnet_node_election_data;
        },
      )
    ]
