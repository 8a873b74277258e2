-- ===== src/State/Ledgers.antt =====
-- The storage of the staking code (pallets/network/src/lib.rs), one record for each component.
use hypertensor_blockchain.Common.{ℕ, List}
use hypertensor_blockchain.Common.Map.{Map, DoubleMap}
use hypertensor_blockchain.Common.BTreeMap.{BTreeMap}

-- `StakeUnbondingLedger` (account, claim block, amount) and `TotalUnbondingBalance`
pub record Unbonding : Type 0 where
  pub stake_unbonding_ledger : Map BTreeMap
  pub total_unbonding_balance : ℕ

-- `NodeSubnetStake` (node, then subnet), `TotalSubnetStake` and `TotalStake`
pub record NodeStake : Type 0 where
  pub node_subnet_stake : DoubleMap
  pub total_subnet_stake : Map ℕ
  pub total_stake : ℕ

-- The pools of one kind, each with its shares and its balance; the subnets have one kind
-- (`AccountSubnetDelegateStakeShares`, `TotalSubnetDelegateStakeShares`,
-- `TotalSubnetDelegateStakeBalance`, `TotalDelegateStake`), the validators another
-- (`AccountValidatorDelegateStakeShares`, `ValidatorDelegateStakeShares`,
-- `ValidatorDelegateStakeBalance`, `TotalValidatorDelegateStakeBalance`).
pub record Pools : Type 0 where
  pub account_shares : DoubleMap
  pub pool_shares : Map ℕ
  pub pool_balance : Map ℕ
  pub total_balance : ℕ

-- `OverwatchNodeStakeBalance` and `TotalOverwatchNodeStakeBalance`; and `DelegateAccountStake`
-- and `TotalAccountDelegateStake`
pub record Balances : Type 0 where
  pub balance_of : Map ℕ
  pub total_of : ℕ

pub data QueuedSwapCall : Type 0 where
  swap_to_subnet_delegate_stake : (account_id to_subnet_id balance : ℕ) → QueuedSwapCall
  swap_to_validator_delegate_stake : (account_id to_validator_id balance : ℕ) → QueuedSwapCall

pub record QueuedSwapItem : Type 0 where
  pub id : ℕ
  pub call : QueuedSwapCall
  pub queued_at_block : ℕ
  pub execute_after_blocks : ℕ

-- `SwapQueueOrder`, `SwapCallQueue` and `NextSwapQueueId`
pub record SwapQueue : Type 0 where
  pub swap_queue_order : List ℕ
  pub swap_call_queue : Map QueuedSwapItem
  pub next_swap_queue_id : ℕ
