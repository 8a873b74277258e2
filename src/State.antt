-- ===== src/State.antt =====
-- The state that the staking calls read and write: the balances, the block number of
-- frame_system, and the storage of the network pallet by component.
mod Dispatch
mod Money
mod Ledgers
mod Tables
pub use Dispatch.*
pub use Money.*
pub use Ledgers.*
pub use Tables.*
use hypertensor_blockchain.Common.{
  ℕ, ◌%◌, ◌-◌, ◌+◌, Bool, not, false, ltb, ◌||◌, ◌==◌, leb, if◌then◌else◌, Option, none, some,
  sub_u32,
}
use hypertensor_blockchain.Common.Map.{Map}
use hypertensor_blockchain.Common.Int.{ℤ}

pub record State (B : Type 0) : Type 0 where
  pub balances : B
  pub block_number : ℕ
  pub params : Params
  pub registry : Registry
  pub last_tx_block : Map ℕ
  pub unbonding : Unbonding
  pub node_stake : NodeStake
  pub subnet_pools : Pools
  pub subnet_net_flow : Map ℤ
  pub validator_pools : Pools
  pub overwatch_stake : Balances
  pub delegate_accounts : Balances
  -- the deprecated `TotalNodeDelegateStake`
  pub total_node_delegate_stake : ℕ
  pub swap_queue : SwapQueue
