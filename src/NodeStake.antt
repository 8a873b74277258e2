-- ===== src/NodeStake.antt =====
-- Stake of subnet nodes (pallets/network/src/stake/node_staking.rs), and the cleaning of a
-- validator's subnets (pallets/network/src/utilities/subnet_node.rs).
use hypertensor_blockchain.Common.{
  ◌*◌, ◌^◌, is_some, ℕ, ◌+◌, ◌-◌, Bool, true, false, not, ◌&&◌, ◌||◌, Option, none, some, List, [],
  ◌∷◌, ltb, leb, ◌==◌, if◌then◌else◌, saturating_add, saturating_sub, mul_u32,
}
use hypertensor_blockchain.Common.Map
use hypertensor_blockchain.Common.Map.{Map, get_double, insert_double}
use hypertensor_blockchain.State.{
  State, NodeStake, Registry, Currency, Call, Origin, DispatchResult, Result, ok, err, ◌>>=◌, ◌>>◌,
  pure, gets, modify, ensure, or_error, ensure_signed, lookup_double, Error, invalid_subnet_id,
  invalid_subnet_node_id, invalid_validator_id, not_key_owner, invalid_amount,
  could_not_convert_to_balance, min_stake_not_reached, max_stake_reached,
  not_enough_balance_to_stake, tx_rate_limit_exceeded, balance_withdrawal_error, amount_zero,
  not_enough_stake_to_withdraw,
}
use hypertensor_blockchain.Accounts.{
  u128_to_balance, can_remove_balance_from_coldkey_account, withdraw_or_error, is_rate_limited,
  set_last_tx_block,
}
use hypertensor_blockchain.Unbonding.{
  prepare_unbonding_ledger_entry, insert_balance_to_unbonding_ledger,
}
pub mod Totals
pub mod Calls
pub mod Moves

-- `DefaultSubnetMinStakeBalance` and `DefaultNetworkMaxStakeBalance`
abbrev pub default_subnet_min_stake_balance : ℕ
default_subnet_min_stake_balance = 100 * 10 ^ 18

abbrev pub default_network_max_stake_balance : ℕ
default_network_max_stake_balance = 1000 * 10 ^ 18

abbrev pub stake_of : ℕ → ℕ → NodeStake → ℕ
stake_of subnet_node_id subnet_id n = get_double subnet_node_id subnet_id n.node_subnet_stake

-- `increase_node_stake` and `decrease_node_stake`, on their storage alone
unfoldable pub increase_node_stake : ℕ → ℕ → ℕ → NodeStake → NodeStake
increase_node_stake subnet_node_id subnet_id amount n = record {
  node_subnet_stake =
      insert_double subnet_node_id subnet_id
        (saturating_add (stake_of subnet_node_id subnet_id n) amount) n.node_subnet_stake;
  total_subnet_stake =
      Map.insert subnet_id (saturating_add (Map.get subnet_id n.total_subnet_stake) amount)
        n.total_subnet_stake;
  total_stake = saturating_add n.total_stake amount;
}

unfoldable pub decrease_node_stake : ℕ → ℕ → ℕ → NodeStake → NodeStake
decrease_node_stake subnet_node_id subnet_id amount n = record {
  node_subnet_stake =
      insert_double subnet_node_id subnet_id
        (saturating_sub (stake_of subnet_node_id subnet_id n) amount) n.node_subnet_stake;
  total_subnet_stake =
      Map.insert subnet_id (saturating_sub (Map.get subnet_id n.total_subnet_stake) amount)
        n.total_subnet_stake;
  total_stake = saturating_sub n.total_stake amount;
}

-- The subnets of the map that exist.
unfoldable pub existing_subnets : Registry → Map (List ℕ) → Map (List ℕ)
existing_subnets r [] = []
existing_subnets r (e ∷ m) =
    if Map.contains_key e.0 r.subnets_data then e ∷ existing_subnets r m else existing_subnets r m

unfoldable pub clean_validator_subnet_nodes : ℕ → Registry → Registry
clean_validator_subnet_nodes validator_id r =
    let subnet_nodes = Map.get_or [] validator_id r.validator_subnet_nodes in
    record r {
      validator_subnet_nodes =
          Map.insert validator_id (existing_subnets r subnet_nodes) r.validator_subnet_nodes;
    }

-- The validator of a node, if the caller is the validator's coldkey.
abbrev pub ensure_node_owner : {B : Type 0} → ℕ → ℕ → ℕ → Call (State B) ℕ
ensure_node_owner coldkey subnet_id subnet_node_id = do
  r ← gets (λ s. s.registry)
  validator_id ←
      or_error (lookup_double subnet_id subnet_node_id r.subnet_node_validator_id)
        invalid_subnet_node_id
  validator_coldkey ← or_error (Map.lookup validator_id r.validator_coldkey) invalid_validator_id
  ensure (coldkey == validator_coldkey) not_key_owner
  pure validator_id

module _ {B : Type 0} ⦃currency : Currency B⦄ where
  unfoldable pub do_add_node_stake : Origin → ℕ → ℕ → ℕ → Call (State B) (Unit {0})
  do_add_node_stake origin subnet_id subnet_node_id stake_to_be_added = do
    coldkey ← ensure_signed origin
    s ← gets (λ s. s)
    ensure (Map.contains_key subnet_id s.registry.subnets_data) invalid_subnet_id
    ensure_node_owner coldkey subnet_id subnet_node_id
    ensure (not (stake_to_be_added == 0)) invalid_amount
    balance ← or_error (u128_to_balance currency stake_to_be_added) could_not_convert_to_balance
    let node_stake_balance = stake_of subnet_node_id subnet_id s.node_stake
    let min_stake =
        Map.get_or default_subnet_min_stake_balance subnet_id s.registry.subnet_min_stake_balance
    let max_stake =
        Map.get_or default_network_max_stake_balance subnet_id s.registry.subnet_max_stake_balance
    ensure (leb min_stake (saturating_add node_stake_balance stake_to_be_added))
        min_stake_not_reached
    ensure (leb (saturating_add node_stake_balance stake_to_be_added) max_stake) max_stake_reached
    ensure (can_remove_balance_from_coldkey_account coldkey balance s) not_enough_balance_to_stake
    ensure (not (is_rate_limited coldkey s)) tx_rate_limit_exceeded
    withdraw_or_error coldkey balance
    modify (λ s'. record s' {
      node_stake = increase_node_stake subnet_node_id subnet_id stake_to_be_added s'.node_stake;
    })
    modify (set_last_tx_block coldkey s.block_number)

  unfoldable pub do_remove_node_stake : Origin → ℕ → ℕ → ℕ → Call (State B) (Unit {0})
  do_remove_node_stake origin subnet_id subnet_node_id stake_to_be_removed = do
    coldkey ← ensure_signed origin
    s ← gets (λ s. s)
    validator_id ← ensure_node_owner coldkey subnet_id subnet_node_id
    let is_subnet_node =
        is_some (lookup_double subnet_id subnet_node_id s.registry.subnet_node_reputation)
    let node_stake_balance = stake_of subnet_node_id subnet_id s.node_stake
    let min_stake =
        Map.get_or default_subnet_min_stake_balance subnet_id s.registry.subnet_min_stake_balance
    ensure (ltb 0 stake_to_be_removed) amount_zero
    ensure (leb stake_to_be_removed node_stake_balance) not_enough_stake_to_withdraw
    ensure
        (not is_subnet_node
          || leb min_stake (saturating_sub node_stake_balance stake_to_be_removed))
        min_stake_not_reached
    let should_clean = not is_subnet_node && leb node_stake_balance stake_to_be_removed
    or_error (u128_to_balance currency stake_to_be_removed) could_not_convert_to_balance
    ensure (not (is_rate_limited coldkey s)) tx_rate_limit_exceeded
    let block = s.block_number
    let cooldown_blocks = mul_u32 s.params.stake_cooldown_epochs s.params.epoch_length
    prepare_unbonding_ledger_entry coldkey cooldown_blocks block
    modify (λ s'.
        if should_clean
        then record s' { registry = clean_validator_subnet_nodes validator_id s'.registry }
        else s')
    modify (λ s'. record s' {
      node_stake = decrease_node_stake subnet_node_id subnet_id stake_to_be_removed s'.node_stake;
    })
    modify (insert_balance_to_unbonding_ledger coldkey stake_to_be_removed cooldown_blocks block)
    modify (set_last_tx_block coldkey block)
