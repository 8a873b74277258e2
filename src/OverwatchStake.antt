-- ===== src/OverwatchStake.antt =====
-- Stake of overwatch nodes (pallets/network/src/stake/overwatch_node_staking.rs).
use hypertensor_blockchain.Common.{
  ℕ, Bool, true, false, not, ◌||◌, Option, none, some, ltb, leb, ◌==◌, saturating_add,
  saturating_sub, mul_u32,
}
use hypertensor_blockchain.Common.Map
use hypertensor_blockchain.State.{
  State, Balances, Currency, Call, Origin, Result, ok, err, ◌>>=◌, ◌>>◌, pure, gets, modify, ensure,
  or_error, ensure_signed, invalid_subnet_node_id, invalid_validator_id, not_key_owner,
  invalid_amount, could_not_convert_to_balance, min_stake_not_reached, not_enough_balance_to_stake,
  amount_zero, not_enough_stake_to_withdraw,
}
use hypertensor_blockchain.Accounts.{
  u128_to_balance, can_remove_balance_from_coldkey_account, withdraw_or_error,
}
use hypertensor_blockchain.Unbonding.{
  prepare_unbonding_ledger_entry, insert_balance_to_unbonding_ledger,
}
pub mod Moves

-- `increase_overwatch_node_stake` on its storage; `increase_delegate_account_balance` is the same.
unfoldable pub increase_overwatch_node_stake : ℕ → ℕ → Balances → Balances
increase_overwatch_node_stake id amount b = record {
  balance_of = Map.insert id (saturating_add (Map.get id b.balance_of) amount) b.balance_of;
  total_of = saturating_add b.total_of amount;
}

unfoldable pub decrease_overwatch_node_stake : ℕ → ℕ → Balances → Balances
decrease_overwatch_node_stake id amount b = record {
  balance_of = Map.insert id (saturating_sub (Map.get id b.balance_of) amount) b.balance_of;
  total_of = saturating_sub b.total_of amount;
}

-- The checks that the caller is the coldkey of the validator that owns the overwatch node.
abbrev pub ensure_overwatch_owner : {B : Type 0} → ℕ → ℕ → Call (State B) (Unit {0})
ensure_overwatch_owner coldkey overwatch_node_id = do
  s ← gets (λ s. s)
  validator_id ←
      or_error (Map.lookup overwatch_node_id s.registry.overwatch_node_validator_id)
        invalid_subnet_node_id
  validator_coldkey ←
      or_error (Map.lookup validator_id s.registry.validator_coldkey) invalid_validator_id
  ensure (coldkey == validator_coldkey) not_key_owner

module _ {B : Type 0} ⦃currency : Currency B⦄ where
  unfoldable pub do_add_overwatch_node_stake : Origin → ℕ → ℕ → Call (State B) (Unit {0})
  do_add_overwatch_node_stake origin overwatch_node_id stake_to_be_added = do
    coldkey ← ensure_signed origin
    ensure_overwatch_owner coldkey overwatch_node_id
    ensure (not (stake_to_be_added == 0)) invalid_amount
    balance ← or_error (u128_to_balance currency stake_to_be_added) could_not_convert_to_balance
    s ← gets (λ s. s)
    let account_stake_balance = Map.get overwatch_node_id s.overwatch_stake.balance_of
    ensure
        (leb s.params.overwatch_min_stake_balance
          (saturating_add account_stake_balance stake_to_be_added))
        min_stake_not_reached
    ensure (can_remove_balance_from_coldkey_account coldkey balance s) not_enough_balance_to_stake
    withdraw_or_error coldkey balance
    modify (λ s'. record s' {
      overwatch_stake =
          increase_overwatch_node_stake overwatch_node_id stake_to_be_added s'.overwatch_stake;
    })

  unfoldable pub do_remove_overwatch_node_stake : Origin → ℕ → Bool → ℕ → Call (State B) (Unit {0})
  do_remove_overwatch_node_stake origin overwatch_node_id is_overwatch_node stake_to_be_removed = do
    coldkey ← ensure_signed origin
    ensure_overwatch_owner coldkey overwatch_node_id
    ensure (ltb 0 stake_to_be_removed) amount_zero
    s ← gets (λ s. s)
    let account_stake_balance = Map.get overwatch_node_id s.overwatch_stake.balance_of
    ensure (leb stake_to_be_removed account_stake_balance) not_enough_stake_to_withdraw
    ensure
        (not is_overwatch_node
          || leb s.params.overwatch_min_stake_balance
              (saturating_sub account_stake_balance stake_to_be_removed))
        min_stake_not_reached
    or_error (u128_to_balance currency stake_to_be_removed) could_not_convert_to_balance
    let block = s.block_number
    let cooldown_blocks = mul_u32 s.params.stake_cooldown_epochs s.params.epoch_length
    prepare_unbonding_ledger_entry coldkey cooldown_blocks block
    modify (λ s'. record s' {
      overwatch_stake =
          decrease_overwatch_node_stake overwatch_node_id stake_to_be_removed s'.overwatch_stake;
    })
    modify (insert_balance_to_unbonding_ledger coldkey stake_to_be_removed cooldown_blocks block)
