-- ===== src/ValidatorStake.antt =====
-- Delegate stake of validators (pallets/network/src/stake/validator_delegate_staking.rs): the code
-- of the subnets' pools over the validators' storage, without the net flow.
use hypertensor_blockchain.Common.{ℕ, Bool, true, false, not, leb, ◌==◌, if◌then◌else◌}
use hypertensor_blockchain.State.{
  State, Currency, Call, Origin, ok, err, ◌>>=◌, ◌>>◌, pure, gets, modify, ensure, ensure_signed,
  could_not_convert_to_shares, min_delegate_stake_deposit_not_reached, not_enough_stake_to_withdraw,
  transfer_to_self_not_allowed,
}
use hypertensor_blockchain.Accounts.{set_last_tx_block}
use hypertensor_blockchain.Pools.{
  shares_of, balance_for, shares_for, increase_account, decrease_account, opened, donate,
}
use hypertensor_blockchain.DelegateStake.{
  charge_for_delegate_stake, prepare_removal, settle_removal,
}
pub mod Calls
pub mod Issuance
pub mod Moves

module _ {B : Type 0} where
  unfoldable pub increase_account_validator_delegate_stake : ℕ → ℕ → ℕ → ℕ → State B → State B
  increase_account_validator_delegate_stake account_id validator_id amount shares s = record s {
    validator_pools = increase_account account_id validator_id amount shares s.validator_pools;
  }

  unfoldable pub decrease_account_validator_delegate_stake : ℕ → ℕ → ℕ → ℕ → State B → State B
  decrease_account_validator_delegate_stake account_id validator_id amount shares s = record s {
    validator_pools = decrease_account account_id validator_id amount shares s.validator_pools;
  }

  unfoldable pub do_increase_validator_delegate_stake : ℕ → ℕ → State B → State B
  do_increase_validator_delegate_stake validator_id amount s = record s {
    validator_pools = donate validator_id amount s.validator_pools;
  }

  unfoldable pub handle_increase_account_validator_delegate_stake :
      ℕ → ℕ → ℕ → Call (State B) (ℕ × ℕ)
  handle_increase_account_validator_delegate_stake account_id validator_id amount s =
      let shares = shares_for validator_id amount s.validator_pools in
      let s' = record s { validator_pools = opened validator_id s.validator_pools } in
      if shares == 0 then (err could_not_convert_to_shares, s') else (
        ok (amount, shares),
        increase_account_validator_delegate_stake account_id validator_id amount shares s',
      )

  unfoldable pub do_transfer_validator_delegate_stake :
      Origin → ℕ → ℕ → ℕ → Call (State B) (Unit {0})
  do_transfer_validator_delegate_stake origin validator_id to_account_id shares = do
    account_id ← ensure_signed origin
    ensure (not (account_id == to_account_id)) transfer_to_self_not_allowed
    ensure (not (shares == 0)) not_enough_stake_to_withdraw
    s ← gets (λ s. s)
    let balance = balance_for validator_id shares s.validator_pools
    ensure (leb s.params.min_delegate_stake_deposit balance) min_delegate_stake_deposit_not_reached
    modify (decrease_account_validator_delegate_stake account_id validator_id 0 shares)
    modify (increase_account_validator_delegate_stake to_account_id validator_id 0 shares)

module _ {B : Type 0} ⦃currency : Currency B⦄ where
  unfoldable pub perform_do_add_validator_delegate_stake : ℕ → ℕ → ℕ → Bool → Call (State B) (ℕ × ℕ)
  unfolding charge_for_delegate_stake
  perform_do_add_validator_delegate_stake account_id validator_id amount swap = do
    charge_for_delegate_stake account_id amount swap
    handle_increase_account_validator_delegate_stake account_id validator_id amount

  unfoldable pub do_add_validator_delegate_stake : Origin → ℕ → ℕ → Call (State B) (Unit {0})
  unfolding perform_do_add_validator_delegate_stake
  do_add_validator_delegate_stake origin validator_id amount = do
    account_id ← ensure_signed origin
    perform_do_add_validator_delegate_stake account_id validator_id amount false
    block ← gets (λ s. s.block_number)
    modify (set_last_tx_block account_id block)

  unfoldable pub perform_do_remove_validator_delegate_stake :
      ℕ → ℕ → ℕ → Bool → Call (State B) (ℕ × ℕ)
  unfolding prepare_removal settle_removal
  perform_do_remove_validator_delegate_stake account_id validator_id shares add_to_ledger = do
    s ← gets (λ s. s)
    let balance = balance_for validator_id shares s.validator_pools
    prepare_removal account_id (shares_of account_id validator_id s.validator_pools) shares balance
        add_to_ledger
    modify (decrease_account_validator_delegate_stake account_id validator_id balance shares)
    modify (settle_removal account_id balance add_to_ledger)
    pure (balance, shares)

  unfoldable pub do_remove_validator_delegate_stake : Origin → ℕ → ℕ → Call (State B) (Unit {0})
  unfolding perform_do_remove_validator_delegate_stake
  do_remove_validator_delegate_stake origin validator_id shares = do
    account_id ← ensure_signed origin
    perform_do_remove_validator_delegate_stake account_id validator_id shares true
    block ← gets (λ s. s.block_number)
    modify (set_last_tx_block account_id block)
