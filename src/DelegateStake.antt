-- ===== src/DelegateStake.antt =====
-- Delegate stake of subnets (pallets/network/src/stake/delegate_staking.rs). A function of the
-- source that returns `(DispatchResult, u128, u128)` returns zeros with every error; here it is a
-- call that returns the two numbers. Events are not modelled.
use hypertensor_blockchain.Common.{
  ℕ, Bool, true, false, not, ◌&&◌, ◌||◌, ltb, leb, ◌==◌, if◌then◌else◌, mul_u32,
}
use hypertensor_blockchain.Common.Map
use hypertensor_blockchain.Common.Int.{ℤ, pos, ◌+ℤ◌, ◌-ℤ◌, clamp_i128, as_i128}
use hypertensor_blockchain.State.{
  State, Currency, Call, Origin, Result, ok, err, ◌>>=◌, ◌>>◌, pure, gets, modify, ensure, or_error,
  ensure_signed, could_not_convert_to_balance, could_not_convert_to_shares, paused,
  min_delegate_stake_deposit_not_reached, not_enough_balance_to_stake, tx_rate_limit_exceeded,
  shares_zero, not_enough_stake_to_withdraw, transfer_to_self_not_allowed,
}
use hypertensor_blockchain.Shares.{convert_to_balance}
use hypertensor_blockchain.Accounts.{
  u128_to_balance, can_remove_balance_from_coldkey_account, withdraw_or_error, is_rate_limited,
  set_last_tx_block,
}
use hypertensor_blockchain.Unbonding.{
  prepare_unbonding_ledger_entry, insert_balance_to_unbonding_ledger,
}
use hypertensor_blockchain.Pools.{
  shares_of, shares_in, balance_in, balance_for, shares_for, increase_account, decrease_account,
  opened, donate,
}
pub mod Calls
pub mod Transfers
pub mod Moves

module _ {B : Type 0} where
  -- `SubnetNetFlow::mutate(subnet_id, |flow| *flow = ...)`
  abbrev pub set_net_flow : ℕ → (ℤ → ℤ) → State B → State B
  set_net_flow subnet_id f s = record s {
    subnet_net_flow =
        Map.insert subnet_id (f (Map.get_or (pos 0) subnet_id s.subnet_net_flow)) s.subnet_net_flow;
  }

  unfoldable pub increase_account_delegate_stake : ℕ → ℕ → ℕ → ℕ → State B → State B
  increase_account_delegate_stake account_id subnet_id amount shares s =
      set_net_flow subnet_id (λ flow. clamp_i128 (flow +ℤ as_i128 amount))
        (record s {
          subnet_pools = increase_account account_id subnet_id amount shares s.subnet_pools;
        })

  unfoldable pub decrease_account_delegate_stake : ℕ → ℕ → ℕ → ℕ → State B → State B
  decrease_account_delegate_stake account_id subnet_id amount shares s =
      set_net_flow subnet_id (λ flow. clamp_i128 (flow -ℤ as_i128 amount))
        (record s {
          subnet_pools = decrease_account account_id subnet_id amount shares s.subnet_pools;
        })

  unfoldable pub do_increase_delegate_stake : ℕ → ℕ → State B → State B
  do_increase_delegate_stake subnet_id amount s = record s {
    subnet_pools = donate subnet_id amount s.subnet_pools;
  }

  unfoldable pub convert_account_shares_to_balance : ℕ → ℕ → State B → ℕ
  convert_account_shares_to_balance account_id subnet_id s =
      let shares = shares_of account_id subnet_id s.subnet_pools in
      if shares == 0 then 0 else balance_for subnet_id shares s.subnet_pools

  unfoldable pub handle_increase_account_delegate_stake : ℕ → ℕ → ℕ → Call (State B) (ℕ × ℕ)
  handle_increase_account_delegate_stake account_id subnet_id amount s =
      let shares = shares_for subnet_id amount s.subnet_pools in
      let s' = record s { subnet_pools = opened subnet_id s.subnet_pools } in
      if shares == 0 then (err could_not_convert_to_shares, s') else (
        ok (amount, shares),
        increase_account_delegate_stake account_id subnet_id amount shares s',
      )

  unfoldable pub do_transfer_delegate_stake : Origin → ℕ → ℕ → ℕ → Call (State B) (Unit {0})
  do_transfer_delegate_stake origin subnet_id to_account_id shares = do
    account_id ← ensure_signed origin
    ensure (not (account_id == to_account_id)) transfer_to_self_not_allowed
    ensure (not (shares == 0)) not_enough_stake_to_withdraw
    s ← gets (λ s. s)
    let balance = balance_for subnet_id shares s.subnet_pools
    ensure (leb s.params.min_delegate_stake_deposit balance) min_delegate_stake_deposit_not_reached
    modify (decrease_account_delegate_stake account_id subnet_id 0 shares)
    modify (increase_account_delegate_stake to_account_id subnet_id 0 shares)

module _ {B : Type 0} ⦃currency : Currency B⦄ where
  -- The checks of `perform_do_add_delegate_stake`, and the withdrawal unless it is a swap.
  -- `perform_do_add_validator_delegate_stake` makes the same.
  unfoldable pub charge_for_delegate_stake : ℕ → ℕ → Bool → Call (State B) (Unit {0})
  charge_for_delegate_stake account_id amount swap = do
    balance ← or_error (u128_to_balance currency amount) could_not_convert_to_balance
    s ← gets (λ s. s)
    ensure (leb s.params.min_delegate_stake_deposit amount) min_delegate_stake_deposit_not_reached
    ensure (swap || can_remove_balance_from_coldkey_account account_id balance s)
        not_enough_balance_to_stake
    ensure (not (is_rate_limited account_id s)) tx_rate_limit_exceeded
    if swap then pure tt else withdraw_or_error account_id balance

  unfoldable pub perform_do_add_delegate_stake : ℕ → ℕ → ℕ → Bool → Call (State B) (ℕ × ℕ)
  unfolding charge_for_delegate_stake
  perform_do_add_delegate_stake account_id subnet_id amount swap = do
    charge_for_delegate_stake account_id amount swap
    handle_increase_account_delegate_stake account_id subnet_id amount

  unfoldable pub do_add_delegate_stake : Origin → ℕ → ℕ → Call (State B) (Unit {0})
  unfolding perform_do_add_delegate_stake
  do_add_delegate_stake origin subnet_id amount = do
    account_id ← ensure_signed origin
    perform_do_add_delegate_stake account_id subnet_id amount false
    block ← gets (λ s. s.block_number)
    modify (set_last_tx_block account_id block)

  -- The checks of `perform_do_remove_subnet_delegate_stake` on the numbers of the pool, and the
  -- room in the ledger if the balance goes there. `perform_do_remove_validator_delegate_stake`
  -- makes the same.
  unfoldable pub prepare_removal : ℕ → ℕ → ℕ → ℕ → Bool → Call (State B) (Unit {0})
  prepare_removal account_id account_shares shares balance add_to_ledger = do
    ensure (not (shares == 0)) shares_zero
    ensure (leb shares account_shares) not_enough_stake_to_withdraw
    or_error (u128_to_balance currency balance) could_not_convert_to_balance
    s ← gets (λ s. s)
    ensure (not (is_rate_limited account_id s)) tx_rate_limit_exceeded
    let cooldown_blocks = mul_u32 s.params.delegate_stake_cooldown_epochs s.params.epoch_length
    if add_to_ledger
        then prepare_unbonding_ledger_entry account_id cooldown_blocks s.block_number
        else pure tt

  -- `if add_to_ledger { insert_balance_to_unbonding_ledger(..) }`
  unfoldable pub settle_removal : ℕ → ℕ → Bool → State B → State B
  settle_removal account_id balance add_to_ledger s =
      let cooldown_blocks = mul_u32 s.params.delegate_stake_cooldown_epochs s.params.epoch_length in
      if add_to_ledger
      then insert_balance_to_unbonding_ledger account_id balance cooldown_blocks s.block_number s
      else s

  unfoldable pub perform_do_remove_subnet_delegate_stake : ℕ → ℕ → ℕ → Bool → Call (State B) (ℕ × ℕ)
  unfolding prepare_removal settle_removal
  perform_do_remove_subnet_delegate_stake account_id subnet_id shares add_to_ledger = do
    s ← gets (λ s. s)
    let balance = balance_for subnet_id shares s.subnet_pools
    prepare_removal account_id (shares_of account_id subnet_id s.subnet_pools) shares balance
        add_to_ledger
    modify (decrease_account_delegate_stake account_id subnet_id balance shares)
    modify (settle_removal account_id balance add_to_ledger)
    pure (balance, shares)

  unfoldable pub do_remove_delegate_stake : Origin → ℕ → ℕ → Call (State B) (Unit {0})
  unfolding perform_do_remove_subnet_delegate_stake
  do_remove_delegate_stake origin subnet_id shares = do
    account_id ← ensure_signed origin
    perform_do_remove_subnet_delegate_stake account_id subnet_id shares true
    block ← gets (λ s. s.block_number)
    modify (set_last_tx_block account_id block)
