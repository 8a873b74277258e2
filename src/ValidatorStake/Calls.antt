-- ===== src/ValidatorStake/Calls.antt =====
-- What the successful calls on the delegate stake of validators have tested and done.
use hypertensor_blockchain.Common.{ℕ, ◌≤◌, ◌<◌, ◌≡◌, some, arith}
use hypertensor_blockchain.State.{State, Currency, Origin, ok}
use hypertensor_blockchain.Accounts.{remove_balance_from_coldkey_account}
use hypertensor_blockchain.Unbonding.{
  claim_block, insert_unbonding, insert_balance_to_unbonding_ledger, prepare_unbonding_ledger_entry,
}
use hypertensor_blockchain.Unbonding.Settle.{prepare-frame}
use hypertensor_blockchain.Pools.{
  shares_of, balance_for, shares_for, increase_account, decrease_account, opened,
}
use hypertensor_blockchain.DelegateStake.Calls.{cooldown}
use hypertensor_blockchain.ValidatorStake.{
  increase_account_validator_delegate_stake, decrease_account_validator_delegate_stake,
  handle_increase_account_validator_delegate_stake, do_add_validator_delegate_stake,
  do_remove_validator_delegate_stake,
}

module _ {B : Type 0} ⦃currency : Currency B⦄ where
  pub record IsDeposited (a pool x : ℕ) (s s' : State B) : Type 0 where
    pub enough : s.params.min_delegate_stake_deposit ≤ x
    pub worth_shares : 0 < shares_for pool x s.validator_pools
    pub withdrawn : currency.withdraw a x s.balances ≡ some s'.balances
    pub pools :
        s'.validator_pools
        ≡ increase_account a pool x
            (shares_for pool x s.validator_pools)
            (opened pool s.validator_pools)

  pub do_add_validator_delegate_stake-IsDeposited :
      (a pool x : ℕ) (s s' : State B)
      → do_add_validator_delegate_stake (Origin.signed a) pool x s ≡ (ok tt, s')
      → IsDeposited a pool x s s'
  unfolding do_add_validator_delegate_stake handle_increase_account_validator_delegate_stake
      increase_account_validator_delegate_stake remove_balance_from_coldkey_account
  do_add_validator_delegate_stake-IsDeposited a pool x s s' h = ground arith

  abbrev pub made_room : ℕ → State B → State B
  made_room a s = (prepare_unbonding_ledger_entry a (cooldown s) s.block_number s).1

  pub record IsWithdrawn (a pool n : ℕ) (s s' : State B) : Type 0 where
    pub not_zero : 0 < n
    pub enough : n ≤ shares_of a pool s.validator_pools
    pub pools :
        s'.validator_pools
        ≡ decrease_account a pool (balance_for pool n s.validator_pools) n s.validator_pools
    pub balances_lem : s'.balances ≡ (made_room a s).balances
    pub ledger :
        s'.unbonding
        ≡ insert_unbonding a
            (balance_for pool n s.validator_pools)
            (claim_block (cooldown s) s.block_number)
            (made_room a s).unbonding

  pub do_remove_validator_delegate_stake-IsWithdrawn :
      (a pool n : ℕ) (s s' : State B)
      → do_remove_validator_delegate_stake (Origin.signed a) pool n s ≡ (ok tt, s')
      → IsWithdrawn a pool n s s'
  unfolding do_remove_validator_delegate_stake decrease_account_validator_delegate_stake
      insert_balance_to_unbonding_ledger
  do_remove_validator_delegate_stake-IsWithdrawn a pool n s s' h =
      ground (arith, prepare-frame a (cooldown s) s.block_number s)
