-- ===== src/DelegateStake/Calls.antt =====
-- What the successful calls on the delegate stake of subnets have tested and done.
use hypertensor_blockchain.Common.{ℕ, ◌≤◌, ◌<◌, ◌≡◌, ◌≢◌, some, arith, mul_u32}
use hypertensor_blockchain.State.{State, Currency, Origin, ok}
use hypertensor_blockchain.Accounts.{remove_balance_from_coldkey_account}
use hypertensor_blockchain.Unbonding.{
  claim_block, insert_unbonding, insert_balance_to_unbonding_ledger, prepare_unbonding_ledger_entry,
}
use hypertensor_blockchain.Unbonding.Settle.{prepare-frame}
use hypertensor_blockchain.Pools.{
  shares_of, balance_for, shares_for, increase_account, decrease_account, opened,
}
use hypertensor_blockchain.DelegateStake.{
  increase_account_delegate_stake, decrease_account_delegate_stake,
  handle_increase_account_delegate_stake, do_add_delegate_stake, do_remove_delegate_stake,
  do_transfer_delegate_stake,
}

-- `cooldown_blocks` of an unbonding from a delegate stake
abbrev pub cooldown : {B : Type 0} → State B → ℕ
cooldown s = mul_u32 s.params.delegate_stake_cooldown_epochs s.params.epoch_length

module _ {B : Type 0} where
  pub record IsTransferred (a pool b n : ℕ) (s s' : State B) : Type 0 where
    pub distinct : a ≢ b
    pub not_zero : 0 < n
    pub enough : s.params.min_delegate_stake_deposit ≤ balance_for pool n s.subnet_pools
    pub pools :
        s'.subnet_pools ≡ increase_account b pool 0 n (decrease_account a pool 0 n s.subnet_pools)

  pub do_transfer_delegate_stake-IsTransferred :
      (a pool b n : ℕ) (s s' : State B)
      → do_transfer_delegate_stake (Origin.signed a) pool b n s ≡ (ok tt, s')
      → IsTransferred a pool b n s s'
  unfolding do_transfer_delegate_stake increase_account_delegate_stake
      decrease_account_delegate_stake
  do_transfer_delegate_stake-IsTransferred a pool b n s s' h = ground arith

module _ {B : Type 0} ⦃currency : Currency B⦄ where
  pub record IsDeposited (a pool x : ℕ) (s s' : State B) : Type 0 where
    pub enough : s.params.min_delegate_stake_deposit ≤ x
    pub worth_shares : 0 < shares_for pool x s.subnet_pools
    pub withdrawn : currency.withdraw a x s.balances ≡ some s'.balances
    pub pools :
        s'.subnet_pools
        ≡ increase_account a pool x (shares_for pool x s.subnet_pools) (opened pool s.subnet_pools)

  pub do_add_delegate_stake-IsDeposited :
      (a pool x : ℕ) (s s' : State B)
      → do_add_delegate_stake (Origin.signed a) pool x s ≡ (ok tt, s')
      → IsDeposited a pool x s s'
  unfolding do_add_delegate_stake handle_increase_account_delegate_stake
      increase_account_delegate_stake remove_balance_from_coldkey_account
  do_add_delegate_stake-IsDeposited a pool x s s' h = ground arith

  abbrev pub made_room : ℕ → State B → State B
  made_room a s = (prepare_unbonding_ledger_entry a (cooldown s) s.block_number s).1

  pub record IsWithdrawn (a pool n : ℕ) (s s' : State B) : Type 0 where
    pub not_zero : 0 < n
    pub enough : n ≤ shares_of a pool s.subnet_pools
    pub pools :
        s'.subnet_pools
        ≡ decrease_account a pool (balance_for pool n s.subnet_pools) n s.subnet_pools
    pub balances_lem : s'.balances ≡ (made_room a s).balances
    pub ledger :
        s'.unbonding
        ≡ insert_unbonding a
            (balance_for pool n s.subnet_pools)
            (claim_block (cooldown s) s.block_number)
            (made_room a s).unbonding

  pub do_remove_delegate_stake-IsWithdrawn :
      (a pool n : ℕ) (s s' : State B)
      → do_remove_delegate_stake (Origin.signed a) pool n s ≡ (ok tt, s')
      → IsWithdrawn a pool n s s'
  unfolding do_remove_delegate_stake decrease_account_delegate_stake
      insert_balance_to_unbonding_ledger
  do_remove_delegate_stake-IsWithdrawn a pool n s s' h =
      ground (arith, prepare-frame a (cooldown s) s.block_number s)
