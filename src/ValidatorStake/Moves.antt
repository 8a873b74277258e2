-- ===== src/ValidatorStake/Moves.antt =====
-- Deposits to and withdrawals from the pools of validators
-- (pallets/network/src/stake/validator_delegate_staking.rs).
use hypertensor_blockchain.Common.{ℕ, ◌+◌, ◌≤◌, ◌<◌, ◌≡◌, ap, ◌∙◌, arith, u128_max}
use hypertensor_blockchain.Common.Lists.{All}
use hypertensor_blockchain.State.{State, Currency, IsCurrency, Origin, ok}
use hypertensor_blockchain.Shares.Price.{convert_to_balance-le}
use hypertensor_blockchain.Unbonding.{unbondings_of, claim_block}
use hypertensor_blockchain.Unbonding.Owed.{IsOwed, insert_unbonding-IsOwed}
use hypertensor_blockchain.Unbonding.Claims.{IsPayable}
use hypertensor_blockchain.Unbonding.Balance.{IsBalanced}
use hypertensor_blockchain.Unbonding.Settle.{liquid, insert-after-prepare}
use hypertensor_blockchain.Pools.{shares_in, balance_in, shares_for, balance_for, increase_account}
use hypertensor_blockchain.Pools.Backed.{
  IsBacked, shares_of-le-held, increase_account-IsBacked, decrease_account-IsBacked,
  balance_in-le-sum,
}
use hypertensor_blockchain.Pools.Moved.{IsGiven, increase_account-IsGiven, decrease_account-IsGiven}
use hypertensor_blockchain.Pools.Value.{
  IsOpen, deposit_keeps_value, deposit_not_profitable, withdrawal_keeps_value,
}
use hypertensor_blockchain.ValidatorStake.{
  do_add_validator_delegate_stake, do_remove_validator_delegate_stake,
}
use hypertensor_blockchain.DelegateStake.Calls.{cooldown}
use hypertensor_blockchain.DelegateStake.Moves.{opened_open, total-increase, total-decrease}
use hypertensor_blockchain.ValidatorStake.Calls.{
  do_add_validator_delegate_stake-IsDeposited, do_remove_validator_delegate_stake-IsWithdrawn,
}

module _ {B : Type 0} ⦃currency : Currency B⦄ (laws : IsCurrency currency) where
  -- From backed pools, with room in the totals: a successful deposit into an open pool takes the
  -- amount from the caller's free balance, conserves issuance and delegate stake together, leaves
  -- the pools backed, and lowers the worth of no number of shares, a u128. It gives the caller, and
  -- no other account, as many shares of this pool as the amount converts to, more than none, and
  -- adds them and the amount to this pool and to no other; those shares redeem, right after it, for
  -- no more than the amount.
  pub do_add_validator_delegate_stake_lem :
      (a pool x h : ℕ) (s s' : State B)
      → IsBacked s.validator_pools
      → IsOpen pool x s.validator_pools
      → s.validator_pools.total_balance + x ≤ u128_max
      → h ≤ u128_max
      → do_add_validator_delegate_stake (Origin.signed a) pool x s ≡ (ok tt, s')
      → (currency.free_balance a s'.balances + x ≡ currency.free_balance a s.balances)
        × (currency.total_issuance s'.balances + s'.validator_pools.total_balance
            ≡ currency.total_issuance s.balances + s.validator_pools.total_balance)
        × IsBacked s'.validator_pools
        × (balance_for pool h s.validator_pools ≤ balance_for pool h s'.validator_pools)
        × (balance_for pool (shares_for pool x s.validator_pools) s'.validator_pools ≤ x)
        × (0 < shares_for pool x s.validator_pools)
        × IsGiven a pool x
            (shares_for pool x s.validator_pools)
            s.validator_pools
            s'.validator_pools
  do_add_validator_delegate_stake_lem a pool x h s s' backed o total_fits h_fits done =
      let p = s.validator_pools in
      let n = shares_for pool x p in
      let added = do_add_validator_delegate_stake-IsDeposited a pool x s s' done in
      let pools_lem : s'.validator_pools ≡ increase_account a pool x n p =
        added.pools ∙ ap (increase_account a pool x n) (opened_open pool p o.not_empty) in
      rw pools_lem (
        laws.withdraw-free_balance a x s.balances s'.balances added.withdrawn,
        omega (
          arith,
          total-increase a pool x n p total_fits,
          laws.withdraw-total_issuance a x s.balances s'.balances added.withdrawn,
        ),
        increase_account-IsBacked a pool x n p backed o.shares_fit total_fits,
        deposit_keeps_value a pool x p o h h_fits,
        deposit_not_profitable a pool x p o,
        added.worth_shares,
        increase_account-IsGiven a pool x n p
            (omega (arith, o.shares_fit, shares_of-le-held a pool p, backed.shares pool))
            o.shares_fit o.balance_fits,
      )

  -- From backed pools of u128s and a balanced ledger whose entries of the caller can be paid, where
  -- the ledger has room for the pools' balance: a successful withdrawal that leaves shares in the
  -- pool takes the shares from the caller and this pool, and what they redeem for from this pool,
  -- and no more from any account or pool; the ledger owes the caller that much more at the end of
  -- the cooldown, and other accounts what it did. Issuance, ledger and delegate stake are conserved
  -- together, pools and ledger are left right, and the worth of no number of shares, a u128, is
  -- lowered.
  pub do_remove_validator_delegate_stake_lem :
      (a pool n h : ℕ) (s s' : State B)
      → IsBacked s.validator_pools
      → IsBalanced s.unbonding
      → All (IsPayable currency) (unbondings_of a s.unbonding)
      → n < shares_in pool s.validator_pools
      → shares_in pool s.validator_pools ≤ u128_max
      → s.validator_pools.total_balance ≤ u128_max
      → s.unbonding.total_unbonding_balance + s.validator_pools.total_balance ≤ u128_max
      → h ≤ u128_max
      → do_remove_validator_delegate_stake (Origin.signed a) pool n s ≡ (ok tt, s')
      → let x = balance_for pool n s.validator_pools in
        IsGiven a pool x n s'.validator_pools s.validator_pools
        × IsOwed a (claim_block (cooldown s) s.block_number) x s.unbonding s'.unbonding
        × (liquid s' + s'.validator_pools.total_balance
            ≡ liquid s + s.validator_pools.total_balance)
        × IsBacked s'.validator_pools
        × IsBalanced s'.unbonding
        × (balance_for pool h s.validator_pools ≤ balance_for pool h s'.validator_pools)
  do_remove_validator_delegate_stake_lem a pool n h s s' backed balanced payable left fits
        total_fits ledger_fits h_fits done =
      let p = s.validator_pools in
      let x = balance_for pool n p in
      let taken = do_remove_validator_delegate_stake-IsWithdrawn a pool n s s' done in
      let in_total = balance_in-le-sum pool p in
      let covered : x ≤ balance_in pool p =
        convert_to_balance-le n (shares_in pool p) (balance_in pool p) (omega arith) (omega arith)
          fits (omega (arith, backed.total_lem)) in
      let (ledger, moved) =
        insert-after-prepare laws a s balanced payable x (cooldown s) s.block_number
          (omega (arith, backed.total_lem)) in
      rw (taken.pools, taken.ledger, taken.balances_lem)
        (
          decrease_account-IsGiven a pool x n p taken.enough (omega arith) covered,
          insert_unbonding-IsOwed laws a s balanced payable (cooldown s) s.block_number x
              (omega (arith, covered, in_total, backed.total_lem)),
          omega (arith, moved, total-decrease a pool x n p, backed.total_lem),
          decrease_account-IsBacked a pool x n p backed taken.enough covered,
          ledger,
          withdrawal_keeps_value a pool n h p left fits (omega (arith, backed.total_lem)) h_fits,
        )
