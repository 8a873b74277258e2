-- ===== src/DelegateStake/Transfers.antt =====
-- Transfers of shares between accounts (`do_transfer_delegate_stake`,
-- pallets/network/src/stake/delegate_staking.rs).
use hypertensor_blockchain.Common.{
  ℕ, ◌+◌, ◌-◌, ◌≤◌, ◌<◌, min, ◌≡◌, ◌≢◌, arith, u128_max, ◌==◌, if◌then◌else◌,
}
use hypertensor_blockchain.Common.Map
use hypertensor_blockchain.State.{State, Pools, Origin, ok}
use hypertensor_blockchain.Pools.{
  shares_of, shares_in, balance_in, balance_for, increase_account, decrease_account,
}
use hypertensor_blockchain.Pools.Backed.{
  held, IsBacked, shares_of-le-held, held-increase_account, held-decrease_account,
  shares_in-increase_account, shares_in-decrease_account, balance_in-increase_account,
  balance_in-decrease_account, increase_account-IsBacked, decrease_account-IsBacked,
}
use hypertensor_blockchain.Pools.Value.{shares_in-withdrawal}
use hypertensor_blockchain.DelegateStake.{
  do_transfer_delegate_stake, increase_account_delegate_stake, decrease_account_delegate_stake,
}
use hypertensor_blockchain.DelegateStake.Calls.{do_transfer_delegate_stake-IsTransferred}

module _ (a pool b n : ℕ) (p : Pools) where
  abbrev moved : Pools
  moved = increase_account b pool 0 n (decrease_account a pool 0 n p)

  -- The accounts' shares after the two writes.
  shares_of-moved :
      (c : ℕ)
      → a ≢ b
      → shares_of b pool p + n ≤ u128_max
      → shares_of c pool moved ≡ (
          if c == a
          then shares_of a pool p - n
          else if c == b
          then shares_of b pool p + n
          else shares_of c pool p)
  unfolding increase_account decrease_account
  shares_of-moved c ne fits =
      let once = (decrease_account a pool 0 n p).account_shares in
      ground (
        arith,
        Map.get_double-insert_double a pool c pool (shares_of a pool p - n) p.account_shares,
        Map.get_double-insert_double a pool b pool (shares_of a pool p - n) p.account_shares,
        Map.get_double-insert_double b pool c pool
            (min (shares_of b pool (decrease_account a pool 0 n p) + n) u128_max) once,
      )

  -- All the shares of the pool that accounts hold, after the two writes.
  held-moved :
      held pool p + n ≤ u128_max + min n (shares_of a pool p)
      → held pool moved + min n (shares_of a pool p) ≡ held pool p + n
  held-moved fits =
      let once = decrease_account a pool 0 n p in
      ground (
        arith,
        shares_of-le-held a pool p,
        held-decrease_account a pool 0 n p pool,
        held-increase_account b pool 0 n once pool,
      )

  shares_in-moved :
      n ≤ shares_in pool p → shares_in pool p ≤ u128_max → shares_in pool moved ≡ shares_in pool p
  shares_in-moved le fits =
      let once = decrease_account a pool 0 n p in
      ground (
        arith,
        shares_in-decrease_account a pool 0 n p pool,
        shares_in-increase_account b pool 0 n once pool,
      )

  balance_in-moved : balance_in pool p ≤ u128_max → balance_in pool moved ≡ balance_in pool p
  balance_in-moved fits =
      let once = decrease_account a pool 0 n p in
      ground (
        arith,
        balance_in-decrease_account a pool 0 n p pool,
        balance_in-increase_account b pool 0 n once pool,
      )

  -- Two accounts hold no more than all.
  shares_of_two : a ≢ b → n ≤ shares_of a pool p → shares_of b pool p + n ≤ held pool p
  unfolding decrease_account
  shares_of_two ne enough =
      let once = decrease_account a pool 0 n p in
      ground (
        arith,
        Map.get_double-insert_double a pool b pool (shares_of a pool p - n) p.account_shares,
        shares_of-le-held a pool p,
        shares_of-le-held b pool once,
        held-decrease_account a pool 0 n p pool,
      )

  total-once :
      p.total_balance ≤ u128_max → (decrease_account a pool 0 n p).total_balance + 0 ≤ u128_max
  unfolding decrease_account
  total-once h = omega arith

  moved-IsBacked :
      IsBacked p
      → n ≤ shares_of a pool p
      → shares_in pool p ≤ u128_max
      → p.total_balance ≤ u128_max
      → IsBacked moved
  moved-IsBacked h enough fits total =
      let once = decrease_account a pool 0 n p in
      increase_account-IsBacked b pool 0 n once
        (decrease_account-IsBacked a pool 0 n p h enough (omega arith))
        (omega
          (arith, h.shares pool, shares_of-le-held a pool p, shares_in-withdrawal a pool 0 n p))
        (total-once total)

module _ {B : Type 0} (a pool b n : ℕ) (s s' : State B) where
  -- From backed pools of u128s, where the caller holds the shares: a successful transfer moves
  -- exactly them from the caller to another account and touches no third one, leaves all the shares
  -- held, the shares of the pool and its balance as they were, and leaves the pools backed.
  pub do_transfer_delegate_stake_lem :
      (c : ℕ)
      → IsBacked s.subnet_pools
      → shares_in pool s.subnet_pools ≤ u128_max
      → balance_in pool s.subnet_pools ≤ u128_max
      → s.subnet_pools.total_balance ≤ u128_max
      → n ≤ shares_of a pool s.subnet_pools
      → do_transfer_delegate_stake (Origin.signed a) pool b n s ≡ (ok tt, s')
      → let p = s.subnet_pools in
        let p' = s'.subnet_pools in
        (shares_of c pool p' ≡ (
          if c == a
          then shares_of a pool p - n
          else if c == b
          then shares_of b pool p + n
          else shares_of c pool p))
        × (held pool p' ≡ held pool p)
        × (shares_in pool p' ≡ shares_in pool p)
        × (balance_in pool p' ≡ balance_in pool p)
        × IsBacked p'
  do_transfer_delegate_stake_lem c backed fits balance_fits total_fits enough h =
      let p = s.subnet_pools in
      let done = do_transfer_delegate_stake-IsTransferred a pool b n s s' h in
      let two = shares_of_two a pool b n p done.distinct enough in
      let all = backed.shares pool in
      rw done.pools (
        shares_of-moved a pool b n p c done.distinct (omega arith),
        omega (arith, held-moved a pool b n p (omega arith)),
        shares_in-moved a pool b n p (omega (arith, shares_of-le-held a pool p)) fits,
        balance_in-moved a pool b n p balance_fits,
        moved-IsBacked a pool b n p backed enough fits total_fits,
      )

transfer_runs :
    {B : Type 0} (a pool b n : ℕ) (s : State B)
    → a ≢ b
    → 0 < n
    → s.params.min_delegate_stake_deposit ≤ balance_for pool n s.subnet_pools
    → let (r, s') = do_transfer_delegate_stake (Origin.signed a) pool b n s in
      (r ≡ ok tt)
      × (s'.subnet_pools ≡ increase_account b pool 0 n (decrease_account a pool 0 n s.subnet_pools))
unfolding do_transfer_delegate_stake increase_account_delegate_stake decrease_account_delegate_stake
transfer_runs a pool b n s ne pos worth = ground arith

-- For any caller and any other account, if n shares, above 0, redeem for the minimum deposit or
-- more, the pool has as many, and the pool's numbers stay u128s, but the caller holds fewer: the
-- transfer succeeds, and the shares held by accounts grow by the difference, while the shares of
-- the pool and its balance stay.
pub do_transfer_delegate_stake_mints :
    {B : Type 0} (a pool b n : ℕ) (s : State B)
    → a ≢ b
    → 0 < n
    → s.params.min_delegate_stake_deposit ≤ balance_for pool n s.subnet_pools
    → shares_of a pool s.subnet_pools < n
    → n ≤ shares_in pool s.subnet_pools
    → shares_in pool s.subnet_pools ≤ u128_max
    → balance_in pool s.subnet_pools ≤ u128_max
    → held pool s.subnet_pools + n ≤ u128_max
    → let (r, s') = do_transfer_delegate_stake (Origin.signed a) pool b n s in
      (r ≡ ok tt)
      × (held pool s'.subnet_pools
          ≡ held pool s.subnet_pools + (n - shares_of a pool s.subnet_pools))
      × (shares_in pool s'.subnet_pools ≡ shares_in pool s.subnet_pools)
      × (balance_in pool s'.subnet_pools ≡ balance_in pool s.subnet_pools)
do_transfer_delegate_stake_mints a pool b n s ne pos worth short le fits balance_fits held_fits =
    let p = s.subnet_pools in
    let (r, e) = transfer_runs a pool b n s ne pos worth in
    (
      r,
      rw e (omega (arith, held-moved a pool b n p (omega arith))),
      rw e (shares_in-moved a pool b n p le fits),
      rw e (balance_in-moved a pool b n p balance_fits),
    )
