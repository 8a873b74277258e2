-- ===== src/Pools/Moved.antt =====
-- What a deposit and a withdrawal change in the pools, account by account and pool by pool
-- (pallets/network/src/stake/delegate_staking.rs).
use hypertensor_blockchain.Common.{
  ℕ, ◌+◌, ◌-◌, ◌≤◌, ◌≡◌, min, arith, u128_max, ◌&&◌, ◌==◌, if◌then◌else◌,
}
use hypertensor_blockchain.Common.Map
use hypertensor_blockchain.State.{Pools}
use hypertensor_blockchain.Pools.{
  shares_of, shares_in, balance_in, increase_account, decrease_account,
}
use hypertensor_blockchain.Pools.Backed.{
  shares_in-increase_account, balance_in-increase_account, shares_in-decrease_account,
  balance_in-decrease_account,
}

-- `p'` is `p` with `n` more shares of one pool, which one account holds, and with `x` more balance
-- in that pool; no other account or pool differs. Read from `p'` to `p` it describes a withdrawal.
pub record IsGiven (account pool x n : ℕ) (p p' : Pools) : Type 0 where
  pub given :
      (b j : ℕ) → shares_of b j p' ≡ shares_of b j p + (if b == account && j == pool then n else 0)
  pub minted : (j : ℕ) → shares_in j p' ≡ shares_in j p + (if j == pool then n else 0)
  pub paid_in : (j : ℕ) → balance_in j p' ≡ balance_in j p + (if j == pool then x else 0)

module _ (account pool x n : ℕ) (p : Pools) where
  shares_of-increase_account :
      (b j : ℕ)
      → shares_of b j (increase_account account pool x n p) ≡ (
          if b == account && j == pool
          then min (shares_of account pool p + n) u128_max
          else shares_of b j p)
  unfolding increase_account
  shares_of-increase_account b j = ground (
    arith,
    Map.get_double-insert_double account pool b j (min (shares_of account pool p + n) u128_max)
        p.account_shares,
  )

  shares_of-decrease_account :
      (b j : ℕ)
      → shares_of b j (decrease_account account pool x n p)
        ≡ (if b == account && j == pool then shares_of account pool p - n else shares_of b j p)
  unfolding decrease_account
  shares_of-decrease_account b j = ground (
    arith,
    Map.get_double-insert_double account pool b j (shares_of account pool p - n) p.account_shares,
  )

  pub increase_account-IsGiven :
      shares_of account pool p + n ≤ u128_max
      → shares_in pool p + n ≤ u128_max
      → balance_in pool p + x ≤ u128_max
      → IsGiven account pool x n p (increase_account account pool x n p)
  increase_account-IsGiven held_fits shares_fit balance_fits = record {
    given = λ b j. ground (arith, shares_of-increase_account b j);
    minted = λ j. ground (arith, shares_in-increase_account account pool x n p j);
    paid_in = λ j. ground (arith, balance_in-increase_account account pool x n p j);
  }

  pub decrease_account-IsGiven :
      n ≤ shares_of account pool p
      → n ≤ shares_in pool p
      → x ≤ balance_in pool p
      → IsGiven account pool x n (decrease_account account pool x n p) p
  decrease_account-IsGiven enough few covered = record {
    given = λ b j. ground (arith, shares_of-decrease_account b j);
    minted = λ j. ground (arith, shares_in-decrease_account account pool x n p j);
    paid_in = λ j. ground (arith, balance_in-decrease_account account pool x n p j);
  }
