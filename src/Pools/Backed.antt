-- ===== src/Pools/Backed.antt =====
-- Every share that an account holds is a share of its pool, and the total balance is the sum of the
-- pools': the invariant, and what the operations on the pools keep of it.
use hypertensor_blockchain.Common.{
  ℕ, ◌+◌, ◌-◌, ◌≤◌, min, ◌≡◌, refl, inl, inr, Bool-cases, arith, u128_max, ◌==◌, if◌then◌else◌,
}
use hypertensor_blockchain.Common.Map
use hypertensor_blockchain.Common.Map.{column_sum}
use hypertensor_blockchain.State.{Pools}
use hypertensor_blockchain.Shares.{min_liquidity}
use hypertensor_blockchain.Pools.{
  shares_of, shares_in, balance_in, increase_account, decrease_account, mint_dead_shares, opened,
}

-- The shares of one pool that accounts hold.
abbrev pub held : ℕ → Pools → ℕ
held pool p = column_sum pool p.account_shares

abbrev pub balance_sum : Pools → ℕ
balance_sum p = Map.total_by (λ n. n) p.pool_balance

pub record IsBacked (p : Pools) : Type 0 where
  pub shares : (j : ℕ) → held j p ≤ shares_in j p
  pub total_lem : p.total_balance ≡ balance_sum p

pub shares_of-le-held : (account pool : ℕ) (p : Pools) → shares_of account pool p ≤ held pool p
shares_of-le-held account pool p = Map.get_double-le-column_sum account pool p.account_shares

pub balance_in-le-sum : (pool : ℕ) (p : Pools) → balance_in pool p ≤ balance_sum p
balance_in-le-sum pool p =
    ground (arith, Map.measure-le-total_by (λ (n : ℕ). n) pool p.pool_balance)

module _ (account pool amount n : ℕ) (p : Pools) where
  pub held-increase_account :
      (j : ℕ)
      → held pool p + n ≤ u128_max
      → held j (increase_account account pool amount n p) ≡ held j p + (if j == pool then n else 0)
  unfolding increase_account
  held-increase_account j fits =
      let m = p.account_shares in
      ground (
        arith,
        shares_of-le-held account pool p,
        Map.column_sum-insert_double j account pool (min (shares_of account pool p + n) u128_max) m,
      )

  pub held-decrease_account :
      (j : ℕ)
      → held j (decrease_account account pool amount n p)
        ≡ held j p - (if j == pool then min n (shares_of account pool p) else 0)
  unfolding decrease_account
  held-decrease_account j = ground (
    arith,
    shares_of-le-held account pool p,
    Map.column_sum-insert_double j account pool (shares_of account pool p - n) p.account_shares,
  )

  pub shares_in-increase_account :
      (j : ℕ)
      → shares_in j (increase_account account pool amount n p)
        ≡ (if j == pool then min (shares_in pool p + n) u128_max else shares_in j p)
  unfolding increase_account
  shares_in-increase_account j =
      ground (arith, Map.lookup-insert pool j (min (shares_in pool p + n) u128_max) p.pool_shares)

  pub balance_in-increase_account :
      (j : ℕ)
      → balance_in j (increase_account account pool amount n p)
        ≡ (if j == pool then min (balance_in pool p + amount) u128_max else balance_in j p)
  unfolding increase_account
  balance_in-increase_account j =
      ground
        (arith, Map.lookup-insert pool j (min (balance_in pool p + amount) u128_max) p.pool_balance)

  pub shares_in-decrease_account :
      (j : ℕ)
      → shares_in j (decrease_account account pool amount n p)
        ≡ (if j == pool then shares_in pool p - n else shares_in j p)
  unfolding decrease_account
  shares_in-decrease_account j =
      ground (arith, Map.lookup-insert pool j (shares_in pool p - n) p.pool_shares)

  pub balance_in-decrease_account :
      (j : ℕ)
      → balance_in j (decrease_account account pool amount n p)
        ≡ (if j == pool then balance_in pool p - amount else balance_in j p)
  unfolding decrease_account
  balance_in-decrease_account j =
      ground (arith, Map.lookup-insert pool j (balance_in pool p - amount) p.pool_balance)

  total-increase_account :
      p.total_balance ≡ balance_sum p
      → p.total_balance + amount ≤ u128_max
      → (increase_account account pool amount n p).total_balance
        ≡ balance_sum (increase_account account pool amount n p)
  unfolding increase_account
  total-increase_account e fits = ground (
    arith,
    balance_in-le-sum pool p,
    Map.total_by-insert (λ n. n) pool (min (balance_in pool p + amount) u128_max) p.pool_balance,
  )

  total-decrease_account :
      p.total_balance ≡ balance_sum p
      → amount ≤ balance_in pool p
      → (decrease_account account pool amount n p).total_balance
        ≡ balance_sum (decrease_account account pool amount n p)
  unfolding decrease_account
  total-decrease_account e covered =
      ground (arith, Map.total_by-insert (λ n. n) pool (balance_in pool p - amount) p.pool_balance)

  -- A deposit keeps the pools backed, if neither the shares nor the total overflow.
  pub increase_account-IsBacked :
      IsBacked p
      → shares_in pool p + n ≤ u128_max
      → p.total_balance + amount ≤ u128_max
      → IsBacked (increase_account account pool amount n p)
  increase_account-IsBacked h fits total_fits = record {
    shares = λ j.
        ground
          (arith, h.shares j, h.shares pool, held-increase_account j, shares_in-increase_account j);
    total_lem = total-increase_account h.total_lem total_fits;
  }

  -- A withdrawal of no more than the account's shares and the pool's balance keeps them backed.
  pub decrease_account-IsBacked :
      IsBacked p
      → n ≤ shares_of account pool p
      → amount ≤ balance_in pool p
      → IsBacked (decrease_account account pool amount n p)
  decrease_account-IsBacked h enough covered = record {
    shares = λ j. ground (
      arith,
      h.shares j,
      h.shares pool,
      shares_of-le-held account pool p,
      held-decrease_account j,
      shares_in-decrease_account j,
    );
    total_lem = total-decrease_account h.total_lem covered;
  }

-- Dead shares are backed by no account.
pub shares_in-mint_dead_shares :
    (pool j : ℕ) (p : Pools)
    → shares_in j (mint_dead_shares pool p)
      ≡ (if j == pool then min (shares_in pool p + min_liquidity) u128_max else shares_in j p)
unfolding mint_dead_shares
shares_in-mint_dead_shares pool j p = ground (
  arith,
  Map.lookup-insert pool j (min (shares_in pool p + min_liquidity) u128_max) p.pool_shares,
)

pub mint_dead_shares-frame :
    (pool : ℕ) (p : Pools)
    → mint_dead_shares pool p ≡ record p { pool_shares = (mint_dead_shares pool p).pool_shares }
unfolding mint_dead_shares
mint_dead_shares-frame pool p = refl

pub mint_dead_shares-IsBacked :
    (pool : ℕ) {p : Pools}
    → IsBacked p
    → shares_in pool p + min_liquidity ≤ u128_max
    → IsBacked (mint_dead_shares pool p)
mint_dead_shares-IsBacked pool {p} h fits = rw (mint_dead_shares-frame pool p) (record {
  shares = λ j. ground (arith, h.shares j, h.shares pool, shares_in-mint_dead_shares pool j p);
  total_lem = h.total_lem;
})

pub opened-IsBacked : (pool : ℕ) {p : Pools} → IsBacked p → IsBacked (opened pool p)
unfolding opened
opened-IsBacked pool {p} h = elim (Bool-cases (shares_in pool p == 0)) [
  | inl fresh ↦ rw (fresh, opened) (mint_dead_shares-IsBacked pool h (ground arith))
  | inr open_pool ↦ rw (open_pool, opened) h
]
