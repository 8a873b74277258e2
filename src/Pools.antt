-- ===== src/Pools.antt =====
-- Pools of delegate stake: accounts hold shares of a balance. The subnets' pools
-- (pallets/network/src/stake/delegate_staking.rs) and the validators'
-- (pallets/network/src/stake/validator_delegate_staking.rs) run the same code over storage of their
-- own, so that code is written once here, over the record `Pools`.
use hypertensor_blockchain.Common.{
  ℕ, ◌||◌, Bool, ◌==◌, if◌then◌else◌, saturating_add, saturating_sub,
}
use hypertensor_blockchain.Common.Map
use hypertensor_blockchain.Common.Map.{get_double, insert_double}
use hypertensor_blockchain.State.{Pools, Result, ok, err, could_not_convert_to_shares}
use hypertensor_blockchain.Shares.{min_liquidity, convert_to_shares, convert_to_balance}
pub mod Backed
pub mod Moved
pub mod Value

abbrev pub shares_of : ℕ → ℕ → Pools → ℕ
shares_of account pool p = get_double account pool p.account_shares

abbrev pub shares_in : ℕ → Pools → ℕ
shares_in pool p = Map.get pool p.pool_shares

abbrev pub balance_in : ℕ → Pools → ℕ
balance_in pool p = Map.get pool p.pool_balance

-- `increase_account_validator_delegate_stake`
unfoldable pub increase_account : ℕ → ℕ → ℕ → ℕ → Pools → Pools
increase_account account pool amount shares p = record {
  account_shares =
      insert_double account pool (saturating_add (shares_of account pool p) shares)
        p.account_shares;
  pool_shares = Map.insert pool (saturating_add (shares_in pool p) shares) p.pool_shares;
  pool_balance = Map.insert pool (saturating_add (balance_in pool p) amount) p.pool_balance;
  total_balance = saturating_add p.total_balance amount;
}

-- `decrease_account_validator_delegate_stake`
unfoldable pub decrease_account : ℕ → ℕ → ℕ → ℕ → Pools → Pools
decrease_account account pool amount shares p = record {
  account_shares =
      insert_double account pool (saturating_sub (shares_of account pool p) shares)
        p.account_shares;
  pool_shares = Map.insert pool (saturating_sub (shares_in pool p) shares) p.pool_shares;
  pool_balance = Map.insert pool (saturating_sub (balance_in pool p) amount) p.pool_balance;
  total_balance = saturating_sub p.total_balance amount;
}

-- The dead shares of a first deposit, which no account holds.
unfoldable pub mint_dead_shares : ℕ → Pools → Pools
mint_dead_shares pool p = record p {
  pool_shares = Map.insert pool (saturating_add (shares_in pool p) min_liquidity) p.pool_shares;
}

-- `do_increase_validator_delegate_stake`, for rewards and donations
unfoldable pub donate : ℕ → ℕ → Pools → Pools
donate pool amount p =
    let p' =
      if balance_in pool p == 0 || shares_in pool p == 0 then mint_dead_shares pool p else p in
    record p' {
      pool_balance = Map.insert pool (saturating_add (balance_in pool p') amount) p'.pool_balance;
      total_balance = saturating_add p'.total_balance amount;
    }

-- `match TotalShares::get(pool) { 0 => { mint; 0 } shares => shares }`
unfoldable pub opened : ℕ → Pools → Pools
opened pool p = if shares_in pool p == 0 then mint_dead_shares pool p else p

-- The shares that a deposit is given, at the price before it.
abbrev pub shares_for : ℕ → ℕ → Pools → ℕ
shares_for pool amount p = convert_to_shares amount (shares_in pool p) (balance_in pool p)

-- The balance that shares redeem for.
abbrev pub balance_for : ℕ → ℕ → Pools → ℕ
balance_for pool shares p = convert_to_balance shares (shares_in pool p) (balance_in pool p)
