-- ===== src/Shares.antt =====
-- The price of a share of a delegate pool: `convert_to_shares` and `convert_to_balance` of
-- pallets/network/src/stake/staking_utils.rs, over `checked_mul_div` in 256 bits.
use hypertensor_blockchain.Common.{ℕ, ◌+◌, none, some, ◌==◌, if◌then◌else◌, u128_max, Option}
use hypertensor_blockchain.Math.{to_u128_or_max, checked_mul_div}
pub mod Price

-- `MIN_LIQUIDITY`, the dead shares of a first deposit
abbrev pub min_liquidity : ℕ
min_liquidity = 1000

-- `.and_then(|res| res.try_into().ok()).unwrap_or(u128::MAX)`
abbrev pub quotient_or_max : Option ℕ → ℕ
quotient_or_max none = u128_max
quotient_or_max (some q) = to_u128_or_max q

unfoldable pub convert_to_shares : ℕ → ℕ → ℕ → ℕ
convert_to_shares balance total_shares total_balance =
    if total_shares == 0
    then balance
    else quotient_or_max (checked_mul_div balance (total_shares + 10) (total_balance + 1))

unfoldable pub convert_to_balance : ℕ → ℕ → ℕ → ℕ
convert_to_balance shares total_shares total_balance =
    if total_shares == 0
    then shares
    else quotient_or_max (checked_mul_div shares (total_balance + 1) (total_shares + 10))
