-- ===== src/Tests/Numbers.antt =====
-- Percentages, prices of shares and the multiplier.
use hypertensor_blockchain.Common.{◌+◌, ◌*◌, ◌/◌, ◌≤◌, ◌≡◌, min, arith, u128_max, u256_max}
use hypertensor_blockchain.Math.{percentage_factor, percent_mul, percent_div}
use hypertensor_blockchain.Math.Exact.{percents-eq-min, percent_mul-percent_div}
use hypertensor_blockchain.Shares.{convert_to_shares, convert_to_balance}
use hypertensor_blockchain.Shares.Price.{conversions_fair}

percents-eq-min_example :
    (percent_mul 1000 3 ≡ min (1000 * 3 / percentage_factor) u128_max)
    × (percent_div 1000 3 ≡ min (1000 * percentage_factor / 3) u128_max)
    × (1000 * 3 ≤ u256_max)
    × (1000 * percentage_factor ≤ u256_max)
percents-eq-min_example = percents-eq-min 1000 3 (omega arith) (omega arith)

percent_mul-percent_div_example :
    (percent_mul 3 (percent_div 1 3) ≤ 1) × (1 ≤ percent_mul 3 (percent_div 1 3) + 1)
percent_mul-percent_div_example =
    percent_mul-percent_div 1 3 (omega arith) (omega arith) (omega arith)

conversions_fair_example :
    (convert_to_shares 10000 901000 1000000 * (1000000 + 1) ≤ 10000 * (901000 + 10))
    × (convert_to_balance 5000 901000 1000000 * (901000 + 10) ≤ 5000 * (1000000 + 1))
    × (5000 ≤ 901000 → convert_to_balance 5000 901000 1000000 ≤ 1000000)
conversions_fair_example =
    conversions_fair 901000 1000000 10000 5000 (omega arith) (omega arith) (omega arith)
      (omega arith)
