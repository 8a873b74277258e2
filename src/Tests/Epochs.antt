-- ===== src/Tests/Epochs.antt =====
-- Epochs of the network, of a subnet and of the overwatch.
use hypertensor_blockchain.Common.{◌+◌, ◌*◌, ◌≤◌, ◌<◌, ◌≡◌, ◌↔◌, ◌^◌, true, some, arith}
use hypertensor_blockchain.Common.Map
use hypertensor_blockchain.Math.{percentage_factor, percent_div}
use hypertensor_blockchain.Epochs.{
  get_current_overwatch_epoch_as_u32, in_overwatch_commit_period, get_current_subnet_epoch_as_u32,
  get_subnet_epoch_progression, get_current_subnet_epoch_data,
}
use hypertensor_blockchain.Epochs.Progress.{
  attested_at, get_current_subnet_epoch_data_lem, attestor_subnet_epoch_data_lem,
}
use hypertensor_blockchain.Epochs.Periods.{cutoff_block, in_overwatch_commit_period_lem}
use hypertensor_blockchain.Tests.Network.{clock}

get_current_subnet_epoch_data_example :
    (get_current_subnet_epoch_data 1 clock
      ≡ some (record { subnet_epoch = 9; subnet_epoch_progression = 5 * 10 ^ 17 }))
    × (50 + 9 * 100 ≤ 1000)
    × (1000 < 50 + (9 + 1) * 100)
    × (5 * 10 ^ 17 < percentage_factor)
unfolding Map.lookup get_current_subnet_epoch_as_u32 get_subnet_epoch_progression percent_div
get_current_subnet_epoch_data_example =
    get_current_subnet_epoch_data_lem 1 clock (omega arith) (omega arith) (omega arith)
      (omega arith)

attestor_subnet_epoch_data_example :
    (attested_at 1 970 clock 970 ≡ 0)
    × (attested_at 1 970 clock 1000 ≤ attested_at 1 970 clock 1060)
    × (attested_at 1 970 clock 1060 ≤ percentage_factor)
    × (970 + 80 ≤ 1060 → attested_at 1 970 clock 1060 ≡ percentage_factor)
unfolding Map.lookup
attestor_subnet_epoch_data_example =
    attestor_subnet_epoch_data_lem 1 970 clock (omega arith) (omega arith) 1000 1060 (omega arith)
      (omega arith) (omega arith)

in_overwatch_commit_period_example :
    ((in_overwatch_commit_period clock ≡ true) ↔ (1000 < cutoff_block clock))
    × (1000 * 1 ≤ cutoff_block clock)
    × (cutoff_block clock ≤ 1000 * (1 + 1))
    × (1000 * 1 ≤ 1000)
    × (1000 < 1000 * (1 + 1))
unfolding get_current_overwatch_epoch_as_u32
in_overwatch_commit_period_example =
    in_overwatch_commit_period_lem clock (omega arith) (omega arith) (omega arith)
