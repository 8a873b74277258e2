-- ===== src/Epochs/Periods.antt =====
-- The overwatch epoch has a commit period first and a reveal period after it.
use hypertensor_blockchain.Common.{ℕ, ◌+◌, ◌*◌, ◌≤◌, ◌<◌, ◌≡◌, ◌↔◌, true, false, arith, u32_mod}
use hypertensor_blockchain.Math.{percentage_factor, percent_mul}
use hypertensor_blockchain.Math.Exact.{percent_mul-le}
use hypertensor_blockchain.Epochs.{
  Clock, overwatch_epoch_length, get_current_overwatch_epoch_as_u32, in_overwatch_commit_period,
}
use hypertensor_blockchain.Epochs.Progress.{epoch_blocks}

-- The first block of the reveal period of the current overwatch epoch.
abbrev pub cutoff_block : Clock → ℕ
cutoff_block c =
    overwatch_epoch_length c * get_current_overwatch_epoch_as_u32 c
    + percent_mul (overwatch_epoch_length c) c.overwatch_commit_cutoff_percent

-- Where the overwatch epoch has a length above 0, the cutoff is at most 100%, and the end of the
-- epoch is a u32: the commit period is the blocks before the cutoff block, which lies between the
-- first block of the epoch and the first block of the next one.
pub in_overwatch_commit_period_lem :
    (c : Clock)
    → 0 < overwatch_epoch_length c
    → c.overwatch_commit_cutoff_percent ≤ percentage_factor
    → overwatch_epoch_length c * (get_current_overwatch_epoch_as_u32 c + 1) < u32_mod
    → ((in_overwatch_commit_period c ≡ true) ↔ (c.block_number < cutoff_block c))
      × (overwatch_epoch_length c * get_current_overwatch_epoch_as_u32 c ≤ cutoff_block c)
      × (cutoff_block c ≤ overwatch_epoch_length c * (get_current_overwatch_epoch_as_u32 c + 1))
      × (overwatch_epoch_length c * get_current_overwatch_epoch_as_u32 c ≤ c.block_number)
      × (c.block_number < overwatch_epoch_length c * (get_current_overwatch_epoch_as_u32 c + 1))
unfolding in_overwatch_commit_period get_current_overwatch_epoch_as_u32
in_overwatch_commit_period_lem c length cut fits =
    let L = overwatch_epoch_length c in
    let blocks = epoch_blocks c.block_number L length in
    let part = percent_mul-le L c.overwatch_commit_cutoff_percent (omega arith) cut in
    (ground arith, omega arith, ground arith, omega arith, omega arith)

-- A block, after another of the same overwatch epoch.
abbrev pub IsLater : Clock → Clock → Type 0
IsLater c c' =
    (c.block_number ≤ c'.block_number)
    × (get_current_overwatch_epoch_as_u32 c' ≡ get_current_overwatch_epoch_as_u32 c)
    × (c'.epoch_length ≡ c.epoch_length)
    × (c'.overwatch_epoch_length_multiplier ≡ c.overwatch_epoch_length_multiplier)
    × (c'.overwatch_commit_cutoff_percent ≡ c.overwatch_commit_cutoff_percent)

-- Within an overwatch epoch, once the commit period has ended it does not begin again.
pub reveal_period_stays :
    (c c' : Clock)
    → IsLater c c'
    → in_overwatch_commit_period c ≡ false
    → in_overwatch_commit_period c' ≡ false
unfolding in_overwatch_commit_period get_current_overwatch_epoch_as_u32
reveal_period_stays c c' (le, e, l, m, p) h = ground arith
