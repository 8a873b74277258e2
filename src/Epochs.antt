-- ===== src/Epochs.antt =====
-- Epochs (pallets/network/src/utilities/era.rs): the epochs of the network, the epochs of a subnet,
-- which begin at the slot of the subnet, and the commit and reveal periods of the overwatch. A
-- division by an epoch length of 0 panics in the source; the theorems ask for a length above 0.
use hypertensor_blockchain.Common.{
  ℕ, ◌*◌, ◌/◌, ◌%◌, Bool, false, Option, none, some, ltb, leb, ◌==◌, if◌then◌else◌, saturating_sub,
  saturating_mul_u32, add_u32, mul_u32, as_u32,
}
use hypertensor_blockchain.Common.Map.{Map, get}
use hypertensor_blockchain.Math.{percentage_factor, percent_mul, percent_div}
pub mod Progress
pub mod Periods

-- The block number, and the storage that the epochs are computed from.
pub record Clock : Type 0 where
  pub block_number : ℕ
  -- `T::EpochLength`
  pub epoch_length : ℕ
  pub overwatch_epoch_length_multiplier : ℕ
  pub overwatch_commit_cutoff_percent : ℕ
  pub subnet_slot : Map ℕ

pub record SubnetEpochData : Type 0 where
  pub subnet_epoch : ℕ
  pub subnet_epoch_progression : ℕ

unfoldable pub get_current_epoch_as_u32 : Clock → ℕ
get_current_epoch_as_u32 c = c.block_number / c.epoch_length

abbrev pub overwatch_epoch_length : Clock → ℕ
overwatch_epoch_length c = saturating_mul_u32 c.epoch_length c.overwatch_epoch_length_multiplier

unfoldable pub get_current_overwatch_epoch_as_u32 : Clock → ℕ
get_current_overwatch_epoch_as_u32 c = c.block_number / overwatch_epoch_length c

unfoldable pub get_current_epochs_as_u32 : Clock → ℕ × ℕ
get_current_epochs_as_u32 c = (
  c.block_number / c.epoch_length,
  c.block_number / saturating_mul_u32 c.epoch_length c.overwatch_epoch_length_multiplier,
)

unfoldable pub get_current_epoch_with_block_as_u32 : ℕ → Clock → ℕ
get_current_epoch_with_block_as_u32 current_block c = current_block / c.epoch_length

unfoldable pub in_overwatch_commit_period : Clock → Bool
in_overwatch_commit_period c =
    let current_overwatch_epoch = c.block_number / overwatch_epoch_length c in
    let block_increase_cutoff =
      percent_mul (overwatch_epoch_length c) c.overwatch_commit_cutoff_percent in
    let epoch_cutoff_block =
      add_u32 (mul_u32 (overwatch_epoch_length c) current_overwatch_epoch)
        (as_u32 block_increase_cutoff) in
    ltb c.block_number epoch_cutoff_block

-- The slot of a subnet; 0 where there is none
abbrev pub subnet_slot_of : ℕ → Clock → ℕ
subnet_slot_of subnet_id c = get subnet_id c.subnet_slot

-- The blocks since the slot, in epochs and in what is left over
abbrev pub offset_block : ℕ → Clock → ℕ
offset_block subnet_id c = saturating_sub c.block_number (subnet_slot_of subnet_id c)

unfoldable pub get_current_subnet_epoch_as_u32 : ℕ → Clock → ℕ
get_current_subnet_epoch_as_u32 subnet_id c =
    if subnet_slot_of subnet_id c == 0
    then 0
    else if ltb c.block_number (subnet_slot_of subnet_id c)
    then 0
    else offset_block subnet_id c / c.epoch_length

unfoldable pub get_subnet_epoch_progression : ℕ → Clock → ℕ
get_subnet_epoch_progression subnet_id c =
    if subnet_slot_of subnet_id c == 0
    then 0
    else if ltb c.block_number (subnet_slot_of subnet_id c)
    then 0
    else percent_div (offset_block subnet_id c % c.epoch_length) c.epoch_length

unfoldable pub can_propose_or_attest_attestation : ℕ → Clock → Bool
can_propose_or_attest_attestation subnet_id c =
    if subnet_slot_of subnet_id c == 0
    then false
    else if ltb c.block_number (subnet_slot_of subnet_id c)
    then false
    else let current_subnet_epoch = offset_block subnet_id c / c.epoch_length in
      let last_epoch_block =
        add_u32 (subnet_slot_of subnet_id c)
          (mul_u32 (add_u32 current_subnet_epoch 1) c.epoch_length) in
      ltb c.block_number last_epoch_block

-- How far the epoch of the proposal has run since its block; 1e18 from the next epoch on.
unfoldable pub attestor_subnet_epoch_data : ℕ → ℕ → Clock → Option SubnetEpochData
attestor_subnet_epoch_data subnet_id block_proposed c =
    if subnet_slot_of subnet_id c == 0
    then none
    else if ltb c.block_number block_proposed
    then none
    else let proposed_offset = saturating_sub block_proposed (subnet_slot_of subnet_id c) in
      let blocks_since_submission = saturating_sub c.block_number block_proposed in
      let remaining_blocks_in_epoch =
        saturating_sub c.epoch_length (proposed_offset % c.epoch_length) in
      some (record {
        subnet_epoch = proposed_offset / c.epoch_length;
        subnet_epoch_progression =
            if leb remaining_blocks_in_epoch blocks_since_submission
            then percentage_factor
            else percent_div blocks_since_submission remaining_blocks_in_epoch;
      })

unfoldable pub get_current_subnet_epoch_data : ℕ → Clock → Option SubnetEpochData
get_current_subnet_epoch_data subnet_id c =
    if subnet_slot_of subnet_id c == 0
    then none
    else if ltb c.block_number (subnet_slot_of subnet_id c)
    then none
    else some (record {
      subnet_epoch = offset_block subnet_id c / c.epoch_length;
      subnet_epoch_progression =
          percent_div (offset_block subnet_id c % c.epoch_length) c.epoch_length;
    })
