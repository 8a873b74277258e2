-- ===== src/Epochs/Progress.antt =====
-- The epoch of a subnet and how far it has run, at the present block and since a proposal.
use native.Mathlib.Nat.{div-add-mod, mod-lt}
use hypertensor_blockchain.Common.{
  ℕ, ◌+◌, ◌-◌, ◌*◌, ◌/◌, ◌%◌, ◌≤◌, ◌<◌, ◌≡◌, true, none, some, refl, leb, if◌then◌else◌, arith,
  u32_mod,
}
use hypertensor_blockchain.Common.Division.{div-lt}
use hypertensor_blockchain.Math.{percentage_factor, percent_div}
use hypertensor_blockchain.Math.Exact.{percent_div-eq-min, percent_div_mono}
use hypertensor_blockchain.Epochs.{
  Clock, subnet_slot_of, offset_block, get_current_subnet_epoch_as_u32,
  get_subnet_epoch_progression, can_propose_or_attest_attestation, attestor_subnet_epoch_data,
  get_current_subnet_epoch_data,
}

-- A proper part of a whole is less than 100% of it.
pub percent_div-lt : (n d : ℕ) → n < d → d ≤ percentage_factor → percent_div n d < percentage_factor
percent_div-lt n d h small =
    let below : n * percentage_factor / d < percentage_factor =
      div-lt d (omega arith) (omega arith) in
    omega (arith, (percent_div-eq-min n d (omega arith)).0)

percent_div-zero : (d : ℕ) → percent_div 0 d ≡ 0
unfolding percent_div
percent_div-zero d = refl

-- The blocks of an epoch.
pub epoch_blocks : (n d : ℕ) → 0 < d → (n / d * d ≤ n) × (n < (n / d + 1) * d) × (n % d < d)
epoch_blocks n d h = omega (arith, div-add-mod n d, mod-lt n h)

module _ (subnet_id : ℕ) (c : Clock) (length : 0 < c.epoch_length)
    (short : c.epoch_length ≤ percentage_factor) (slot : 0 < subnet_slot_of subnet_id c)
    (begun : subnet_slot_of subnet_id c ≤ c.block_number) where
  abbrev epoch_of_block : ℕ
  epoch_of_block = offset_block subnet_id c / c.epoch_length

  -- For a subnet whose slot has begun, with an epoch length from 1 to 1e18, the epoch data exist
  -- and are what the two single functions return; the present block lies in the blocks of that
  -- epoch, which are counted from the slot, and the progression is below 100%.
  pub get_current_subnet_epoch_data_lem :
      let epoch = get_current_subnet_epoch_as_u32 subnet_id c in
      let progression = get_subnet_epoch_progression subnet_id c in
      (get_current_subnet_epoch_data subnet_id c
        ≡ some (record { subnet_epoch = epoch; subnet_epoch_progression = progression }))
      × (subnet_slot_of subnet_id c + epoch * c.epoch_length ≤ c.block_number)
      × (c.block_number < subnet_slot_of subnet_id c + (epoch + 1) * c.epoch_length)
      × (progression < percentage_factor)
  unfolding get_current_subnet_epoch_as_u32 get_subnet_epoch_progression
      get_current_subnet_epoch_data
  get_current_subnet_epoch_data_lem =
      let n = offset_block subnet_id c in
      let blocks = epoch_blocks n c.epoch_length length in
      let part = percent_div-lt (n % c.epoch_length) c.epoch_length blocks.2 short in
      (ground arith, ground arith, ground arith, ground arith)

  -- Once the slot of a subnet has begun, `can_propose_or_attest_attestation` is always true, where
  -- the first block of the next epoch is a u32: the test against that block excludes no block.
  pub can_propose_or_attest_attestation_lem :
      subnet_slot_of subnet_id c + (epoch_of_block + 1) * c.epoch_length < u32_mod
      → can_propose_or_attest_attestation subnet_id c ≡ true
  unfolding can_propose_or_attest_attestation
  can_propose_or_attest_attestation_lem fits =
      let n = offset_block subnet_id c in
      let blocks = epoch_blocks n c.epoch_length length in ground arith

-- The progression of an attestation at block `b` of a proposal of block `p`.
abbrev pub attested_at : ℕ → ℕ → Clock → ℕ → ℕ
attested_at subnet_id p c b =
    elim (attestor_subnet_epoch_data subnet_id p (record c { block_number = b })) [
      | none ↦ 0
      | some d ↦ d.subnet_epoch_progression
    ]

module _ (subnet_id p : ℕ) (c : Clock) (length : 0 < c.epoch_length)
    (short : c.epoch_length ≤ percentage_factor) where
  abbrev left : ℕ
  left = c.epoch_length - (p - subnet_slot_of subnet_id c) % c.epoch_length

  left_bounds : (0 < left) × (left ≤ c.epoch_length)
  left_bounds = omega (arith, mod-lt (p - subnet_slot_of subnet_id c) length)

  attested_at-eq :
      (b : ℕ)
      → 0 < subnet_slot_of subnet_id c
      → p ≤ b
      → attested_at subnet_id p c b
        ≡ (if leb left (b - p) then percentage_factor else percent_div (b - p) left)
  unfolding attestor_subnet_epoch_data
  attested_at-eq b slot h = ground arith

  -- With an epoch length from 1 to 1e18, the progression of an attestation starts from 0 at the
  -- block of the proposal, never falls from one block to a later one, never exceeds 100%, and is
  -- 100% from the end of the proposal's epoch on.
  pub attestor_subnet_epoch_data_lem :
      (b b' : ℕ)
      → 0 < subnet_slot_of subnet_id c
      → p ≤ b
      → b ≤ b'
      → (attested_at subnet_id p c p ≡ 0)
        × (attested_at subnet_id p c b ≤ attested_at subnet_id p c b')
        × (attested_at subnet_id p c b' ≤ percentage_factor)
        × (p + left ≤ b' → attested_at subnet_id p c b' ≡ percentage_factor)
  attestor_subnet_epoch_data_lem b b' slot h le =
      let early = percent_div-lt (b - p) left in
      let late = percent_div-lt (b' - p) left in
      let rise = percent_div_mono (b - p) (b' - p) left in
      let at_start = percent_div-zero left in
      let now = attested_at-eq p slot (omega arith) in
      let at = attested_at-eq b slot h in
      let at' = attested_at-eq b' slot (omega arith) in
      (
        ground (arith, left_bounds),
        ground (arith, left_bounds),
        ground (arith, left_bounds),
        λ done. ground (arith, left_bounds),
      )
