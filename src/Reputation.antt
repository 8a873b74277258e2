-- ===== src/Reputation.antt =====
-- Reputation of validators, subnets and nodes (pallets/network/src/utilities/reputation.rs), in
-- units of 1e-18: an increase moves a reputation towards 1.0, a decrease towards 0. Events are left
-- out.
use hypertensor_blockchain.Common.{
  ℕ, ◌+◌, ◌*◌, ◌/◌, not, Option, none, some, min, ltb, leb, ◌==◌, if◌then◌else◌, saturating_add,
  saturating_sub, saturating_add_u32, add_u32, is_some, u128_max,
}
use hypertensor_blockchain.Common.Map
use hypertensor_blockchain.Common.Map.{Map}
use hypertensor_blockchain.Math.{percentage_factor, percent_mul, percent_div}
use hypertensor_blockchain.Math.Floats.{Floats, get_percent_as_f64, percentage_factor_as_f64}
use hypertensor_blockchain.State.{lookup_double, insert_at}
use hypertensor_blockchain.Nodes.{Reputation}
use hypertensor_blockchain.Nodes.Removal.{reputation_of}
pub mod Decrease
pub mod Mean
pub mod Average

pub record SubnetReputationFactors : Type 0 where
  pub absent_decrease : ℕ
  pub included_increase : ℕ
  pub below_min_weight_decrease : ℕ
  pub non_attestor_decrease : ℕ
  pub non_consensus_attestor_decrease : ℕ
  pub validator_absent_decrease : ℕ
  pub validator_non_consensus_decrease : ℕ

pub record PendingSubnetReputationFactors : Type 0 where
  pub effective_subnet_epoch : ℕ
  pub factors : SubnetReputationFactors

pub record SubnetReputationFactorSchedule : Type 0 where
  pub current : SubnetReputationFactors
  pub pending : Option PendingSubnetReputationFactors

unfoldable pub factors_for_epoch : ℕ → SubnetReputationFactorSchedule → SubnetReputationFactors
factors_for_epoch evaluated_subnet_epoch s = elim s.pending [
  | none ↦ s.current
  | some p ↦ if leb p.effective_subnet_epoch evaluated_subnet_epoch then p.factors else s.current
]

unfoldable pub pending_after :
    ℕ → SubnetReputationFactorSchedule → Option PendingSubnetReputationFactors
pending_after current_subnet_epoch s = elim s.pending [
  | none ↦ none
  | some p ↦ if ltb current_subnet_epoch p.effective_subnet_epoch then some p else none
]

abbrev pub unwrap_or : Option ℕ → ℕ → ℕ
unwrap_or none d = d
unwrap_or (some v) d = v

unfoldable pub decrease_rep : ℕ → ℕ → Option ℕ → ℕ
decrease_rep prev_reputation factor_1 factor_2 =
    if prev_reputation == 0
    then prev_reputation
    else let factor = percent_mul factor_1 (unwrap_or factor_2 percentage_factor) in
      let delta = percent_mul prev_reputation factor in
      min (saturating_sub prev_reputation delta) percentage_factor

unfoldable pub get_non_consensus_attestor_factor : ℕ → ℕ → ℕ → ℕ → ℕ
get_non_consensus_attestor_factor decrease_factor attestation_ratio min_attestation factor =
    percent_mul decrease_factor
      (saturating_sub factor (percent_div attestation_ratio min_attestation))

-- The mean of one more attestation ratio, where the counts include it already.
unfoldable pub next_average : ℕ → ℕ → ℕ → ℕ → ℕ
next_average average total_increases total_decreases attestation_percentage =
    let prev_total = saturating_sub (saturating_add_u32 total_increases total_decreases) 1 in
    if prev_total == 0
    then attestation_percentage
    else saturating_add (min (average * prev_total) u128_max) attestation_percentage
      / (prev_total + 1)

-- The last part of both updates of a validator: the epochs and the mean.
unfoldable pub with_attestation : ℕ → ℕ → Reputation → Reputation
with_attestation attestation_percentage epoch r = record r {
  last_validator_epoch = epoch;
  start_epoch = if r.start_epoch == 0 then epoch else r.start_epoch;
  average_attestation =
      next_average r.average_attestation r.total_increases r.total_decreases attestation_percentage;
}

unfoldable pub decrease_validator_reputation : ℕ → ℕ → ℕ → ℕ → ℕ → Map Reputation → Map Reputation
decrease_validator_reputation validator_id attestation min_attestation factor epoch m =
    if not (Map.contains_key validator_id m)
    then m
    else if leb min_attestation attestation
    then m
    else let r = reputation_of validator_id m in
      let r' = record r {
        score = decrease_rep r.score factor none;
        total_decreases = add_u32 r.total_decreases 1;
      } in
      Map.insert validator_id (with_attestation attestation epoch r') m

unfoldable pub decrease_subnet_reputation : ℕ → ℕ → Option ℕ → Map ℕ → Map ℕ
decrease_subnet_reputation subnet_id factor_1 factor_2 m =
    Map.insert subnet_id (decrease_rep (Map.get_or percentage_factor subnet_id m) factor_1 factor_2)
      m

-- The new reputation counts from the one that is passed, not from the one in storage.
unfoldable pub decrease_and_return_node_reputation :
    ℕ → ℕ → ℕ → ℕ → Option ℕ → Map (Map ℕ) → ℕ × Map (Map ℕ)
decrease_and_return_node_reputation subnet_id subnet_node_id current factor_1 factor_2 m =
    if is_some (lookup_double subnet_id subnet_node_id m)
    then (let r = decrease_rep current factor_1 factor_2 in
        (r, insert_at subnet_id subnet_node_id r m))
    else (current, m)

module _ {F : Type 0} (floats : Floats F) where
  unfoldable pub increase_rep : ℕ → ℕ → Option ℕ → ℕ
  increase_rep prev_reputation factor_1 factor_2 =
      if prev_reputation == percentage_factor
      then prev_reputation
      else let factor = percent_mul factor_1 (unwrap_or factor_2 percentage_factor) in
        let one_f64 = get_percent_as_f64 floats percentage_factor in
        let factor_f64 = get_percent_as_f64 floats factor in
        let prev_reputation_f64 = get_percent_as_f64 floats prev_reputation in
        let x = floats.pow prev_reputation_f64 (floats.add one_f64 factor_f64) in
        let increase = floats.mul x factor_f64 in
        min
          (floats.as_u128 (
            floats.mul (floats.add prev_reputation_f64 increase) (percentage_factor_as_f64 floats)))
          percentage_factor

  unfoldable pub increase_validator_reputation : ℕ → ℕ → ℕ → ℕ → ℕ → Map Reputation → Map Reputation
  increase_validator_reputation validator_id attestation min_attestation factor epoch m =
      if not (Map.contains_key validator_id m)
      then m
      else if ltb attestation min_attestation
      then m
      else let r = reputation_of validator_id m in
        let r' = record r {
          score = increase_rep r.score factor none;
          total_increases = add_u32 r.total_increases 1;
        } in
        Map.insert validator_id (with_attestation attestation epoch r') m

  unfoldable pub increase_subnet_reputation : ℕ → ℕ → ℕ → Map ℕ → Map ℕ
  increase_subnet_reputation subnet_id factor_1 factor_2 m =
      Map.insert subnet_id
        (increase_rep (Map.get_or percentage_factor subnet_id m) factor_1 (some factor_2)) m

  unfoldable pub increase_node_reputation : ℕ → ℕ → ℕ → Map (Map ℕ) → Map (Map ℕ)
  increase_node_reputation subnet_id subnet_node_id factor m =
      elim (lookup_double subnet_id subnet_node_id m) [
        | none ↦ m
        | some r ↦ insert_at subnet_id subnet_node_id (increase_rep r factor none) m
      ]

  unfoldable pub increase_and_return_node_reputation :
      ℕ → ℕ → ℕ → ℕ → Option ℕ → Map (Map ℕ) → ℕ × Map (Map ℕ)
  increase_and_return_node_reputation subnet_id subnet_node_id current factor_1 factor_2 m =
      if is_some (lookup_double subnet_id subnet_node_id m)
      then (let r = increase_rep current factor_1 factor_2 in
          (r, insert_at subnet_id subnet_node_id r m))
      else (current, m)
