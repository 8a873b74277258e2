-- ===== src/Consensus.antt =====
-- Consensus of a subnet (pallets/network/src/consensus/subnet_validator.rs): the elected validator
-- of an epoch proposes scores, the other validators attest to them, and a validator whose proposal
-- is not attested is slashed. Optional arguments of a subnet are only stored, and stand as numbers;
-- events and weights are left out.
use hypertensor_blockchain.Common.{
  ℕ, ◌+◌, Bool, true, false, ◌||◌, Option, none, some, List, [], ◌∷◌, min, ltb, leb, ◌==◌,
  if◌then◌else◌, u128_max, ◌++◌,
}
use hypertensor_blockchain.Common.Map.{Map}
use hypertensor_blockchain.Common.BTreeMap
use hypertensor_blockchain.Common.BTreeMap.{BTreeMap}
use hypertensor_blockchain.Math.{percentage_factor, percent_mul}
use hypertensor_blockchain.Math.Floats.{
  Floats, get_percent_as_f64, get_f64_as_percentage, sigmoid_decreasing, concave_down_decreasing,
  zero_f64, one_f64,
}
use hypertensor_blockchain.State.{NodeStake, Result, ok, err, score_overflow}
use hypertensor_blockchain.Epochs.{Clock}
use hypertensor_blockchain.Nodes.{Nodes, SubnetNode}
pub mod Submissions
pub mod Slash
pub mod Canonical
pub mod Queue
pub mod Proposals
pub mod Attestations
pub mod Steps
pub mod Slashed

pub record SubnetNodeConsensusData : Type 0 where
  pub subnet_node_id : ℕ
  pub score : ℕ

pub record AttestEntry : Type 0 where
  pub block : ℕ
  pub attestor_progress : ℕ
  pub reward_factor : ℕ
  pub attest_data : Option ℕ

pub record ConsensusData : Type 0 where
  pub validator_id : ℕ
  pub block : ℕ
  pub validator_epoch_progress : ℕ
  pub validator_reward_factor : ℕ
  pub validator_ids : List ℕ
  pub attests : Map AttestEntry
  pub subnet_nodes : List SubnetNode
  pub prioritize_queue_node_id : Option ℕ
  pub remove_queue_node_id : Option ℕ
  pub scores : List SubnetNodeConsensusData
  pub args : Option ℕ

pub record ConsensusParams : Type 0 where
  pub base_slash_percentage : ℕ
  pub max_slash_amount : ℕ
  pub min_attestation_percentage : ℕ
  pub base_validator_reward : ℕ
  pub validator_reward_k : ℕ
  pub validator_reward_midpoint : ℕ
  pub attestor_min_reward_factor : ℕ
  pub attestor_reward_exponent : ℕ
  pub queue_immunity_epochs : Map ℕ

-- `DefaultMinRegistrationQueueEpochs`, where a subnet has set no immunity
abbrev pub default_queue_immunity_epochs : ℕ
default_queue_immunity_epochs = 3

-- The storage that consensus reads and writes. The double maps are keyed by subnet, then epoch.
pub record Consensus : Type 0 where
  pub clock : Clock
  pub params : ConsensusParams
  pub nodes : Nodes
  pub node_stake : NodeStake
  pub subnet_elected_validator : Map (Map ℕ)
  pub subnet_consensus_submission : Map (Map ConsensusData)

-- The loop that keeps the lowest score of each node.
unfoldable pub lowest_scores : List SubnetNodeConsensusData → BTreeMap → BTreeMap
lowest_scores [] m = m
lowest_scores (entry ∷ rest) m = lowest_scores rest (elim (BTreeMap.lookup entry.subnet_node_id m) [
  | none ↦ BTreeMap.insert entry.subnet_node_id entry.score m
  | some score ↦
      if ltb entry.score score then BTreeMap.insert entry.subnet_node_id entry.score m else m
])

-- The loop that lists the scores and adds them up.
unfoldable pub sum_scores :
    BTreeMap → ℕ → List SubnetNodeConsensusData → Result (List SubnetNodeConsensusData × ℕ)
sum_scores [] weight_sum canonical_data = ok (canonical_data, weight_sum)
sum_scores ((k, v) ∷ m) weight_sum canonical_data =
    if ltb u128_max (weight_sum + v)
    then err score_overflow
    else sum_scores m (weight_sum + v)
        (canonical_data ++ (record { subnet_node_id = k; score = v } ∷ []))

unfoldable pub canonicalize_consensus_data_entries :
    List SubnetNodeConsensusData → Result (List SubnetNodeConsensusData × ℕ)
canonicalize_consensus_data_entries entries = sum_scores (lowest_scores entries []) 0 []

-- `sort_unstable`, as an insertion sort, and `dedup`, which drops what repeats its predecessor
unfoldable pub insert_sorted : ℕ → List ℕ → List ℕ
insert_sorted x [] = x ∷ []
insert_sorted x (y ∷ ys) = if leb x y then x ∷ y ∷ ys else y ∷ insert_sorted x ys

unfoldable pub sort : List ℕ → List ℕ
sort [] = []
sort (x ∷ xs) = insert_sorted x (sort xs)

unfoldable pub dedup : List ℕ → List ℕ
dedup [] = []
dedup (x ∷ []) = x ∷ []
dedup (x ∷ y ∷ ys) = let rest = dedup (y ∷ ys) in if x == y then rest else x ∷ rest

unfoldable pub canonicalize_consensus_validator_ids : List ℕ → List ℕ
canonicalize_consensus_validator_ids validator_ids = dedup (sort validator_ids)

-- A validator's share of the base reward, where its proposal was attested enough.
unfoldable pub get_validator_reward : ℕ → ℕ → ConsensusParams → ℕ
get_validator_reward attestation_percentage reward_factor p =
    if ltb attestation_percentage p.min_attestation_percentage
    then 0
    else percent_mul p.base_validator_reward reward_factor

module _ {F : Type 0} (floats : Floats F) where
  unfoldable pub get_validator_reward_multiplier : ℕ → ConsensusParams → ℕ
  get_validator_reward_multiplier progress p =
      min
        (get_f64_as_percentage floats (
          sigmoid_decreasing floats (get_percent_as_f64 floats progress)
            (get_percent_as_f64 floats p.validator_reward_midpoint)
            (floats.of_u128 p.validator_reward_k) (zero_f64 floats) (one_f64 floats)))
        percentage_factor

  unfoldable pub get_attestor_reward_multiplier : ℕ → ConsensusParams → ℕ
  get_attestor_reward_multiplier progress p =
      min
        (get_f64_as_percentage floats (
          concave_down_decreasing floats (get_percent_as_f64 floats progress)
            (get_percent_as_f64 floats p.attestor_min_reward_factor) (one_f64 floats)
            (floats.of_u128 p.attestor_reward_exponent)))
        percentage_factor
