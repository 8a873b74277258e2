-- ===== src/Rewards/Precheck.antt =====
-- What the rewards of an epoch start from (`precheck_subnet_consensus_submission` of
-- pallets/network/src/utilities/slot.rs), and the reward of the validator that proposed
-- (`handle_validator_reward` of pallets/network/src/bank/rewards.rs).
use hypertensor_blockchain.Common.{
  ℕ, ◌≤◌, ◌≡◌, Option, none, some, List, [], arith, min, u128_max, as_u32,
}
use hypertensor_blockchain.Common.Lists.{length}
use hypertensor_blockchain.Common.Map
use hypertensor_blockchain.Common.Map.{Map}
use hypertensor_blockchain.Common.BTreeMap.{values_sum}
use hypertensor_blockchain.Math.{percentage_factor, percent_div}
use hypertensor_blockchain.Math.Floats.{Floats}
use hypertensor_blockchain.State.{ok, err, lookup_double}
use hypertensor_blockchain.NodeStake.{increase_node_stake}
use hypertensor_blockchain.Nodes.{SubnetNode}
use hypertensor_blockchain.Reputation.{
  SubnetReputationFactorSchedule, factors_for_epoch, decrease_subnet_reputation,
  decrease_and_return_node_reputation, increase_validator_reputation,
}
use hypertensor_blockchain.Consensus.{
  Consensus, ConsensusData, SubnetNodeConsensusData, AttestEntry,
  canonicalize_consensus_validator_ids, canonicalize_consensus_data_entries, get_validator_reward,
  lowest_scores,
}
use hypertensor_blockchain.Consensus.Canonical.{entries_of, canonicalize_consensus_data_entries_lem}
use hypertensor_blockchain.Consensus.Proposals.{submission_at}

pub record ConsensusSubmissionData : Type 0 where
  pub validator_subnet_node_id : ℕ
  pub validator_epoch_progress : ℕ
  pub validator_reward_factor : ℕ
  pub attestation_ratio : ℕ
  pub weight_sum : ℕ
  pub data_length : ℕ
  pub scores : List SubnetNodeConsensusData
  pub attests : Map AttestEntry
  pub subnet_nodes : List SubnetNode
  pub prioritize_queue_node_id : Option ℕ
  pub remove_queue_node_id : Option ℕ

-- The storage of an epoch's end: that of consensus, and the reputations of subnets.
pub record Epoch : Type 0 where
  pub consensus : Consensus
  pub subnet_reputation : Map ℕ
  pub subnet_reputation_factor_schedules : Map SubnetReputationFactorSchedule
  pub default_schedule : SubnetReputationFactorSchedule
  pub validator_absent_subnet_reputation_factor : ℕ

-- The penalties of a subnet and its elected validator that submitted nothing.
unfoldable pub penalize_absence : ℕ → ℕ → ℕ → Epoch → Epoch
penalize_absence subnet_id prev_subnet_epoch validator_id e =
    let n = e.consensus.nodes in
    let factors =
      factors_for_epoch prev_subnet_epoch
        (Map.get_or e.default_schedule subnet_id e.subnet_reputation_factor_schedules) in
    let reputations : Map (Map ℕ) =
      elim (lookup_double subnet_id validator_id n.subnet_node_reputation) [
        | none ↦ n.subnet_node_reputation
        | some rep ↦
            (decrease_and_return_node_reputation subnet_id validator_id rep
              factors.validator_absent_decrease none n.subnet_node_reputation).1
      ] in
    record e {
      subnet_reputation =
          decrease_subnet_reputation subnet_id e.validator_absent_subnet_reputation_factor none
            e.subnet_reputation;
      consensus = record e.consensus { nodes = record n { subnet_node_reputation = reputations } };
    }

abbrev pub submission_data :
    ConsensusData → List SubnetNodeConsensusData × ℕ → ConsensusSubmissionData
submission_data s (scores, weight_sum) = record {
  validator_subnet_node_id = s.validator_id;
  validator_epoch_progress = s.validator_epoch_progress;
  validator_reward_factor = s.validator_reward_factor;
  attestation_ratio =
      min
        (percent_div (length s.attests)
          (length (canonicalize_consensus_validator_ids s.validator_ids)))
        percentage_factor;
  weight_sum = weight_sum;
  data_length = as_u32 (length scores);
  scores = scores;
  attests = s.attests;
  subnet_nodes = s.subnet_nodes;
  prioritize_queue_node_id = s.prioritize_queue_node_id;
  remove_queue_node_id = s.remove_queue_node_id;
}

unfoldable pub precheck_subnet_consensus_submission :
    ℕ → ℕ → Epoch → Option ConsensusSubmissionData × Epoch
precheck_subnet_consensus_submission subnet_id prev_subnet_epoch e =
    elim (submission_at subnet_id prev_subnet_epoch e.consensus) [
      | none ↦
          elim (lookup_double subnet_id prev_subnet_epoch e.consensus.subnet_elected_validator) [
            | none ↦ (none, e)
            | some v ↦ (none, penalize_absence subnet_id prev_subnet_epoch v e)
          ]
      | some s ↦ elim (canonicalize_consensus_data_entries s.scores) [
        | err _ ↦ (none, e)
        | ok data_and_sum ↦ (some (submission_data s data_and_sum), e)
      ]
    ]

unfoldable pub handle_validator_reward :
    {F : Type 0} → Floats F → ℕ → ℕ → ℕ → ConsensusSubmissionData → ℕ → ℕ → ℕ → Epoch → Epoch
handle_validator_reward floats v s x d least factor epoch e =
    let c = e.consensus in
    let reward = get_validator_reward d.attestation_ratio d.validator_reward_factor c.params in
    record e {
      consensus = record c {
        nodes = record c.nodes {
          validator_reputation =
              increase_validator_reputation floats v d.attestation_ratio least factor epoch
                c.nodes.validator_reputation;
        };
        node_stake = increase_node_stake x s reward c.node_stake;
      };
    }

-- Where a submission stands whose lowest scores add up to a u128, the check of it returns those
-- scores with their sum, and a ratio of attestations of at most 100%, and changes nothing.
pub precheck_lem :
    (s epoch : ℕ) (e : Epoch) (sub : ConsensusData)
    → submission_at s epoch e.consensus ≡ some sub
    → values_sum (lowest_scores sub.scores []) ≤ u128_max
    → let m = lowest_scores sub.scores [] in
      let d = submission_data sub (entries_of m, values_sum m) in
      (precheck_subnet_consensus_submission s epoch e ≡ (some d, e))
      × (d.attestation_ratio ≤ percentage_factor)
unfolding precheck_subnet_consensus_submission
precheck_lem s epoch e sub at fits =
    let canonical = (canonicalize_consensus_data_entries_lem sub.scores).2 in
    (ground arith, omega arith)
