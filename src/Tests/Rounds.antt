-- ===== src/Tests/Rounds.antt =====
-- A round of consensus: node 2 proposes, node 1 attests; and a slash of node 2.
use hypertensor_blockchain.Common.{
  ℕ, ◌+◌, ◌*◌, ◌^◌, ◌≤◌, ◌<◌, ◌≡◌, List, none, some, [], ◌∷◌, refl, arith, false, leb, u128_max,
  if◌then◌else◌,
}
use hypertensor_blockchain.Common.Map
use hypertensor_blockchain.Common.BTreeMap
use hypertensor_blockchain.Math.{percent_mul}
use hypertensor_blockchain.State.{ok, err, score_overflow, lookup_double}
use hypertensor_blockchain.NodeStake.{stake_of}
use hypertensor_blockchain.NodeStake.Totals.{IsTotalled}
use hypertensor_blockchain.Epochs.{
  get_current_subnet_epoch_as_u32, get_current_subnet_epoch_data, attestor_subnet_epoch_data,
}
use hypertensor_blockchain.Nodes.{SubnetNode, has_classification, get_subnet_node_associated_hotkey}
use hypertensor_blockchain.Nodes.Slots.{contains}
use hypertensor_blockchain.Nodes.Electable.{is_electable}
use hypertensor_blockchain.Nodes.Removed.{IsRegular, active_node}
use hypertensor_blockchain.Reputation.{decrease_rep}
use hypertensor_blockchain.Consensus.{
  Consensus, ConsensusData, AttestEntry, canonicalize_consensus_data_entries,
  canonicalize_consensus_validator_ids, lowest_scores, sum_scores, sort, insert_sorted, dedup,
}
use hypertensor_blockchain.Consensus.Submissions.{
  Proposal, do_propose_attestation, do_attest, new_submission, included_entries,
  canonicalize_consensus_data_for_submission, queue_choices,
}
use hypertensor_blockchain.Consensus.Canonical.{
  lowest, entries_of, canonicalize_consensus_data_entries_lem,
}
use hypertensor_blockchain.Consensus.Proposals.{IsProposed, do_propose_attestation-IsProposed}
use hypertensor_blockchain.Consensus.Attestations.{IsAttested, do_attest-IsAttested}
use hypertensor_blockchain.Consensus.Queue.{is_past_immunity, queue_choices_lem}
use hypertensor_blockchain.Consensus.Steps.{
  here, more, propose, attest, AllSound, IsKept, Reach-keeps,
}
use hypertensor_blockchain.Consensus.Slash.{get_slash_amount, attestation_delta, slash_validator}
use hypertensor_blockchain.Consensus.Slashed.{get_slash_amount_lem, slash_validator_lem}
use hypertensor_blockchain.Tests.Network.{
  fixed, node, consensus, consensus_params, consensus-AllSound, slots-IsIndexed, nodes-IsStaffed,
  stake-IsTotalled,
}

abbrev proposal : Proposal
proposal = record {
  scores =
      record { subnet_node_id = 3; score = 7 }
      ∷ record { subnet_node_id = 1; score = 5 }
      ∷ record { subnet_node_id = 3; score = 4 }
      ∷ [];
  prioritize_queue_node_id = none;
  remove_queue_node_id = none;
  args = none;
  attest_data = none;
}

canonicalize_consensus_data_entries_example :
    let m = lowest_scores proposal.scores [] in
    BTreeMap.IsSorted m
    × ((k : ℕ) → BTreeMap.lookup k m ≡ lowest k proposal.scores)
    × (canonicalize_consensus_data_entries proposal.scores ≡ (
        if leb (BTreeMap.values_sum m) u128_max
        then ok (entries_of m, BTreeMap.values_sum m)
        else err score_overflow))
canonicalize_consensus_data_entries_example =
    canonicalize_consensus_data_entries_lem proposal.scores

abbrev after_proposal : Consensus
after_proposal = (do_propose_attestation fixed 12 1 2 proposal consensus).1

proposed : do_propose_attestation fixed 12 1 2 proposal consensus ≡ (ok tt, after_proposal)
unfolding do_propose_attestation get_subnet_node_associated_hotkey get_current_subnet_epoch_data
    Map.lookup canonicalize_consensus_data_for_submission canonicalize_consensus_data_entries
    included_entries lowest_scores sum_scores BTreeMap.lookup BTreeMap.insert has_classification
proposed = refl

do_propose_attestation_example :
    (sub : ConsensusData) × IsProposed fixed 12 1 2 proposal consensus after_proposal sub
do_propose_attestation_example =
    do_propose_attestation-IsProposed fixed 12 1 2 proposal consensus after_proposal proposed

abbrev after_attestation : Consensus
after_attestation = (do_attest fixed 11 1 1 none after_proposal).1

attested : do_attest fixed 11 1 1 none after_proposal ≡ (ok tt, after_attestation)
unfolding do_propose_attestation get_subnet_node_associated_hotkey get_current_subnet_epoch_data
    get_current_subnet_epoch_as_u32 attestor_subnet_epoch_data do_attest new_submission Map.insert
    Map.lookup canonicalize_consensus_data_for_submission canonicalize_consensus_data_entries
    canonicalize_consensus_validator_ids sort insert_sorted dedup contains included_entries
    lowest_scores sum_scores BTreeMap.lookup BTreeMap.insert has_classification
attested = refl

do_attest_example :
    (sub : ConsensusData) × (entry : AttestEntry) × IsAttested fixed 11 1 1 none after_proposal
      after_attestation sub entry
do_attest_example = do_attest-IsAttested fixed 11 1 1 none after_proposal after_attestation attested

Reach-keeps_example : AllSound after_attestation × IsKept consensus after_attestation
Reach-keeps_example =
    Reach-keeps consensus-AllSound
      (more (more here (propose 12 1 2 proposal proposed)) (attest 11 1 1 none attested))

abbrev queue : List SubnetNode
queue = node 7 ∷ node 8 ∷ []

queue_choices_example : queue_choices (some 8) (some 7) 3 9 queue ≡ (some 8, some 7)
unfolding is_past_immunity
queue_choices_example = queue_choices_lem 3 9 (some 8) (some 7) queue (refl, (refl, tt))

get_slash_amount_example :
    let slash = λ (r : ℕ).
      get_slash_amount 700 r (66 * 10 ^ 16) (attestation_delta r (66 * 10 ^ 16)) consensus_params in
    (slash (10 ^ 17) ≤ 10 ^ 18)
    × (slash (10 ^ 17) ≤ percent_mul 700 (10 ^ 17))
    × (slash (10 ^ 17) ≤ 700)
    × (slash (2 * 10 ^ 17) ≤ slash (10 ^ 17))
get_slash_amount_example =
    get_slash_amount_lem 700 (10 ^ 17) (2 * 10 ^ 17) (66 * 10 ^ 16) consensus_params (omega arith)
      (omega arith) (omega arith) (omega arith)

abbrev slashed : Consensus
slashed = slash_validator 1 2 0 (66 * 10 ^ 16) (5 * 10 ^ 17) (10 ^ 17) 9 (5 * 10 ^ 17) consensus

slash_validator_example :
    (stake_of 2 1 slashed.node_stake
        + get_slash_amount 700 0
            (66 * 10 ^ 16)
            (attestation_delta 0 (66 * 10 ^ 16))
            consensus_params
      ≡ 700)
    × IsTotalled slashed.node_stake
    × IsRegular slashed.nodes
    × ((r v : ℕ)
        → lookup_double 1 2 consensus.nodes.subnet_node_reputation ≡ some r
        → lookup_double 1 2 consensus.nodes.subnet_node_validator_id ≡ some v
        → decrease_rep r (5 * 10 ^ 17) (some (attestation_delta 0 (66 * 10 ^ 16))) < 10 ^ 17
        → (active_node 1 2 slashed.nodes ≡ none) × (is_electable 1 slashed.nodes.slots 2 ≡ false))
unfolding Map.get_double Map.lookup
slash_validator_example =
    slash_validator_lem 1 2 0 (66 * 10 ^ 16) (5 * 10 ^ 17) (10 ^ 17) 9 (5 * 10 ^ 17) consensus
      (slots-IsIndexed, nodes-IsStaffed) (omega arith) stake-IsTotalled (omega arith) (omega arith)
      (omega arith)
