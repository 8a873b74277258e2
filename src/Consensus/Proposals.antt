-- ===== src/Consensus/Proposals.antt =====
-- What a proposal tests and stores.
use hypertensor_blockchain.Common.{
  ℕ, Bool, false, ◌&&◌, leb, if◌then◌else◌, ◌∷◌, ◌≡◌, ◌==◌, List, [], Option, none, some, refl,
  arith, inl, inr, Option-cases,
}
use hypertensor_blockchain.Common.Map
use hypertensor_blockchain.Math.{percentage_factor}
use hypertensor_blockchain.Math.Floats.{Floats}
use hypertensor_blockchain.State.{Error, ok, err, Result-cases, lookup_double, insert_at}
use hypertensor_blockchain.Epochs.{
  SubnetEpochData, get_current_subnet_epoch_data, get_current_subnet_epoch_as_u32,
}
use hypertensor_blockchain.Common.BTreeMap
use hypertensor_blockchain.Common.BTreeMap.{BTreeMap, IsSorted}
use hypertensor_blockchain.Nodes.{
  Nodes, rank, has_classification, get_subnet_node_associated_hotkey,
}
use hypertensor_blockchain.Nodes.Electable.{is_electable}
use hypertensor_blockchain.Nodes.Slots.{contains}
use hypertensor_blockchain.Consensus.{
  Consensus, ConsensusData, SubnetNodeConsensusData, lowest_scores,
}
use hypertensor_blockchain.Consensus.Canonical.{
  IsAscending, lowest, entries_of, canonicalize_consensus_data_entries_lem,
  canonicalize_consensus_validator_ids_lem,
}
use hypertensor_blockchain.Consensus.Submissions.{
  Proposal, attesting_ids, included_entries, canonicalize_consensus_data_for_submission,
  new_submission, do_propose_attestation,
}

-- The submission of a subnet and an epoch, and the state with another in its place.
abbrev pub submission_at : ℕ → ℕ → Consensus → Option ConsensusData
submission_at s epoch c = lookup_double s epoch c.subnet_consensus_submission

abbrev pub with_submission : ℕ → ℕ → ConsensusData → Consensus → Consensus
with_submission s epoch sub c = record c {
  subnet_consensus_submission = insert_at s epoch sub c.subnet_consensus_submission;
}

-- Is the node active, of class Included or Validator, and has its class begun?
abbrev pub may_score : ℕ → ℕ → ℕ → Nodes → Bool
may_score s epoch k n = elim (lookup_double s k n.subnet_nodes_data) [
  | none ↦ false
  | some node ↦
      leb 2 (rank node.classification.node_class) && leb node.classification.start_epoch epoch
]

-- Does the node stand in the emergency set or, where there is none, in an election slot?
abbrev pub may_attest : ℕ → ℕ → Nodes → Bool
may_attest s k n = elim (Map.lookup s n.emergency_subnet_node_election_data) [
  | some e ↦ contains k e.subnet_node_ids
  | none ↦ is_electable s n.slots k
]

lowest-included_entries :
    (s epoch k : ℕ) (n : Nodes) (xs : List SubnetNodeConsensusData)
    → lowest k (included_entries s epoch n xs)
      ≡ (if may_score s epoch k n then lowest k xs else none)
unfolding lowest included_entries has_classification
lowest-included_entries s epoch k n [] = ground arith
lowest-included_entries s epoch k n (x ∷ xs) =
    ground (arith, lowest-included_entries s epoch k n xs)

-- The epoch of the data is the epoch.
pub subnet_epoch-eq :
    (s : ℕ) (c : Consensus) (d : SubnetEpochData)
    → get_current_subnet_epoch_data s c.clock ≡ some d
    → d.subnet_epoch ≡ get_current_subnet_epoch_as_u32 s c.clock
unfolding get_current_subnet_epoch_data get_current_subnet_epoch_as_u32
subnet_epoch-eq s c d h = ground arith

module _ {F : Type 0} (floats : Floats F) (hotkey s x : ℕ) (p : Proposal) (c : Consensus) where
  abbrev epoch : ℕ
  epoch = get_current_subnet_epoch_as_u32 s c.clock

  -- What a proposal has tested of `c`, and stored as `sub` in `c'`.
  pub record IsProposed (c' : Consensus) (sub : ConsensusData) : Type 0 where
    pub authorized : get_subnet_node_associated_hotkey s x c.nodes ≡ ok hotkey
    pub elected : lookup_double s epoch c.subnet_elected_validator ≡ some x
    pub fresh : submission_at s epoch c ≡ none
    pub stored : c' ≡ with_submission s epoch sub c
    pub proposer : sub.validator_id ≡ x
    pub proposed_at : sub.block ≡ c.clock.block_number
    pub args : sub.args ≡ p.args
    pub own_attestation :
        Map.lookup x sub.attests
        ≡ some (record {
          block = c.clock.block_number;
          attestor_progress = 0;
          reward_factor = percentage_factor;
          attest_data = p.attest_data;
        })
    pub attested : (n : ℕ) → Map.contains_key n sub.attests ≡ (n == x)
    pub ascending : IsAscending sub.validator_ids
    pub validators : (k : ℕ) → contains k sub.validator_ids ≡ may_attest s k c.nodes
    pub score_of : BTreeMap
    pub sorted : IsSorted score_of
    pub listed : sub.scores ≡ entries_of score_of
    pub scored :
        (k : ℕ)
        → BTreeMap.lookup k score_of
          ≡ (if may_score s epoch k c.nodes then lowest k p.scores else none)

  module _ (d : SubnetEpochData) (scores : List SubnetNodeConsensusData × ℕ) (c' : Consensus)
      (at : get_current_subnet_epoch_data s c.clock ≡ some d)
      (canonical : canonicalize_consensus_data_for_submission s d.subnet_epoch p.scores c.nodes
        ≡ ok scores)
      (h : do_propose_attestation floats hotkey s x p c ≡ (ok tt, c')) where
    abbrev sub : ConsensusData
    sub = new_submission floats s x d scores.0 p c

    tested :
        (get_subnet_node_associated_hotkey s x c.nodes ≡ ok hotkey)
        × (lookup_double s epoch c.subnet_elected_validator ≡ some x)
        × (submission_at s epoch c ≡ none)
        × (c' ≡ with_submission s epoch sub c)
    unfolding do_propose_attestation
    tested = let same = subnet_epoch-eq s c d at in ground arith

    submitted_scores :
        scores.0 ≡ entries_of (lowest_scores (included_entries s epoch c.nodes p.scores) [])
    unfolding canonicalize_consensus_data_for_submission
    submitted_scores =
        let same = subnet_epoch-eq s c d at in
        let entries = included_entries s d.subnet_epoch c.nodes p.scores in
        ground (arith, (canonicalize_consensus_data_entries_lem entries).2)

    new_submission-IsProposed : IsProposed c' sub
    unfolding new_submission Map.lookup
    new_submission-IsProposed =
        let ids = canonicalize_consensus_validator_ids_lem (attesting_ids s c.nodes) in
        let entries = included_entries s epoch c.nodes p.scores in
        let canonical_lem = canonicalize_consensus_data_entries_lem entries in
        record {
          authorized = tested.0;
          elected = tested.1;
          fresh = tested.2;
          stored = tested.3;
          proposer = refl;
          proposed_at = refl;
          args = refl;
          own_attestation = ground arith;
          attested = λ n. ground arith;
          ascending = ids.0;
          validators = λ k. ground (arith, ids.1 k);
          score_of = lowest_scores entries [];
          sorted = canonical_lem.0;
          listed = submitted_scores;
          scored = λ k.
              ground (arith, canonical_lem.1 k, lowest-included_entries s epoch k c.nodes p.scores);
        }

  -- A successful proposal was made with the hotkey of the elected validator of the subnet's epoch,
  -- in which there was no submission; it adds one submission and changes nothing else: the proposer
  -- alone attests to it, in this block and with the full reward factor; it keeps the arguments
  -- given; its validators are the nodes of the emergency set or, where there is none, those in an
  -- election slot, each once and in ascending order; and its scores are, in ascending order of the
  -- nodes, one for each node that the proposal scores and that is active and of class Included or
  -- Validator since this epoch or before, the lowest that the proposal gives it.
  pub do_propose_attestation-IsProposed :
      (c' : Consensus)
      → do_propose_attestation floats hotkey s x p c ≡ (ok tt, c')
      → (sub : ConsensusData) × IsProposed c' sub
  unfolding do_propose_attestation
  do_propose_attestation-IsProposed c' h =
      elim (Option-cases (get_current_subnet_epoch_data s c.clock)) [
        | inl nothing ↦ absurd (ground arith)
        | inr (d, at) ↦
            elim (Result-cases
              (canonicalize_consensus_data_for_submission s d.subnet_epoch p.scores c.nodes)) [
                | inl (scores, canonical) ↦ (
                  new_submission floats s x d scores.0 p c,
                  new_submission-IsProposed d scores c' at canonical h,
                )
                | inr (e, bad) ↦ absurd (ground arith)
              ]
      ]

  -- A refused proposal changes nothing.
  pub do_propose_attestation_err :
      (e : Error) (c' : Consensus)
      → do_propose_attestation floats hotkey s x p c ≡ (err e, c')
      → c' ≡ c
  unfolding do_propose_attestation
  do_propose_attestation_err e c' h = ground arith
