-- ===== src/Consensus/Submissions.antt =====
-- The proposal of an epoch and the attestations to it: `do_propose_attestation` and `do_attest`.
use hypertensor_blockchain.Common.{
  ℕ, Bool, true, false, not, ◌||◌, ◌&&◌, Option, none, some, List, [], ◌∷◌, leb, ◌==◌,
  if◌then◌else◌, is_some, add_u32,
}
use hypertensor_blockchain.Common.Map
use hypertensor_blockchain.Common.Map.{Map}
use hypertensor_blockchain.Math.{percentage_factor}
use hypertensor_blockchain.Math.Floats.{Floats}
use hypertensor_blockchain.State.{
  Call, Result, ◌>>=◌, ◌>>◌, gets, modify, ensure, or_error, lookup_double, insert_at,
  invalid_validator, subnet_epoch_data_is_none, no_elected_validator, invalid_subnet_node_id,
  subnet_rewards_already_submitted, invalid_subnet_node_classification,
  invalid_subnet_consensus_submission, invalid_validator_id, already_attested,
}
use hypertensor_blockchain.Epochs.{
  SubnetEpochData, get_current_subnet_epoch_data, get_current_subnet_epoch_as_u32,
  attestor_subnet_epoch_data,
}
use hypertensor_blockchain.Nodes.{
  Nodes, SubnetNode, SubnetNodeClass, has_classification, get_subnet_node_associated_hotkey,
}
use hypertensor_blockchain.Nodes.Slots.{slots_of, contains}
use hypertensor_blockchain.Nodes.Removal.{get_active_classified_subnet_nodes}
use hypertensor_blockchain.Consensus.{
  Consensus, ConsensusData, SubnetNodeConsensusData, AttestEntry,
  canonicalize_consensus_data_entries, canonicalize_consensus_validator_ids,
  get_validator_reward_multiplier, get_attestor_reward_multiplier, default_queue_immunity_epochs,
}

-- A result that stands in a call as it is, `result?`
abbrev pub lift : {S : Type 0} → {A : Type 0} → Result A → Call S A
lift r s = (r, s)

-- Is the node active and of the class at least Included?
abbrev pub is_included : ℕ → ℕ → ℕ → Nodes → Bool
is_included subnet_id subnet_epoch subnet_node_id n =
    elim (lookup_double subnet_id subnet_node_id n.subnet_nodes_data) [
      | none ↦ false
      | some node ↦ has_classification SubnetNodeClass.included subnet_epoch node
    ]

unfoldable pub included_entries :
    ℕ → ℕ → Nodes → List SubnetNodeConsensusData → List SubnetNodeConsensusData
included_entries subnet_id subnet_epoch n [] = []
included_entries subnet_id subnet_epoch n (entry ∷ rest) =
    let kept = included_entries subnet_id subnet_epoch n rest in
    if is_included subnet_id subnet_epoch entry.subnet_node_id n then entry ∷ kept else kept

unfoldable pub canonicalize_consensus_data_for_submission :
    ℕ → ℕ → List SubnetNodeConsensusData → Nodes → Result (List SubnetNodeConsensusData × ℕ)
canonicalize_consensus_data_for_submission subnet_id subnet_epoch entries n =
    canonicalize_consensus_data_entries (included_entries subnet_id subnet_epoch n entries)

-- The nodes that may attest: those of the emergency set where there is one, else the electable
-- ones.
abbrev pub attesting_ids : ℕ → Nodes → List ℕ
attesting_ids subnet_id n = elim (Map.lookup subnet_id n.emergency_subnet_node_election_data) [
  | some e ↦ e.subnet_node_ids
  | none ↦ slots_of subnet_id n.slots
]

-- The loop over the registration queue: does the node to prioritize stand in it, and does the node
-- to remove stand in it past its immunity?
unfoldable pub scan_queue :
    Option ℕ → Option ℕ → ℕ → ℕ → List SubnetNode → Bool × Bool → Bool × Bool
scan_queue prioritize remove immunity_epochs subnet_epoch [] found = found
scan_queue prioritize remove immunity_epochs subnet_epoch (node ∷ rest) (exists, allowed) =
    let exists' : Bool = elim prioritize [
      | none ↦ exists
      | some p ↦ if node.id == p then true else exists
    ] in
    let allowed' : Bool = elim remove [
      | none ↦ allowed
      | some r ↦
          if node.id == r
          then leb (add_u32 node.classification.start_epoch immunity_epochs) subnet_epoch
          else allowed
    ] in
    let later =
      scan_queue prioritize remove immunity_epochs subnet_epoch rest (exists', allowed') in
    if exists' && (not (is_some remove) || allowed') then (exists', allowed') else later

abbrev pub keep_if : Bool → Option ℕ → Option ℕ
keep_if true o = o
keep_if false o = none

-- The two queue nodes of the proposal, each dropped where the queue does not allow it.
unfoldable pub queue_choices : Option ℕ → Option ℕ → ℕ → ℕ → List SubnetNode → Option ℕ × Option ℕ
queue_choices prioritize remove immunity_epochs subnet_epoch queue =
    if is_some prioritize || is_some remove
    then (let (exists, allowed) =
          scan_queue prioritize remove immunity_epochs subnet_epoch queue
            (not (is_some prioritize), not (is_some remove)) in
        (keep_if exists prioritize, keep_if allowed remove))
    else (prioritize, remove)

-- What a proposal brings besides the node and its hotkey.
pub record Proposal : Type 0 where
  pub scores : List SubnetNodeConsensusData
  pub prioritize_queue_node_id : Option ℕ
  pub remove_queue_node_id : Option ℕ
  pub args : Option ℕ
  pub attest_data : Option ℕ

module _ {F : Type 0} (floats : Floats F) where
  -- The submission that a proposal is stored as: the proposer attests to it.
  unfoldable pub new_submission :
      ℕ → ℕ → SubnetEpochData → List SubnetNodeConsensusData → Proposal → Consensus → ConsensusData
  new_submission subnet_id validator_subnet_node_id d canonical p c =
      let immunity_epochs =
        Map.get_or default_queue_immunity_epochs subnet_id c.params.queue_immunity_epochs in
      let choices =
        queue_choices p.prioritize_queue_node_id p.remove_queue_node_id immunity_epochs
          d.subnet_epoch (Map.get_or [] subnet_id c.nodes.subnet_node_queue) in
      record {
        validator_id = validator_subnet_node_id;
        block = c.clock.block_number;
        validator_epoch_progress = d.subnet_epoch_progression;
        validator_reward_factor =
            get_validator_reward_multiplier floats d.subnet_epoch_progression c.params;
        validator_ids = canonicalize_consensus_validator_ids (attesting_ids subnet_id c.nodes);
        attests =
            (
              validator_subnet_node_id,
              record {
                block = c.clock.block_number;
                attestor_progress = 0;
                reward_factor = percentage_factor;
                attest_data = p.attest_data;
              },
            )
            ∷ [];
        subnet_nodes =
            get_active_classified_subnet_nodes subnet_id SubnetNodeClass.idle d.subnet_epoch
              c.nodes;
        prioritize_queue_node_id = choices.0;
        remove_queue_node_id = choices.1;
        scores = canonical;
        args = p.args;
      }

  unfoldable pub do_propose_attestation : ℕ → ℕ → ℕ → Proposal → Call Consensus (Unit {0})
  do_propose_attestation hotkey subnet_id subnet_node_id p = do
    c ← gets (λ c. c)
    owner ← lift (get_subnet_node_associated_hotkey subnet_id subnet_node_id c.nodes)
    ensure (owner == hotkey) invalid_validator
    d ← or_error (get_current_subnet_epoch_data subnet_id c.clock) subnet_epoch_data_is_none
    validator_subnet_node_id ←
        or_error (lookup_double subnet_id d.subnet_epoch c.subnet_elected_validator)
          no_elected_validator
    ensure (subnet_node_id == validator_subnet_node_id) invalid_subnet_node_id
    ensure (not (is_some (lookup_double subnet_id d.subnet_epoch c.subnet_consensus_submission)))
        subnet_rewards_already_submitted
    canonical ←
        lift (canonicalize_consensus_data_for_submission subnet_id d.subnet_epoch p.scores c.nodes)
    let submission = new_submission subnet_id validator_subnet_node_id d canonical.0 p c
    modify (λ c'. record c' {
      subnet_consensus_submission =
          insert_at subnet_id d.subnet_epoch submission c'.subnet_consensus_submission;
    })

  unfoldable pub do_attest : ℕ → ℕ → ℕ → Option ℕ → Call Consensus (Unit {0})
  do_attest hotkey subnet_id subnet_node_id arg = do
    c ← gets (λ c. c)
    let epoch = get_current_subnet_epoch_as_u32 subnet_id c.clock
    owner ← lift (get_subnet_node_associated_hotkey subnet_id subnet_node_id c.nodes)
    ensure (owner == hotkey) invalid_validator
    node ←
        or_error (lookup_double subnet_id subnet_node_id c.nodes.subnet_nodes_data)
          invalid_subnet_node_id
    ensure (has_classification SubnetNodeClass.validator epoch node)
        invalid_subnet_node_classification
    submission ←
        or_error (lookup_double subnet_id epoch c.subnet_consensus_submission)
          invalid_subnet_consensus_submission
    ensure (contains subnet_node_id submission.validator_ids) invalid_validator_id
    d ←
        or_error (attestor_subnet_epoch_data subnet_id submission.block c.clock)
          subnet_epoch_data_is_none
    let entry : AttestEntry = record {
      block = c.clock.block_number;
      attestor_progress = d.subnet_epoch_progression;
      reward_factor = get_attestor_reward_multiplier floats d.subnet_epoch_progression c.params;
      attest_data = arg;
    }
    ensure (not (Map.contains_key subnet_node_id submission.attests)) already_attested
    let attested : ConsensusData = record submission {
      attests = Map.insert subnet_node_id entry submission.attests;
    }
    modify (λ c'. record c' {
      subnet_consensus_submission =
          insert_at subnet_id epoch attested c'.subnet_consensus_submission;
    })
