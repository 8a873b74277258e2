-- ===== src/Consensus/Attestations.antt =====
-- What an attestation tests and stores.
use hypertensor_blockchain.Common.{
  ℕ, ◌≡◌, ◌≤◌, true, false, Option, some, refl, arith, inl, inr, Option-cases,
}
use hypertensor_blockchain.Common.Map
use hypertensor_blockchain.Math.{percentage_factor}
use hypertensor_blockchain.Math.Floats.{Floats}
use hypertensor_blockchain.State.{Error, ok, err}
use hypertensor_blockchain.Epochs.{
  SubnetEpochData, get_current_subnet_epoch_as_u32, attestor_subnet_epoch_data,
}
use hypertensor_blockchain.Nodes.{get_subnet_node_associated_hotkey}
use hypertensor_blockchain.Nodes.Slots.{contains}
use hypertensor_blockchain.Consensus.{
  Consensus, ConsensusData, AttestEntry, get_attestor_reward_multiplier,
}
use hypertensor_blockchain.Consensus.Submissions.{do_attest}
use hypertensor_blockchain.Consensus.Proposals.{submission_at, with_submission}

module _ {F : Type 0} (floats : Floats F) (hotkey s x : ℕ) (arg : Option ℕ) (c : Consensus) where
  abbrev epoch : ℕ
  epoch = get_current_subnet_epoch_as_u32 s c.clock

  abbrev new_entry : SubnetEpochData → AttestEntry
  new_entry d = record {
    block = c.clock.block_number;
    attestor_progress = d.subnet_epoch_progression;
    reward_factor = get_attestor_reward_multiplier floats d.subnet_epoch_progression c.params;
    attest_data = arg;
  }

  abbrev pub attested_with : AttestEntry → ConsensusData → ConsensusData
  attested_with entry sub = record sub { attests = Map.insert x entry sub.attests }

  -- What an attestation has tested of `c` and its submission `sub`, and stored in `c'`.
  pub record IsAttested (c' : Consensus) (sub : ConsensusData) (entry : AttestEntry) : Type 0 where
    pub authorized : get_subnet_node_associated_hotkey s x c.nodes ≡ ok hotkey
    pub submitted : submission_at s epoch c ≡ some sub
    pub listed : contains x sub.validator_ids ≡ true
    pub first : Map.contains_key x sub.attests ≡ false
    pub stored : c' ≡ with_submission s epoch (attested_with entry sub) c
    pub attested_at : entry.block ≡ c.clock.block_number
    pub factor : entry.reward_factor ≤ percentage_factor

  multiplier-le :
      (progress : ℕ) → get_attestor_reward_multiplier floats progress c.params ≤ percentage_factor
  unfolding get_attestor_reward_multiplier
  multiplier-le progress = omega arith

  new_entry-IsAttested :
      (sub : ConsensusData) (d : SubnetEpochData) (c' : Consensus)
      → submission_at s epoch c ≡ some sub
      → attestor_subnet_epoch_data s sub.block c.clock ≡ some d
      → do_attest floats hotkey s x arg c ≡ (ok tt, c')
      → IsAttested c' sub (new_entry d)
  unfolding do_attest
  new_entry-IsAttested sub d c' at data_at h = record {
    authorized = ground arith;
    submitted = at;
    listed = ground arith;
    first = ground arith;
    stored = ground arith;
    attested_at = refl;
    factor = multiplier-le d.subnet_epoch_progression;
  }

  -- A successful attestation was made with the hotkey of a node that the submission of the epoch
  -- lists and that had not attested to it; it adds the node's entry, of the present block and with
  -- a reward factor of at most 100%, to the attestations, and changes nothing else.
  pub do_attest-IsAttested :
      (c' : Consensus)
      → do_attest floats hotkey s x arg c ≡ (ok tt, c')
      → (sub : ConsensusData) × (entry : AttestEntry) × IsAttested c' sub entry
  unfolding do_attest
  do_attest-IsAttested c' h = elim (Option-cases (submission_at s epoch c)) [
    | inl nothing ↦ absurd (ground arith)
    | inr (sub, at) ↦ elim (Option-cases (attestor_subnet_epoch_data s sub.block c.clock)) [
      | inl nothing ↦ absurd (ground arith)
      | inr (d, data_at) ↦ (sub, new_entry d, new_entry-IsAttested sub d c' at data_at h)
    ]
  ]

  -- A refused attestation changes nothing.
  pub do_attest_err :
      (e : Error) (c' : Consensus) → do_attest floats hotkey s x arg c ≡ (err e, c') → c' ≡ c
  unfolding do_attest
  do_attest_err e c' h = ground arith
