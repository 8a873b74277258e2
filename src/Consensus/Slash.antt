-- ===== src/Consensus/Slash.antt =====
-- The slash of a validator whose proposal was not attested: `slash_validator`. What it only needs
-- to count weights is left out.
use hypertensor_blockchain.Common.{ℕ, Option, none, some, ltb, leb, if◌then◌else◌, saturating_sub}
use hypertensor_blockchain.Math.{percentage_factor, percent_mul, percent_div}
use hypertensor_blockchain.State.{NodeStake, lookup_double}
use hypertensor_blockchain.NodeStake.{stake_of, decrease_node_stake}
use hypertensor_blockchain.Nodes.{Nodes}
use hypertensor_blockchain.Nodes.Removal.{remove_active_subnet_node}
use hypertensor_blockchain.Reputation.{
  decrease_and_return_node_reputation, decrease_validator_reputation,
}
use hypertensor_blockchain.Consensus.{Consensus, ConsensusParams}

-- The two ratios are not used.
unfoldable pub get_slash_amount : ℕ → ℕ → ℕ → ℕ → ConsensusParams → ℕ
get_slash_amount account_subnet_stake attestation min_attestation attestation_delta p =
    let base_slash = percent_mul account_subnet_stake p.base_slash_percentage in
    let slash_amount = percent_mul base_slash attestation_delta in
    if ltb p.max_slash_amount slash_amount then p.max_slash_amount else slash_amount

-- 1.0 less the part of the least ratio that the ratio reaches
abbrev pub attestation_delta : ℕ → ℕ → ℕ
attestation_delta attestation min_attestation =
    saturating_sub percentage_factor (percent_div attestation min_attestation)

-- The stake taken from the node.
unfoldable pub slash_stake : ℕ → ℕ → ℕ → ℕ → ConsensusParams → NodeStake → NodeStake
slash_stake subnet_id subnet_node_id attestation min_attestation p stake =
    let amount =
      get_slash_amount (stake_of subnet_node_id subnet_id stake) attestation min_attestation
        (attestation_delta attestation min_attestation) p in
    if ltb 0 amount then decrease_node_stake subnet_node_id subnet_id amount stake else stake

-- The reputation of the node, where it has one, is lowered, and returned.
unfoldable pub slash_node_reputation : ℕ → ℕ → ℕ → ℕ → Nodes → Option ℕ × Nodes
slash_node_reputation subnet_id subnet_node_id factor delta n =
    elim (lookup_double subnet_id subnet_node_id n.subnet_node_reputation) [
      | none ↦ (none, n)
      | some rep ↦
          let (r, m) =
            decrease_and_return_node_reputation subnet_id subnet_node_id rep factor (some delta)
              n.subnet_node_reputation in
          (some r, record n { subnet_node_reputation = m })
    ]

unfoldable pub slash_validator_reputation : ℕ → ℕ → ℕ → ℕ → ℕ → ℕ → Nodes → Option ℕ × Nodes
slash_validator_reputation subnet_id subnet_node_id attestation min_attestation factor epoch n =
    elim (lookup_double subnet_id subnet_node_id n.subnet_node_validator_id) [
      | none ↦ (none, n)
      | some v ↦ (
        some v,
        record n {
          validator_reputation =
              decrease_validator_reputation v attestation min_attestation factor epoch
                n.validator_reputation;
        },
      )
    ]

unfoldable pub slash_validator : ℕ → ℕ → ℕ → ℕ → ℕ → ℕ → ℕ → ℕ → Consensus → Consensus
slash_validator s x attestation min_attestation coldkey_factor min_reputation epoch node_factor c =
    if leb min_attestation attestation
    then c
    else let delta = attestation_delta attestation min_attestation in
      let stake = slash_stake s x attestation min_attestation c.params c.node_stake in
      let (reputation, n) = slash_node_reputation s x node_factor delta c.nodes in
      let (validator_id, n') =
        slash_validator_reputation s x attestation min_attestation coldkey_factor epoch n in
      let removed : Nodes = elim reputation [
        | none ↦ n'
        | some r ↦ elim validator_id [
          | none ↦ n'
          | some v ↦ if ltb r min_reputation then remove_active_subnet_node s x n' else n'
        ]
      ] in
      record c { node_stake = stake; nodes = removed }
