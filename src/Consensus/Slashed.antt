-- ===== src/Consensus/Slashed.antt =====
-- What a slash takes, and what it leaves.
use hypertensor_blockchain.Common.{
  ℕ, ◌+◌, ◌-◌, ◌≤◌, ◌<◌, ◌≡◌, ◌⊎◌, ap, none, some, arith, u128_max, ltb, if_intro, inl, inr, false,
  sym, subst,
}
use hypertensor_blockchain.Math.{percentage_factor, percent_mul}
use hypertensor_blockchain.Math.Exact.{percent_mul-le, percent_mul_mono, percent_div_mono}
use hypertensor_blockchain.State.{lookup_double}
use hypertensor_blockchain.NodeStake.{stake_of, decrease_node_stake}
use hypertensor_blockchain.NodeStake.Totals.{IsTotalled, decrease_node_stake-IsTotalled}
use hypertensor_blockchain.Nodes.{Nodes}
use hypertensor_blockchain.Nodes.Electable.{is_electable}
use hypertensor_blockchain.Nodes.Removed.{
  IsRegular, IsRegular-resp, active_node, remove_active_subnet_node-IsRegular,
  remove_active_subnet_node-gone,
}
use hypertensor_blockchain.Common.Map
use hypertensor_blockchain.Nodes.Removal.{remove_active_subnet_node}
use hypertensor_blockchain.Reputation.{decrease_rep, decrease_and_return_node_reputation}
use hypertensor_blockchain.Consensus.{Consensus, ConsensusParams}
use hypertensor_blockchain.Consensus.Slash.{
  get_slash_amount, attestation_delta, slash_stake, slash_node_reputation,
  slash_validator_reputation, slash_validator,
}

-- For a stake that is a u128, and a base percentage of at most 100%: a slash takes no more than the
-- largest slash, no more than the base percentage of the stake, no more than the stake, and no more
-- from a validator with a higher ratio of attestations.
pub get_slash_amount_lem :
    (stake a a' least : ℕ) (p : ConsensusParams)
    → stake ≤ u128_max
    → p.base_slash_percentage ≤ percentage_factor
    → a ≤ a'
    → a' ≤ u128_max
    → let slash = λ (r : ℕ). get_slash_amount stake r least (attestation_delta r least) p in
      (slash a ≤ p.max_slash_amount)
      × (slash a ≤ percent_mul stake p.base_slash_percentage)
      × (slash a ≤ stake)
      × (slash a' ≤ slash a)
unfolding get_slash_amount
get_slash_amount_lem stake a a' least p hs hb ha fits =
    let b = percent_mul stake p.base_slash_percentage in
    let base = percent_mul-le stake p.base_slash_percentage hs hb in
    let part = percent_mul-le b (attestation_delta a least) (omega arith) (omega arith) in
    let ratio = percent_div_mono a a' least ha fits in
    let order =
      percent_mul_mono b b (attestation_delta a' least) (attestation_delta a least) (omega arith)
        (omega arith) (omega arith) (omega arith) in
    (ground arith, ground arith, ground arith, ground arith)

-- Lowering reputations moves no node.
reputation-slots :
    (s x f d : ℕ) (n : Nodes)
    → let n' = (slash_node_reputation s x f d n).1 in
      (n'.slots ≡ n.slots) × (n'.subnet_nodes_data ≡ n.subnet_nodes_data)
unfolding slash_node_reputation
reputation-slots s x f d n = (ground arith, ground arith)

validator_reputation-slots :
    (s x a least f epoch : ℕ) (n : Nodes)
    → let n' = (slash_validator_reputation s x a least f epoch n).1 in
      (n'.slots ≡ n.slots) × (n'.subnet_nodes_data ≡ n.subnet_nodes_data)
unfolding slash_validator_reputation
validator_reputation-slots s x a least f epoch n = (ground arith, ground arith)

module _ (s x a least f min_rep epoch g : ℕ) (c : Consensus) (regular : IsRegular c.nodes) where
  abbrev slashed : Consensus
  slashed = slash_validator s x a least f min_rep epoch g c

  abbrev slash : ℕ
  slash = get_slash_amount (stake_of x s c.node_stake) a least (attestation_delta a least) c.params

  -- The nodes with both reputations lowered, and what is returned of the node's.
  abbrev lowered : Nodes
  lowered =
      (slash_validator_reputation s x a least f epoch
        (slash_node_reputation s x g (attestation_delta a least) c.nodes).1).1

  lowered-IsRegular : IsRegular lowered
  lowered-IsRegular =
      let n = (slash_node_reputation s x g (attestation_delta a least) c.nodes).1 in
      let first = reputation-slots s x g (attestation_delta a least) c.nodes in
      let second = validator_reputation-slots s x a least f epoch n in
      IsRegular-resp n lowered second.0 second.1 (IsRegular-resp c.nodes n first.0 first.1 regular)

  slashed-nodes :
      a < least
      → (slashed.nodes ≡ lowered) ⊎ (slashed.nodes ≡ remove_active_subnet_node s x lowered)
  unfolding slash_validator
  slashed-nodes short = ground arith

  slashed-removed :
      (r v : ℕ)
      → a < least
      → lookup_double s x c.nodes.subnet_node_reputation ≡ some r
      → lookup_double s x c.nodes.subnet_node_validator_id ≡ some v
      → decrease_rep r g (some (attestation_delta a least)) < min_rep
      → slashed.nodes ≡ remove_active_subnet_node s x lowered
  unfolding slash_validator slash_validator_reputation slash_node_reputation
      decrease_and_return_node_reputation
  slashed-removed r v short rep owner low = ground arith

  slashed-stake : a < least → slashed.node_stake ≡ slash_stake s x a least c.params c.node_stake
  unfolding slash_validator
  slashed-stake short = ground arith

  stake_of-slash :
      stake_of x s (slash_stake s x a least c.params c.node_stake)
      ≡ stake_of x s c.node_stake - slash
  unfolding slash_stake decrease_node_stake
  stake_of-slash = ground (
    arith,
    Map.get_double-insert_double x s x s (stake_of x s c.node_stake - slash)
        c.node_stake.node_subnet_stake,
  )

  slash_stake-IsTotalled :
      slash ≤ stake_of x s c.node_stake
      → IsTotalled c.node_stake
      → IsTotalled (slash_stake s x a least c.params c.node_stake)
  unfolding slash_stake
  slash_stake-IsTotalled enough h =
      if_intro IsTotalled (ltb 0 slash) (decrease_node_stake-IsTotalled x s slash h enough) h

  -- Where a validator falls short of the least ratio of attestations, the stakes add up, its stake
  -- is a u128, the base percentage at most 100%, the slots are indexed, and every electable node is
  -- active and of class Validator: the slash is taken from the validator's stake exactly, the
  -- stakes still add up, the slots and the electable nodes stay in order, and a validator whose
  -- lowered reputation is below the least one is neither active nor electable any more.
  pub slash_validator_lem :
      a < least
      → IsTotalled c.node_stake
      → stake_of x s c.node_stake ≤ u128_max
      → c.params.base_slash_percentage ≤ percentage_factor
      → a ≤ u128_max
      → (stake_of x s slashed.node_stake + slash ≡ stake_of x s c.node_stake)
        × IsTotalled slashed.node_stake
        × IsRegular slashed.nodes
        × ((r v : ℕ)
            → lookup_double s x c.nodes.subnet_node_reputation ≡ some r
            → lookup_double s x c.nodes.subnet_node_validator_id ≡ some v
            → decrease_rep r g (some (attestation_delta a least)) < min_rep
            → (active_node s x slashed.nodes ≡ none)
              × (is_electable s slashed.nodes.slots x ≡ false))
  slash_validator_lem short totalled fits base ratio =
      let enough =
        (get_slash_amount_lem (stake_of x s c.node_stake) a a least c.params fits base (omega arith)
          ratio).2 in
      (
        omega (arith, stake_of-slash, ap (stake_of x s) (slashed-stake short)),
        subst IsTotalled (sym (slashed-stake short)) (slash_stake-IsTotalled enough totalled),
        elim (slashed-nodes short) [
          | inl e ↦ subst IsRegular (sym e) lowered-IsRegular
          | inr e ↦
              subst IsRegular (sym e)
                (remove_active_subnet_node-IsRegular s x lowered lowered-IsRegular)
        ],
        λ r v rep owner low.
            subst (λ n. (active_node s x n ≡ none) × (is_electable s n.slots x ≡ false))
              (sym (slashed-removed r v short rep owner low))
              (remove_active_subnet_node-gone s x lowered lowered-IsRegular),
      )
