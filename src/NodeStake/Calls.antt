-- ===== src/NodeStake/Calls.antt =====
-- The calls that add and remove the stake of a node.
use hypertensor_blockchain.Common.{
  ℕ, ◌+◌, ◌-◌, ◌≤◌, ◌<◌, min, ◌≡◌, Option, none, some, arith, u128_max, mul_u32, ◌⊎◌,
}
use hypertensor_blockchain.Common.Map
use hypertensor_blockchain.State.{State, Currency, Origin, Error, ok, err, lookup_double}
use hypertensor_blockchain.Accounts.{remove_balance_from_coldkey_account}
use hypertensor_blockchain.Unbonding.{
  claim_block, insert_unbonding, insert_balance_to_unbonding_ledger, prepare_unbonding_ledger_entry,
}
use hypertensor_blockchain.Unbonding.Settle.{prepare-frame}
use hypertensor_blockchain.NodeStake.{
  stake_of, increase_node_stake, decrease_node_stake, do_add_node_stake, do_remove_node_stake,
  default_subnet_min_stake_balance, default_network_max_stake_balance,
}

abbrev pub min_stake_of : {B : Type 0} → ℕ → State B → ℕ
min_stake_of subnet s =
    Map.get_or default_subnet_min_stake_balance subnet s.registry.subnet_min_stake_balance

abbrev pub max_stake_of : {B : Type 0} → ℕ → State B → ℕ
max_stake_of subnet s =
    Map.get_or default_network_max_stake_balance subnet s.registry.subnet_max_stake_balance

-- The coldkey of the validator that runs the node.
abbrev pub node_owner : {B : Type 0} → ℕ → ℕ → State B → Option ℕ
node_owner subnet node s = elim (lookup_double subnet node s.registry.subnet_node_validator_id) [
  | none ↦ none
  | some v ↦ Map.lookup v s.registry.validator_coldkey
]

module _ {B : Type 0} ⦃currency : Currency B⦄ where
  abbrev pub cooldown : State B → ℕ
  cooldown s = mul_u32 s.params.stake_cooldown_epochs s.params.epoch_length

  abbrev pub made_room : ℕ → State B → State B
  made_room c s = (prepare_unbonding_ledger_entry c (cooldown s) s.block_number s).1

  -- A refused addition of stake changes nothing.
  pub do_add_node_stake_err :
      (origin : Origin) (subnet node x : ℕ) (s s' : State B) (e : Error)
      → do_add_node_stake origin subnet node x s ≡ (err e, s')
      → s' ≡ s
  unfolding do_add_node_stake
  do_add_node_stake_err origin subnet node x s s' e h = ground arith

  -- What a successful addition has tested and done.
  pub record IsStakeAdded (c subnet node x : ℕ) (s s' : State B) : Type 0 where
    pub owner : node_owner subnet node s ≡ some c
    pub not_zero : 0 < x
    pub enough : min_stake_of subnet s ≤ min (stake_of node subnet s.node_stake + x) u128_max
    pub bounded : min (stake_of node subnet s.node_stake + x) u128_max ≤ max_stake_of subnet s
    pub withdrawn : currency.withdraw c x s.balances ≡ some s'.balances
    pub staked : s'.node_stake ≡ increase_node_stake node subnet x s.node_stake
    pub ledger : s'.unbonding ≡ s.unbonding
    pub stamped : Map.get c s'.last_tx_block ≡ s.block_number

  pub do_add_node_stake-IsStakeAdded :
      (c subnet node x : ℕ) (s s' : State B)
      → do_add_node_stake (Origin.signed c) subnet node x s ≡ (ok tt, s')
      → IsStakeAdded c subnet node x s s'
  unfolding do_add_node_stake remove_balance_from_coldkey_account
  do_add_node_stake-IsStakeAdded c subnet node x s s' h =
      ground (arith, Map.lookup-insert c c s.block_number s.last_tx_block)

  -- What a successful removal has tested and done: `made_room` is the state in which the ledger has
  -- room for the entry.
  pub record IsStakeRemoved (c subnet node x : ℕ) (s s' : State B) : Type 0 where
    pub owner : node_owner subnet node s ≡ some c
    pub not_zero : 0 < x
    pub enough : x ≤ stake_of node subnet s.node_stake
    pub kept :
        (lookup_double subnet node s.registry.subnet_node_reputation ≡ none)
        ⊎ (min_stake_of subnet s ≤ stake_of node subnet s.node_stake - x)
    pub balances_lem : s'.balances ≡ (made_room c s).balances
    pub unstaked : s'.node_stake ≡ decrease_node_stake node subnet x s.node_stake
    pub ledger :
        s'.unbonding
        ≡ insert_unbonding c x (claim_block (cooldown s) s.block_number) (made_room c s).unbonding

  pub do_remove_node_stake-IsStakeRemoved :
      (c subnet node x : ℕ) (s s' : State B)
      → do_remove_node_stake (Origin.signed c) subnet node x s ≡ (ok tt, s')
      → IsStakeRemoved c subnet node x s s'
  unfolding do_remove_node_stake insert_balance_to_unbonding_ledger
  do_remove_node_stake-IsStakeRemoved c subnet node x s s' h =
      ground (arith, prepare-frame c (cooldown s) s.block_number s)
