-- ===== src/State/Tables.antt =====
-- What the staking code reads of the subnets, nodes and validators, and the parameters that the
-- admin calls set (pallets/network/src/lib.rs).
use hypertensor_blockchain.Common.{
  ℕ, Bool, Option, none, some, List, [], ◌≡◌, arith, ◌==◌, if◌then◌else◌,
}
use hypertensor_blockchain.Common.Map.{
  Map, lookup, insert, remove, get_or, lookup-insert, lookup-remove, lookup-nil,
}

pub data SubnetState : Type 0 where
  registered active is_paused : SubnetState

-- `SubnetData` without its names and texts
pub record SubnetData : Type 0 where
  pub friendly_id : ℕ
  pub state : SubnetState
  pub start_epoch : ℕ

-- `ValidatorData` without its identity and delegate account
pub record ValidatorData : Type 0 where
  pub hotkey : ℕ
  pub delegate_reward_rate : ℕ
  pub last_delegate_reward_rate_update : ℕ

pub record Registry : Type 0 where
  pub subnets_data : Map SubnetData
  pub subnet_min_stake_balance : Map ℕ
  pub subnet_max_stake_balance : Map ℕ
  pub subnet_node_election_slots : Map (List ℕ)
  -- subnet, then node
  pub subnet_node_validator_id : Map (Map ℕ)
  pub subnet_node_reputation : Map (Map ℕ)
  pub validators_data : Map ValidatorData
  pub validator_coldkey : Map ℕ
  -- validator, then subnet, to the ids of its nodes
  pub validator_subnet_nodes : Map (Map (List ℕ))
  pub overwatch_node_validator_id : Map ℕ
  -- overwatch node to its hotkey
  pub overwatch_nodes : Map ℕ

-- A read of a `StorageDoubleMap` with `OptionQuery`.
abbrev pub lookup_double {ℓ} : {V : Type ℓ} → ℕ → ℕ → Map (Map V) → Option V
lookup_double a k m = elim (lookup a m) [ none ↦ none | some inner ↦ lookup k inner ]

-- Entries of a double map. A `remove` leaves the inner map in place where it empties.
abbrev pub insert_at {ℓ} : {V : Type ℓ} → ℕ → ℕ → V → Map (Map V) → Map (Map V)
insert_at a k v m = insert a (insert k v (get_or [] a m)) m

abbrev pub remove_at {ℓ} : {V : Type ℓ} → ℕ → ℕ → Map (Map V) → Map (Map V)
remove_at a k m = insert a (remove k (get_or [] a m)) m

pub lookup_double-insert_at {ℓ} :
    {V : Type ℓ} (a k : ℕ) (v : V) (m : Map (Map V)) (b j : ℕ)
    → lookup_double b j (insert_at a k v m)
      ≡ (if b == a then (if j == k then some v else lookup_double b j m) else lookup_double b j m)
lookup_double-insert_at {V} a k v m b j = ground (
  arith,
  lookup-insert a b (insert k v (get_or [] a m)) m,
  lookup-insert k j v (get_or [] a m),
  lookup-nil {V = V} j,
)

pub lookup_double-remove_at {ℓ} :
    {V : Type ℓ} (a k : ℕ) (m : Map (Map V)) (b j : ℕ)
    → lookup_double b j (remove_at a k m)
      ≡ (if b == a then (if j == k then none else lookup_double b j m) else lookup_double b j m)
lookup_double-remove_at {V} a k m b j = ground (
  arith,
  lookup-insert a b (remove k (get_or [] a m)) m,
  lookup-remove k j (get_or [] a m),
  lookup-nil {V = V} j,
)

pub record Params : Type 0 where
  -- `T::EpochLength` and `T::MaxSwapQueueLength`
  pub epoch_length : ℕ
  pub max_swap_queue_length : ℕ
  pub tx_pause : Bool
  pub tx_rate_limit : ℕ
  pub max_unbondings : ℕ
  pub stake_cooldown_epochs : ℕ
  pub delegate_stake_cooldown_epochs : ℕ
  pub min_delegate_stake_deposit : ℕ
  pub overwatch_min_stake_balance : ℕ
  pub max_swap_queue_calls_per_block : ℕ
  pub min_subnet_delegate_stake_factor : ℕ
  pub min_subnet_nodes : ℕ
  pub max_subnet_nodes : ℕ
  pub max_min_delegate_stake_multiplier : ℕ
