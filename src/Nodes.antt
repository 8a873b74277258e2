-- ===== src/Nodes.antt =====
-- Subnet nodes: their classes, the election slots, graduation and removal
-- (pallets/network/src/utilities/subnet_node.rs, and the types of pallets/network/src/lib.rs). Peer
-- ids, multiaddresses and other byte strings are only compared, and stand as numbers. Events are
-- left out.
mod Class
pub mod Slots
pub mod Removal
pub mod Index
pub mod Electable
pub mod Removed
unfoldable pub use Class.*
use hypertensor_blockchain.Common.{
  ℕ, ◌-◌, Bool, true, false, Option, none, some, List, [], ◌==◌, if◌then◌else◌, ◌&&◌,
}
use hypertensor_blockchain.Common.Map
use hypertensor_blockchain.Common.Map.{Map}
use hypertensor_blockchain.State.{
  Registry, NodeStake, Result, ok, err, Error, lookup_double, invalid_subnet_node_id,
  invalid_validator, invalid_validator_id,
}

pub record EmergencySubnetValidatorData : Type 0 where
  pub subnet_node_ids : List ℕ
  pub target_emergency_validators_epochs : ℕ
  pub max_emergency_validators_epoch : ℕ
  pub total_epochs : ℕ

-- `SubnetNodeElectionSlots`, `NodeSlotIndex`, `TotalSubnetElectableNodes`, `TotalElectableNodes`
pub record ElectionSlots : Type 0 where
  pub node_ids : Map (List ℕ)
  pub node_slot_index : Map (Map ℕ)
  pub total_subnet_electable_nodes : Map ℕ
  pub total_electable_nodes : ℕ

-- The maps that find a node by what must be unique in its subnet: subnet, then value, to the node
pub record UniqueParams : Type 0 where
  pub unique_param_subnet_node_id : Map (Map ℕ)
  pub peer_id_subnet_node_id : Map (Map ℕ)
  pub bootnode_peer_id_subnet_node_id : Map (Map ℕ)
  pub client_peer_id_subnet_node_id : Map (Map ℕ)
  pub multiaddr_subnet_node_id : Map (Map ℕ)

pub record Counts : Type 0 where
  pub total_active_subnet_nodes : Map ℕ
  pub total_active_nodes : ℕ
  pub total_subnet_nodes : Map ℕ
  pub total_nodes : ℕ

-- The storage of the nodes. Double maps are keyed by subnet, then node.
pub record Nodes : Type 0 where
  pub subnet_nodes_data : Map (Map SubnetNode)
  pub registered_subnet_nodes_data : Map (Map SubnetNode)
  pub subnet_node_queue : Map (List SubnetNode)
  pub slots : ElectionSlots
  pub emergency_subnet_node_election_data : Map EmergencySubnetValidatorData
  pub uniques : UniqueParams
  pub subnet_node_id_hotkey : Map (Map ℕ)
  pub validator_id_hotkey : Map ℕ
  pub subnet_node_validator_id : Map (Map ℕ)
  pub subnet_node_reputation : Map (Map ℕ)
  pub subnet_node_idle_consecutive_epochs : Map (Map ℕ)
  pub subnet_node_consecutive_included_epochs : Map (Map ℕ)
  -- validator, then subnet, to the ids of its nodes
  pub validator_subnet_nodes : Map (Map (List ℕ))
  pub validator_reputation : Map Reputation
  pub counts : Counts

-- The hotkey of a node: its own, or else that of its validator.
unfoldable pub get_subnet_node_associated_hotkey : ℕ → ℕ → Nodes → Result ℕ
get_subnet_node_associated_hotkey subnet_id subnet_node_id n =
    elim (lookup_double subnet_id subnet_node_id n.subnet_node_id_hotkey) [
      | some hotkey ↦ ok hotkey
      | none ↦ elim (lookup_double subnet_id subnet_node_id n.subnet_node_validator_id) [
        | none ↦ err invalid_subnet_node_id
        | some validator_id ↦ elim (Map.lookup validator_id n.validator_id_hotkey) [
          | none ↦ err invalid_validator
          | some hotkey ↦ ok hotkey
        ]
      ]
    ]
