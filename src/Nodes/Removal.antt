-- ===== src/Nodes/Removal.antt =====
-- Graduation and removal of nodes (pallets/network/src/utilities/subnet_node.rs).
use hypertensor_blockchain.Common.{
  ℕ, Bool, true, false, Option, none, some, List, [], ◌∷◌, ◌==◌, if◌then◌else◌, saturating_sub,
  is_some,
}
use hypertensor_blockchain.Common.Map
use hypertensor_blockchain.Common.Map.{Map}
use hypertensor_blockchain.State.{lookup_double, insert_at, remove_at}
use hypertensor_blockchain.Nodes.{
  Nodes, SubnetNode, SubnetNodeClass, PeerInfo, UniqueParams, EmergencySubnetValidatorData,
  Reputation, next, has_classification, rank,
}
use hypertensor_blockchain.Nodes.Slots.{
  slots_of, contains, push_slot, remove_node_from_election_slot,
}

unfoldable pub get_validator_classified_subnet_node : ℕ → ℕ → ℕ → Nodes → Option SubnetNode
get_validator_classified_subnet_node subnet_id subnet_node_id subnet_epoch n =
    elim (lookup_double subnet_id subnet_node_id n.subnet_nodes_data) [
      | none ↦ none
      | some node ↦
          if has_classification SubnetNodeClass.validator subnet_epoch node then some node else none
    ]

-- `filter(..).collect()` over the values of a map
unfoldable pub classified : SubnetNodeClass → ℕ → Map SubnetNode → List SubnetNode
classified c subnet_epoch [] = []
classified c subnet_epoch ((k, node) ∷ m) =
    let rest = classified c subnet_epoch m in
    if has_classification c subnet_epoch node then node ∷ rest else rest

abbrev pub get_active_classified_subnet_nodes : ℕ → SubnetNodeClass → ℕ → Nodes → List SubnetNode
get_active_classified_subnet_nodes subnet_id c subnet_epoch n =
    classified c subnet_epoch (Map.get_or [] subnet_id n.subnet_nodes_data)

-- The node in its next class from `start_epoch` on.
abbrev pub graduated : ℕ → SubnetNode → SubnetNode
graduated epoch node = record node {
  classification = record { node_class = next node.classification.node_class; start_epoch = epoch };
}

unfoldable pub graduate_class : ℕ → ℕ → ℕ → Nodes → Bool × Nodes
graduate_class subnet_id subnet_node_id start_epoch n =
    elim (lookup_double subnet_id subnet_node_id n.subnet_nodes_data) [
      | none ↦ (false, n)
      | some node ↦ (
        true,
        record n {
          subnet_nodes_data =
              insert_at subnet_id subnet_node_id (graduated start_epoch node) n.subnet_nodes_data;
        },
      )
    ]

unfoldable pub graduate_to_validator_class : ℕ → ℕ → ℕ → Nodes → Bool × Nodes
graduate_to_validator_class subnet_id subnet_node_id start_epoch n =
    if contains subnet_node_id (slots_of subnet_id n.slots)
    then (false, n)
    else elim (lookup_double subnet_id subnet_node_id n.subnet_nodes_data) [
      | none ↦ (false, n)
      | some node ↦ (
        true,
        record n {
          subnet_nodes_data =
              insert_at subnet_id subnet_node_id (graduated start_epoch node) n.subnet_nodes_data;
          slots = push_slot subnet_id subnet_node_id n.slots;
        },
      )
    ]

abbrev pub remove_some : ℕ → Option ℕ → Map (Map ℕ) → Map (Map ℕ)
remove_some a none m = m
remove_some a (some k) m = remove_at a k m

-- The peer id and the multiaddress of a node's bootnode, or of its client.
abbrev pub remove_peer_id : ℕ → Option PeerInfo → Map (Map ℕ) → Map (Map ℕ)
remove_peer_id subnet_id none m = m
remove_peer_id subnet_id (some p) m = remove_at subnet_id p.peer_id m

abbrev pub remove_multiaddr : ℕ → Option PeerInfo → Map (Map ℕ) → Map (Map ℕ)
remove_multiaddr subnet_id none m = m
remove_multiaddr subnet_id (some p) m = remove_some subnet_id p.multiaddr m

unfoldable pub remove_uniques : ℕ → SubnetNode → UniqueParams → UniqueParams
remove_uniques subnet_id node u = record {
  unique_param_subnet_node_id = remove_some subnet_id node.unique u.unique_param_subnet_node_id;
  peer_id_subnet_node_id = remove_at subnet_id node.peer_info.peer_id u.peer_id_subnet_node_id;
  bootnode_peer_id_subnet_node_id =
      remove_peer_id subnet_id node.bootnode_peer_info u.bootnode_peer_id_subnet_node_id;
  client_peer_id_subnet_node_id =
      remove_peer_id subnet_id node.client_peer_info u.client_peer_id_subnet_node_id;
  multiaddr_subnet_node_id = remove_multiaddr subnet_id node.client_peer_info (
      remove_multiaddr subnet_id node.bootnode_peer_info
        (remove_multiaddr subnet_id (some node.peer_info) u.multiaddr_subnet_node_id));
}

-- `retain(|id| id != subnet_node_id)` of a `Vec`, and `remove` of a `BTreeSet`
unfoldable pub without : ℕ → List ℕ → List ℕ
without x [] = []
without x (y ∷ ys) = if y == x then without x ys else y ∷ without x ys

unfoldable pub remove_from_validator : ℕ → ℕ → Map (List ℕ) → Map (List ℕ)
remove_from_validator subnet_id subnet_node_id node_map = elim (Map.lookup subnet_id node_map) [
  | none ↦ node_map
  | some nodes ↦ elim (without subnet_node_id nodes) [
    | [] ↦ Map.remove subnet_id node_map
    | x ∷ xs ↦ Map.insert subnet_id (x ∷ xs) node_map
  ]
]

-- `DefaultColdkeyReputation`
abbrev pub default_coldkey_reputation : Reputation
default_coldkey_reputation = record {
  start_epoch = 0;
  score = 500000000000000000;
  lifetime_node_count = 0;
  total_active_nodes = 0;
  total_increases = 0;
  total_decreases = 0;
  average_attestation = 0;
  last_validator_epoch = 0;
  ow_score = 500000000000000;
}

abbrev pub reputation_of : ℕ → Map Reputation → Reputation
reputation_of validator_id m = Map.get_or default_coldkey_reputation validator_id m

-- `saturating_dec` of a count that is kept by subnet
abbrev pub dec_at : ℕ → Map ℕ → Map ℕ
dec_at k m = Map.insert k (saturating_sub (Map.get k m) 1) m

unfoldable pub common_remove_subnet_node : ℕ → ℕ → SubnetNode → Nodes → Nodes
common_remove_subnet_node subnet_id subnet_node_id node n =
    let node_map = Map.get_or [] node.validator_id n.validator_subnet_nodes in
    let rep = reputation_of node.validator_id n.validator_reputation in
    record n {
      uniques = remove_uniques subnet_id node n.uniques;
      subnet_node_id_hotkey = remove_at subnet_id subnet_node_id n.subnet_node_id_hotkey;
      subnet_node_reputation = remove_at subnet_id subnet_node_id n.subnet_node_reputation;
      subnet_node_idle_consecutive_epochs =
          remove_at subnet_id subnet_node_id n.subnet_node_idle_consecutive_epochs;
      subnet_node_consecutive_included_epochs =
          remove_at subnet_id subnet_node_id n.subnet_node_consecutive_included_epochs;
      validator_subnet_nodes =
          Map.insert node.validator_id (remove_from_validator subnet_id subnet_node_id node_map)
            n.validator_subnet_nodes;
      validator_reputation =
          Map.insert node.validator_id
            (record rep { total_active_nodes = saturating_sub rep.total_active_nodes 1 })
            n.validator_reputation;
      counts = record n.counts {
        total_subnet_nodes = dec_at subnet_id n.counts.total_subnet_nodes;
        total_nodes = saturating_sub n.counts.total_nodes 1;
      };
    }

-- Where an emergency set of validators stands, the node leaves it.
unfoldable pub leave_emergency :
    ℕ → ℕ → Map EmergencySubnetValidatorData → Map EmergencySubnetValidatorData
leave_emergency subnet_id subnet_node_id m = elim (Map.lookup subnet_id m) [
  | none ↦ m
  | some e ↦
      Map.insert subnet_id (record e { subnet_node_ids = without subnet_node_id e.subnet_node_ids })
        m
]

unfoldable pub remove_active_subnet_node : ℕ → ℕ → Nodes → Nodes
remove_active_subnet_node subnet_id subnet_node_id n =
    elim (lookup_double subnet_id subnet_node_id n.subnet_nodes_data) [
      | none ↦ n
      | some node ↦
          let taken = record n {
            subnet_nodes_data = remove_at subnet_id subnet_node_id n.subnet_nodes_data;
          } in
          let n' = common_remove_subnet_node subnet_id subnet_node_id node taken in
          let slots' =
            if rank node.classification.node_class == rank SubnetNodeClass.validator
            then (remove_node_from_election_slot subnet_id subnet_node_id n'.slots).1
            else n'.slots in
          record n' {
            slots = slots';
            counts = record n'.counts {
              total_active_subnet_nodes = dec_at subnet_id n'.counts.total_active_subnet_nodes;
              total_active_nodes = saturating_sub n'.counts.total_active_nodes 1;
            };
            emergency_subnet_node_election_data =
                leave_emergency subnet_id subnet_node_id n'.emergency_subnet_node_election_data;
          }
    ]

unfoldable pub retain_queue : ℕ → List SubnetNode → List SubnetNode
retain_queue x [] = []
retain_queue x (node ∷ rest) =
    if node.id == x then retain_queue x rest else node ∷ retain_queue x rest

unfoldable pub remove_registered_subnet_node : ℕ → ℕ → Nodes → Nodes
remove_registered_subnet_node subnet_id subnet_node_id n =
    elim (lookup_double subnet_id subnet_node_id n.registered_subnet_nodes_data) [
      | none ↦ n
      | some node ↦
          let taken = record n {
            registered_subnet_nodes_data =
                remove_at subnet_id subnet_node_id n.registered_subnet_nodes_data;
          } in
          let n' = common_remove_subnet_node subnet_id subnet_node_id node taken in
          record n' {
            subnet_node_queue =
                Map.insert subnet_id
                  (retain_queue subnet_node_id (Map.get_or [] subnet_id n'.subnet_node_queue))
                  n'.subnet_node_queue;
          }
    ]

unfoldable pub perform_remove_subnet_node : ℕ → ℕ → Nodes → Nodes
perform_remove_subnet_node subnet_id subnet_node_id n =
    if is_some (lookup_double subnet_id subnet_node_id n.subnet_nodes_data)
    then remove_active_subnet_node subnet_id subnet_node_id n
    else if is_some (lookup_double subnet_id subnet_node_id n.registered_subnet_nodes_data)
    then remove_registered_subnet_node subnet_id subnet_node_id n
    else n
