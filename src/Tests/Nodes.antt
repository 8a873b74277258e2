-- ===== src/Tests/Nodes.antt =====
-- Slots, graduation and removal of nodes.
use hypertensor_blockchain.Common.{
  [], ◌∷◌, ◌+◌, ◌<◌, ℕ, ◌≡◌, true, not, none, refl, arith, ◌||◌, ◌&&◌, ◌==◌, if◌then◌else◌, u32_mod,
}
use hypertensor_blockchain.Common.Lists.{length}
use hypertensor_blockchain.Common.Map
use hypertensor_blockchain.State.{lookup_double}
use hypertensor_blockchain.Nodes.{Nodes, SubnetNodeClass}
use hypertensor_blockchain.Nodes.Slots.{
  contains, slots_of, insert_node_into_election_slot, can_insert_node_into_election_slot,
  remove_node_from_election_slot,
}
use hypertensor_blockchain.Nodes.Removal.{remove_active_subnet_node, graduate_to_validator_class}
use hypertensor_blockchain.Nodes.Index.{IsIndexed}
use hypertensor_blockchain.Nodes.Electable.{is_electable, election_slots_lem}
use hypertensor_blockchain.Nodes.Removed.{
  IsStaffed, active_node, emergency_ids, remove_active_subnet_node_lem,
  graduate_to_validator_class_lem,
}
use hypertensor_blockchain.Tests.Network.{node, nodes, slots, slots-IsIndexed, nodes-IsStaffed}

election_slots_example :
    (let (answer, e') = remove_node_from_election_slot 1 2 slots in
      (answer ≡ is_electable 1 slots 2)
      × ((n : ℕ) → is_electable 1 e' n ≡ (not (1 == 1 && n == 2) && is_electable 1 slots n))
      × IsIndexed 1 e')
    × (length (slots_of 1 slots) + 1 < u32_mod
        → let (answer, e') = insert_node_into_election_slot 1 2 slots in
          (answer ≡ can_insert_node_into_election_slot 1 2 slots)
          × ((n : ℕ) → is_electable 1 e' n ≡ (1 == 1 && n == 2 || is_electable 1 slots n))
          × IsIndexed 1 e')
election_slots_example = election_slots_lem 1 2 1 slots (slots-IsIndexed 1) (slots-IsIndexed 1)

remove_active_subnet_node_example :
    let n' = remove_active_subnet_node 1 2 nodes in
    ((b : ℕ) → IsIndexed b n'.slots)
    × IsStaffed n'
    × ((b y : ℕ)
        → (active_node b y n' ≡ (if b == 1 && y == 2 then none else active_node b y nodes))
          × (lookup_double b y n'.subnet_node_reputation
              ≡ (if b == 1 && y == 2 then none else lookup_double b y nodes.subnet_node_reputation))
          × (is_electable b n'.slots y ≡ (not (b == 1 && y == 2) && is_electable b nodes.slots y))
          × (contains y (emergency_ids b n')
              ≡ (not (b == 1 && y == 2) && contains y (emergency_ids b nodes))))
unfolding Map.lookup
remove_active_subnet_node_example =
    remove_active_subnet_node_lem 1 2 nodes (node 2) refl slots-IsIndexed nodes-IsStaffed

-- The network with node 4, of class Included and without a slot.
abbrev with_newcomer : Nodes
with_newcomer = record nodes {
  subnet_nodes_data =
      (
        1,
        (1, node 1)
            ∷ (2, node 2)
            ∷ (3, node 3)
            ∷ (
              4,
              record (node 4) {
                classification = record { node_class = SubnetNodeClass.included; start_epoch = 1 };
              },
            )
            ∷ [],
      )
      ∷ [];
}

with_newcomer-IsStaffed : IsStaffed with_newcomer
unfolding Map.lookup contains
with_newcomer-IsStaffed b y e = ground arith

graduate_to_validator_class_example :
    let (answer, n') = graduate_to_validator_class 1 4 10 with_newcomer in
    ((b : ℕ) → IsIndexed b n'.slots)
    × IsStaffed n'
    × (answer ≡ not (is_electable 1 with_newcomer.slots 4))
    × (is_electable 1 n'.slots 4 ≡ true)
unfolding Map.lookup
graduate_to_validator_class_example =
    graduate_to_validator_class_lem 1 4 10 with_newcomer slots-IsIndexed with_newcomer-IsStaffed
      (omega arith) (omega arith)
