-- ===== src/Nodes/Slots.antt =====
-- The election slots of a subnet: the nodes that may be elected, and the position of each.
use hypertensor_blockchain.Common.{
  ℕ, zero, suc, ◌-◌, Bool, true, false, not, ◌||◌, Option, none, some, List, [], ◌∷◌, ◌++◌, ◌==◌,
  if◌then◌else◌, as_u32, saturating_sub, saturating_add_u32,
}
use hypertensor_blockchain.Common.Lists.{length}
use hypertensor_blockchain.Common.Map
use hypertensor_blockchain.Nodes.{ElectionSlots}
use hypertensor_blockchain.State.{insert_at, remove_at}

-- `contains`, `iter().position(..)`, `[..]` and `swap_remove` of `Vec`
unfoldable pub contains : ℕ → List ℕ → Bool
contains x [] = false
contains x (y ∷ ys) = x == y || contains x ys

abbrev pub get_elem? {ℓ} : {A : Type ℓ} → List A → ℕ → Option A
get_elem? [] i = none
get_elem? (x ∷ xs) zero = some x
get_elem? (x ∷ xs) (suc i) = get_elem? xs i

unfoldable pub position : ℕ → List ℕ → Option ℕ
position x [] = none
position x (y ∷ ys) =
    if x == y then some 0 else elim (position x ys) [ none ↦ none | some i ↦ some (suc i) ]

unfoldable pub last_or : ℕ → List ℕ → ℕ
last_or d [] = d
last_or d (x ∷ xs) = last_or x xs

unfoldable pub set_elem : ℕ → ℕ → List ℕ → List ℕ
set_elem i v [] = []
set_elem zero v (x ∷ xs) = v ∷ xs
set_elem (suc i) v (x ∷ xs) = x ∷ set_elem i v xs

unfoldable pub drop_last : List ℕ → List ℕ
drop_last [] = []
drop_last (x ∷ []) = []
drop_last (x ∷ y ∷ ys) = x ∷ drop_last (y ∷ ys)

-- The element at `pos` gives its place to the last one.
unfoldable pub swap_remove : ℕ → List ℕ → List ℕ
swap_remove pos xs = drop_last (set_elem pos (last_or 0 xs) xs)

abbrev pub slots_of : ℕ → ElectionSlots → List ℕ
slots_of subnet_id e = Map.get_or [] subnet_id e.node_ids

unfoldable pub can_insert_node_into_election_slot : ℕ → ℕ → ElectionSlots → Bool
can_insert_node_into_election_slot subnet_id subnet_node_id e =
    not (contains subnet_node_id (slots_of subnet_id e))

-- What both insertions do with a node that is not in the slots.
unfoldable pub push_slot : ℕ → ℕ → ElectionSlots → ElectionSlots
push_slot subnet_id subnet_node_id e =
    let slot_list = slots_of subnet_id e in
    record {
      node_ids = Map.insert subnet_id (slot_list ++ (subnet_node_id ∷ [])) e.node_ids;
      node_slot_index =
          insert_at subnet_id subnet_node_id (as_u32 (length slot_list)) e.node_slot_index;
      total_subnet_electable_nodes =
          Map.insert subnet_id
            (saturating_add_u32 (Map.get subnet_id e.total_subnet_electable_nodes) 1)
            e.total_subnet_electable_nodes;
      total_electable_nodes = saturating_add_u32 e.total_electable_nodes 1;
    }

unfoldable pub insert_node_into_election_slot : ℕ → ℕ → ElectionSlots → Bool × ElectionSlots
insert_node_into_election_slot subnet_id subnet_node_id e =
    if contains subnet_node_id (slots_of subnet_id e)
    then (false, e)
    else (true, push_slot subnet_id subnet_node_id e)

-- The removal of the node at position `pos`.
unfoldable pub remove_slot : ℕ → ℕ → ℕ → ElectionSlots → ElectionSlots
remove_slot subnet_id subnet_node_id pos e =
    let slot_list = slots_of subnet_id e in
    let last_idx = length slot_list - 1 in
    let left = swap_remove pos slot_list in
    let moved = if pos == last_idx then e.node_slot_index else elim (get_elem? left pos) [
      | none ↦ e.node_slot_index
      | some moved_node_id ↦ insert_at subnet_id moved_node_id (as_u32 pos) e.node_slot_index
    ] in
    record {
      node_ids = Map.insert subnet_id left e.node_ids;
      node_slot_index = remove_at subnet_id subnet_node_id moved;
      total_subnet_electable_nodes =
          Map.insert subnet_id (saturating_sub (Map.get subnet_id e.total_subnet_electable_nodes) 1)
            e.total_subnet_electable_nodes;
      total_electable_nodes = saturating_sub e.total_electable_nodes 1;
    }

unfoldable pub remove_node_from_election_slot : ℕ → ℕ → ElectionSlots → Bool × ElectionSlots
remove_node_from_election_slot subnet_id subnet_node_id e =
    elim (position subnet_node_id (slots_of subnet_id e)) [
      | none ↦ (false, e)
      | some pos ↦ (true, remove_slot subnet_id subnet_node_id pos e)
    ]
