-- ===== src/Nodes/Removed.antt =====
-- What a removal leaves: the node is gone from every list, and all others stay as they were.
use hypertensor_blockchain.Common.{
  ℕ, ◌+◌, ◌≤◌, ◌<◌, u32_mod, ◌≡◌, true, false, not, ◌&&◌, List, [], ◌∷◌, Option, none, some, arith,
  ◌==◌, if◌then◌else◌, inl, inr, Option-cases, Bool-cases, refl, sym, subst,
}
use hypertensor_blockchain.Common.Lists.{length}
use hypertensor_blockchain.Common.Map
use hypertensor_blockchain.Common.Map.{Map}
use hypertensor_blockchain.State.{lookup_double, lookup_double-insert_at, lookup_double-remove_at}
use hypertensor_blockchain.Nodes.{
  Nodes, SubnetNode, SubnetNodeClass, EmergencySubnetValidatorData, rank, next,
}
use hypertensor_blockchain.Nodes.Slots.{contains, slots_of, remove_node_from_election_slot}
use hypertensor_blockchain.Nodes.Removal.{
  without, leave_emergency, common_remove_subnet_node, remove_active_subnet_node, graduated,
  graduate_to_validator_class,
}
use hypertensor_blockchain.Nodes.Index.{IsIndexed, push_slot-IsIndexed, contains-push_slot}
use hypertensor_blockchain.Nodes.Electable.{is_electable, remove_node_from_election_slot_lem}

-- The class of an active node; 0 where there is none.
abbrev pub active_node : ℕ → ℕ → Nodes → Option SubnetNode
active_node b y n = lookup_double b y n.subnet_nodes_data

abbrev pub class_rank : Option SubnetNode → ℕ
class_rank none = 0
class_rank (some node) = rank node.classification.node_class

-- Every node that can be elected is active and of class Validator.
abbrev pub IsStaffed : Nodes → Type 0
IsStaffed n = (b y : ℕ) → is_electable b n.slots y ≡ true → class_rank (active_node b y n) ≡ 3

abbrev pub ids_of : Option EmergencySubnetValidatorData → List ℕ
ids_of none = []
ids_of (some e) = e.subnet_node_ids

-- The nodes that may take part in an emergency election of a subnet.
abbrev pub emergency_ids : ℕ → Nodes → List ℕ
emergency_ids b n = ids_of (Map.lookup b n.emergency_subnet_node_election_data)

contains-without :
    (y x : ℕ) (xs : List ℕ) → contains y (without x xs) ≡ (not (y == x) && contains y xs)
unfolding contains without
contains-without y x [] = ground arith
contains-without y x (z ∷ zs) = ground (arith, contains-without y x zs)

contains-leave_emergency :
    (s x b y : ℕ) (m : Map EmergencySubnetValidatorData)
    → contains y (ids_of (Map.lookup b (leave_emergency s x m)))
      ≡ (not (b == s && y == x) && contains y (ids_of (Map.lookup b m)))
unfolding leave_emergency contains
contains-leave_emergency s x b y m = elim (Option-cases (Map.lookup s m)) [
  | inl nothing ↦ ground arith
  | inr (e, at) ↦
      let e' : EmergencySubnetValidatorData = record e {
        subnet_node_ids = without x e.subnet_node_ids;
      } in
      ground (arith, Map.lookup-insert s b e' m, contains-without y x e.subnet_node_ids)
]

rank-next : (c : SubnetNodeClass) → 2 ≤ rank c → rank (next c) ≡ 3
unfolding next
rank-next SubnetNodeClass.registered h = absurd (omega arith)
rank-next SubnetNodeClass.idle h = absurd (omega arith)
rank-next SubnetNodeClass.included h = refl
rank-next SubnetNodeClass.validator h = refl

module _ (s x : ℕ) (n : Nodes) (node : SubnetNode) (at : active_node s x n ≡ some node)
    (indexed : (b : ℕ) → IsIndexed b n.slots) (staffed : IsStaffed n) where
  abbrev removed : Nodes
  removed = remove_active_subnet_node s x n

  removed-slots : removed.slots ≡ (
      if rank node.classification.node_class == 3
      then (remove_node_from_election_slot s x n.slots).1
      else n.slots)
  unfolding remove_active_subnet_node common_remove_subnet_node
  removed-slots = rw (at, remove_active_subnet_node) refl

  pub removed-active :
      (b y : ℕ) → active_node b y removed ≡ (if b == s && y == x then none else active_node b y n)
  unfolding remove_active_subnet_node common_remove_subnet_node
  removed-active b y =
      rw (at, remove_active_subnet_node)
        (ground (arith, lookup_double-remove_at s x n.subnet_nodes_data b y))

  removed-electable :
      (b : ℕ)
      → ((y : ℕ)
          → is_electable b removed.slots y ≡ (not (b == s && y == x) && is_electable b n.slots y))
        × IsIndexed b removed.slots
  removed-electable b =
      let taken = remove_node_from_election_slot_lem s x b n.slots (indexed s) (indexed b) in
      elim (Bool-cases (rank node.classification.node_class == 3)) [
        | inl validator ↦ rw (removed-slots, validator) (taken.1, taken.2)
        | inr other ↦ rw (removed-slots, other) (λ y. ground (arith, staffed b y), indexed b)
      ]

  removed-reputation :
      (b y : ℕ)
      → lookup_double b y removed.subnet_node_reputation
        ≡ (if b == s && y == x then none else lookup_double b y n.subnet_node_reputation)
  unfolding remove_active_subnet_node common_remove_subnet_node
  removed-reputation b y =
      rw (at, remove_active_subnet_node)
        (ground (arith, lookup_double-remove_at s x n.subnet_node_reputation b y))

  removed-emergency :
      (b y : ℕ)
      → contains y (emergency_ids b removed)
        ≡ (not (b == s && y == x) && contains y (emergency_ids b n))
  unfolding remove_active_subnet_node common_remove_subnet_node
  removed-emergency b y =
      rw (at, remove_active_subnet_node)
        (contains-leave_emergency s x b y n.emergency_subnet_node_election_data)

  -- If an active node is removed, where the slots are indexed and every electable node is active
  -- and of class Validator, the same two hold afterwards; the node has no data, no reputation, no
  -- slot and no place in an emergency set any more, and every other node keeps all four.
  pub remove_active_subnet_node_lem :
      ((b : ℕ) → IsIndexed b removed.slots)
      × IsStaffed removed
      × ((b y : ℕ)
          → (active_node b y removed ≡ (if b == s && y == x then none else active_node b y n))
            × (lookup_double b y removed.subnet_node_reputation
                ≡ (if b == s && y == x then none else lookup_double b y n.subnet_node_reputation))
            × (is_electable b removed.slots y
                ≡ (not (b == s && y == x) && is_electable b n.slots y))
            × (contains y (emergency_ids b removed)
                ≡ (not (b == s && y == x) && contains y (emergency_ids b n))))
  remove_active_subnet_node_lem = (
    λ b. (removed-electable b).1,
    λ b y e. ground (arith, (removed-electable b).0 y, removed-active b y, staffed b y),
    λ b y. (
      removed-active b y,
      removed-reputation b y,
      (removed-electable b).0 y,
      removed-emergency b y,
    ),
  )

-- If a node of class Included or Validator graduates, where the slots are indexed, have room, and
-- every electable node is active and of class Validator, the same two hold afterwards; the answer
-- is true exactly if the node is active and had no slot, and then it has one.
pub graduate_to_validator_class_lem :
    (s x epoch : ℕ) (n : Nodes)
    → ((b : ℕ) → IsIndexed b n.slots)
    → IsStaffed n
    → 2 ≤ class_rank (active_node s x n)
    → length (slots_of s n.slots) + 1 < u32_mod
    → let (answer, n') = graduate_to_validator_class s x epoch n in
      ((b : ℕ) → IsIndexed b n'.slots)
      × IsStaffed n'
      × (answer ≡ not (is_electable s n.slots x))
      × (is_electable s n'.slots x ≡ true)
unfolding graduate_to_validator_class
graduate_to_validator_class_lem s x epoch n indexed staffed high room =
    elim (Bool-cases (is_electable s n.slots x)) [
      | inl old ↦ rw (old, graduate_to_validator_class) (indexed, staffed, refl, old)
      | inr fresh ↦ elim (Option-cases (active_node s x n)) [
        | inl nothing ↦ absurd (ground arith)
        | inr (node, at) ↦
            rw (fresh, at, graduate_to_validator_class)
              (
                λ b. push_slot-IsIndexed s x b n.slots (indexed s) (indexed b) fresh room,
                λ b y e. ground (
                  arith,
                  contains-push_slot s x b n.slots (indexed s) (indexed b) y,
                  lookup_double-insert_at s x (graduated epoch node) n.subnet_nodes_data b y,
                  staffed b y,
                  rank-next node.classification.node_class,
                ),
                refl,
                ground (arith, contains-push_slot s x s n.slots (indexed s) (indexed s) x),
              )
      ]
    ]

-- The slots are indexed, and every electable node is active and of class Validator.
abbrev pub IsRegular : Nodes → Type 0
IsRegular n = ((b : ℕ) → IsIndexed b n.slots) × IsStaffed n

-- It reads the slots and the active nodes only.
pub IsRegular-resp :
    (n n' : Nodes)
    → n'.slots ≡ n.slots
    → n'.subnet_nodes_data ≡ n.subnet_nodes_data
    → IsRegular n
    → IsRegular n'
IsRegular-resp n n' e d h =
    (λ b. subst (IsIndexed b) (sym e) (h.0 b), λ b y elected. ground (arith, h.1 b y))

pub remove_active_subnet_node-IsRegular :
    (s x : ℕ) (n : Nodes) → IsRegular n → IsRegular (remove_active_subnet_node s x n)
unfolding remove_active_subnet_node
remove_active_subnet_node-IsRegular s x n h = elim (Option-cases (active_node s x n)) [
  | inl nothing ↦ rw (nothing, remove_active_subnet_node) h
  | inr (node, at) ↦
      let done = remove_active_subnet_node_lem s x n node at h.0 h.1 in (done.0, done.1)
]

-- After a removal the node is neither active nor electable.
pub remove_active_subnet_node-gone :
    (s x : ℕ) (n : Nodes)
    → IsRegular n
    → let n' = remove_active_subnet_node s x n in
      (active_node s x n' ≡ none) × (is_electable s n'.slots x ≡ false)
unfolding remove_active_subnet_node
remove_active_subnet_node-gone s x n h = elim (Option-cases (active_node s x n)) [
  | inl nothing ↦ rw (nothing, remove_active_subnet_node) (nothing, ground (arith, h.1 s x))
  | inr (node, at) ↦
      let done = (remove_active_subnet_node_lem s x n node at h.0 h.1).2 s x in
      (ground arith, ground arith)
]
