-- ===== src/Nodes/Electable.antt =====
-- The election slots as the set of the nodes that can be elected: insertion and removal are those
-- of a set, whatever order `swap_remove` leaves.
use hypertensor_blockchain.Common.{
  ℕ, ◌+◌, ◌<◌, ◌≡◌, Bool, not, ◌&&◌, ◌||◌, arith, ◌==◌, u32_mod, inl, inr, Option-cases, Bool-cases,
  refl,
}
use hypertensor_blockchain.Common.Lists.{length}
use hypertensor_blockchain.Nodes.{ElectionSlots}
use hypertensor_blockchain.Nodes.Slots.{
  contains, position, slots_of, can_insert_node_into_election_slot, insert_node_into_election_slot,
  remove_node_from_election_slot,
}
use hypertensor_blockchain.Nodes.Index.{
  IsIndexed, push_slot-IsIndexed, remove_slot-IsIndexed, contains-push_slot, contains-remove_slot,
  contains-position, contains-found,
}

-- The nodes that can be elected, as a set.
abbrev pub is_electable : ℕ → ElectionSlots → ℕ → Bool
is_electable s e n = contains n (slots_of s e)

module _ (s x b : ℕ) (e : ElectionSlots) (here : IsIndexed s e) (h : IsIndexed b e) where
  -- Where the index inverts the list of the slots, and the list has room below 2 ^ 32: an insertion
  -- answers whether the node was new, adds exactly this node of this subnet to the nodes that can
  -- be elected, and keeps the index the inverse of the list and the count its length, for every
  -- subnet.
  pub insert_node_into_election_slot_lem :
      length (slots_of s e) + 1 < u32_mod
      → let (answer, e') = insert_node_into_election_slot s x e in
        (answer ≡ can_insert_node_into_election_slot s x e)
        × ((n : ℕ) → is_electable b e' n ≡ (b == s && n == x || is_electable b e n))
        × IsIndexed b e'
  unfolding insert_node_into_election_slot can_insert_node_into_election_slot
  insert_node_into_election_slot_lem room = elim (Bool-cases (contains x (slots_of s e))) [
    | inl old ↦ rw old (refl, λ n. ground arith, h)
    | inr fresh ↦ rw fresh (
      refl,
      λ n. contains-push_slot s x b e here h n,
      push_slot-IsIndexed s x b e here h fresh room,
    )
  ]

  -- Where the index inverts the list of the slots: a removal answers whether the node was there,
  -- takes exactly this node of this subnet from the nodes that can be elected, and keeps the index
  -- the inverse of the list and the count its length, for every subnet.
  pub remove_node_from_election_slot_lem :
      let (answer, e') = remove_node_from_election_slot s x e in
      (answer ≡ is_electable s e x)
      × ((n : ℕ) → is_electable b e' n ≡ (not (b == s && n == x) && is_electable b e n))
      × IsIndexed b e'
  unfolding remove_node_from_election_slot
  remove_node_from_election_slot_lem = elim (Option-cases (position x (slots_of s e))) [
    | inl away ↦
        let gone = contains-position x (slots_of s e) away in
        rw (away, gone, remove_node_from_election_slot) (refl, λ n. ground arith, h)
    | inr (pos, found) ↦
        let there = contains-found x (slots_of s e) pos found in
        rw (found, there, remove_node_from_election_slot)
          (
            refl,
            λ n. contains-remove_slot s x b e here h pos n found,
            remove_slot-IsIndexed s x b e here h pos found,
          )
  ]

  -- The election slots implement a set of nodes for each subnet. Where the index inverts the list
  -- of the slots: a removal answers whether the node was there and takes exactly this node of this
  -- subnet; an insertion, where the list has room below 2 ^ 32, answers whether the node was new
  -- and adds exactly it; and both keep the index the inverse of the list and the count its length,
  -- for every subnet.
  pub election_slots_lem :
      (let (answer, e') = remove_node_from_election_slot s x e in
        (answer ≡ is_electable s e x)
        × ((n : ℕ) → is_electable b e' n ≡ (not (b == s && n == x) && is_electable b e n))
        × IsIndexed b e')
      × (length (slots_of s e) + 1 < u32_mod
          → let (answer, e') = insert_node_into_election_slot s x e in
            (answer ≡ can_insert_node_into_election_slot s x e)
            × ((n : ℕ) → is_electable b e' n ≡ (b == s && n == x || is_electable b e n))
            × IsIndexed b e')
  election_slots_lem = (remove_node_from_election_slot_lem, insert_node_into_election_slot_lem)
