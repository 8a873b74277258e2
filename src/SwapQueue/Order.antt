-- ===== src/SwapQueue/Order.antt =====
-- The well-formedness of the swap queue, under queueing and re-routing
-- (pallets/network/src/stake/staking_queue.rs).
use hypertensor_blockchain.Common.{
  ℕ, suc, ◌<◌, ◌≤◌, ◌≡◌, refl, true, false, Option, none, some, List, [], ◌∷◌, ◌++◌, arith, ◌==◌,
  u32_max, inl, inr, Option-cases, Bool-cases, subst, sym, ap, leb, ◌⊎◌,
}
use hypertensor_blockchain.Common.Lists.{length, length-append}
use hypertensor_blockchain.Common.Map
use hypertensor_blockchain.State.{
  State, SwapQueue, QueuedSwapCall, swap_to_subnet_delegate_stake, swap_to_validator_delegate_stake,
  QueuedSwapItem,
}
use hypertensor_blockchain.SwapQueue.{
  get_queue_balance, queued_item, queue_swap, reroute, set_queued_call, do_update_swap_queue,
}

abbrev pub item_id : Option QueuedSwapItem → Option ℕ
item_id none = none
item_id (some item) = some item.id

-- The ids increase from a bound, stay below `next`, and each has an item that carries its id.
abbrev pub IsOrdered : ℕ → ℕ → Map.Map QueuedSwapItem → List ℕ → Type 0
IsOrdered low next items [] = Unit
IsOrdered low next items (id ∷ ids) =
    (low ≤ id)
    × (id < next)
    × (item_id (Map.lookup id items) ≡ some id)
    × IsOrdered (suc id) next items ids

-- The queue is first come, first served: its ids increase, none is dangling or used again, and its
-- length respects a limit.
abbrev pub IsQueue : ℕ → SwapQueue → Type 0
IsQueue limit q =
    IsOrdered 0 q.next_swap_queue_id q.swap_call_queue q.swap_queue_order
    × (length q.swap_queue_order ≤ limit)

-- A write that keeps the id of the item that it replaces keeps the order.
IsOrdered-insert :
    (low next k : ℕ) (item : QueuedSwapItem) (items : Map.Map QueuedSwapItem) (ids : List ℕ)
    → item_id (Map.lookup k items) ≡ some item.id
    → IsOrdered low next items ids
    → IsOrdered low next (Map.insert k item items) ids
IsOrdered-insert low next k item items [] h o = tt
IsOrdered-insert low next k item items (id ∷ ids) h (l, u, named, o) = (
  l,
  u,
  ground (arith, Map.lookup-insert k id item items),
  IsOrdered-insert (suc id) next k item items ids h o,
)

-- A new id at the end of the order.
IsOrdered-append :
    (low next : ℕ) (item : QueuedSwapItem) (items : Map.Map QueuedSwapItem) (ids : List ℕ)
    → low ≤ next
    → item.id ≡ next
    → IsOrdered low next items ids
    → IsOrdered low (suc next) (Map.insert next item items) (ids ++ (next ∷ []))
IsOrdered-append low next item items [] l h o =
    (l, omega arith, ground (arith, Map.lookup-insert next next item items), tt)
IsOrdered-append low next item items (id ∷ ids) l h (l', u, named, o) = (
  l',
  omega arith,
  ground (arith, Map.lookup-insert next id item items),
  IsOrdered-append (suc id) next item items ids u h o,
)

-- A dropped head.
pub IsOrdered-remove :
    (low next k : ℕ) (items : Map.Map QueuedSwapItem) (ids : List ℕ)
    → k < low
    → IsOrdered low next items ids
    → IsOrdered low next (Map.remove k items) ids
IsOrdered-remove low next k items [] h o = tt
IsOrdered-remove low next k items (id ∷ ids) h (l, u, named, o) = (
  l,
  u,
  ground (arith, Map.lookup-remove k id items),
  IsOrdered-remove (suc id) next k items ids (omega arith) o,
)

pub IsOrdered-weaken :
    (low low' next : ℕ) (items : Map.Map QueuedSwapItem) (ids : List ℕ)
    → low' ≤ low
    → IsOrdered low next items ids
    → IsOrdered low' next items ids
IsOrdered-weaken low low' next items [] h o = tt
IsOrdered-weaken low low' next items (id ∷ ids) h (l, u, named, o) = (omega arith, u, named, o)

module _ {B : Type 0} where
  queue_swap-full :
      (account_id : ℕ) (call : QueuedSwapCall) (s : State B)
      → leb s.params.max_swap_queue_length (length s.swap_queue.swap_queue_order) ≡ true
      → (queue_swap account_id call s).1.swap_queue ≡ s.swap_queue
  unfolding queue_swap
  queue_swap-full account_id call s h = ground arith

  queue_swap-free :
      (account_id : ℕ) (call : QueuedSwapCall) (s : State B)
      → s.swap_queue.next_swap_queue_id < u32_max
      → leb s.params.max_swap_queue_length (length s.swap_queue.swap_queue_order) ≡ false
      → (queue_swap account_id call s).1.swap_queue ≡ record {
        swap_queue_order = s.swap_queue.swap_queue_order ++ (s.swap_queue.next_swap_queue_id ∷ []);
        swap_call_queue =
            Map.insert s.swap_queue.next_swap_queue_id
              (queued_item call s)
              s.swap_queue.swap_call_queue;
        next_swap_queue_id = suc s.swap_queue.next_swap_queue_id;
      }
  unfolding queue_swap
  queue_swap-free account_id call s room h = ground arith

  -- While the next id is below the largest u32: queueing a swap, whether it succeeds or finds the
  -- queue full, keeps the queue well-formed: its ids increase and each has an item that carries it,
  -- and its length is within the limit.
  pub queue_swap-IsQueue :
      (account_id : ℕ) (call : QueuedSwapCall) (s : State B)
      → s.swap_queue.next_swap_queue_id < u32_max
      → IsQueue s.params.max_swap_queue_length s.swap_queue
      → IsQueue s.params.max_swap_queue_length (queue_swap account_id call s).1.swap_queue
  queue_swap-IsQueue account_id call s room (o, bound) =
      let q = s.swap_queue in
      let limit = s.params.max_swap_queue_length in
      elim (Bool-cases (leb limit (length q.swap_queue_order))) [
        | inl full ↦ subst (IsQueue limit) (sym (queue_swap-full account_id call s full)) (o, bound)
        | inr free ↦ subst (IsQueue limit) (sym (queue_swap-free account_id call s room free)) (
          IsOrdered-append 0 q.next_swap_queue_id (queued_item call s) q.swap_call_queue
              q.swap_queue_order (omega arith) refl o,
          ground (arith, length-append q.swap_queue_order (q.next_swap_queue_id ∷ [])),
        )
      ]

  -- What an update does: nothing, or one item has another call.
  reroute-cases :
      (key id : ℕ) (item : QueuedSwapItem) (new_call : QueuedSwapCall) (s : State B)
      → ((reroute key id item new_call s).1 ≡ s)
        ⊎ ((call : QueuedSwapCall) × ((reroute key id item new_call s).1
              ≡ set_queued_call id item call s))
  unfolding reroute
  reroute-cases key id item (swap_to_subnet_delegate_stake a j x) s = elim (Bool-cases (a == key)) [
    | inr other ↦ inl (ground arith)
    | inl mine ↦ elim (Bool-cases (Map.contains_key j s.registry.subnets_data)) [
      | inr missing ↦ inl (ground arith)
      | inl exists ↦
          inr (swap_to_subnet_delegate_stake a j (get_queue_balance item.call), ground arith)
    ]
  ]
  reroute-cases key id item (swap_to_validator_delegate_stake a j x) s =
      elim (Bool-cases (a == key)) [
        | inr other ↦ inl (ground arith)
        | inl mine ↦ elim (Bool-cases (Map.contains_key j s.registry.validators_data)) [
          | inr missing ↦ inl (ground arith)
          | inl exists ↦
              inr (swap_to_validator_delegate_stake a j (get_queue_balance item.call), ground arith)
        ]
      ]

  reroute-IsQueue :
      (limit key id : ℕ) (item : QueuedSwapItem) (new_call : QueuedSwapCall) (s : State B)
      → Map.lookup id s.swap_queue.swap_call_queue ≡ some item
      → IsQueue limit s.swap_queue
      → IsQueue limit (reroute key id item new_call s).1.swap_queue
  reroute-IsQueue limit key id item new_call s found (o, bound) =
      elim (reroute-cases key id item new_call s) [
        | inl same ↦ subst (λ s'. IsQueue limit s'.swap_queue) (sym same) (o, bound)
        | inr (call, written) ↦
            subst (λ (s' : State B). IsQueue limit s'.swap_queue) (sym written)
              (
                IsOrdered-insert 0 s.swap_queue.next_swap_queue_id id (record item { call = call })
                    s.swap_queue.swap_call_queue s.swap_queue.swap_queue_order (ap item_id found) o,
                bound,
              )
      ]

  update-missing :
      (key id : ℕ) (new_call : QueuedSwapCall) (s : State B)
      → Map.lookup id s.swap_queue.swap_call_queue ≡ none
      → (do_update_swap_queue key id new_call s).1 ≡ s
  unfolding do_update_swap_queue
  update-missing key id new_call s missing = ground arith

  update-found :
      (key id : ℕ) (item : QueuedSwapItem) (new_call : QueuedSwapCall) (s : State B)
      → Map.lookup id s.swap_queue.swap_call_queue ≡ some item
      → do_update_swap_queue key id new_call s ≡ reroute key id item new_call s
  unfolding do_update_swap_queue
  update-found key id item new_call s found = ground arith

  -- An update of a queued swap, whether it succeeds or not, keeps a well-formed queue so: its ids
  -- increase and each has an item that carries it, and its length is within the limit.
  pub do_update_swap_queue-IsQueue :
      (limit key id : ℕ) (new_call : QueuedSwapCall) (s : State B)
      → IsQueue limit s.swap_queue
      → IsQueue limit (do_update_swap_queue key id new_call s).1.swap_queue
  do_update_swap_queue-IsQueue limit key id new_call s q =
      elim (Option-cases (Map.lookup id s.swap_queue.swap_call_queue)) [
        | inl missing ↦
            subst (λ s'. IsQueue limit s'.swap_queue)
              (sym (update-missing key id new_call s missing)) q
        | inr (item, found) ↦
            subst (λ r. IsQueue limit r.1.swap_queue)
              (sym (update-found key id item new_call s found))
              (reroute-IsQueue limit key id item new_call s found q)
      ]
