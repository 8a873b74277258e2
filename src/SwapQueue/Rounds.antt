-- ===== src/SwapQueue/Rounds.antt =====
-- One round of the execution of the swap queue (`execute_ready_swap_calls`,
-- pallets/network/src/lib.rs).
use hypertensor_blockchain.Common.{
  ℕ, ◌≡◌, refl, sym, subst, Bool, true, false, Option, none, some, List, ◌∷◌, arith, ◌==◌, inl, inr,
  Option-cases, Bool-cases, if_intro, ◌⊎◌,
}
use hypertensor_blockchain.Common.Map
use hypertensor_blockchain.State.{
  State, SwapQueue, Result, QueuedSwapCall, swap_to_subnet_delegate_stake,
  swap_to_validator_delegate_stake, QueuedSwapItem,
}
use hypertensor_blockchain.Pools.{shares_for}
use hypertensor_blockchain.DelegateStake.{
  handle_increase_account_delegate_stake, increase_account_delegate_stake,
}
use hypertensor_blockchain.ValidatorStake.{
  handle_increase_account_validator_delegate_stake, increase_account_validator_delegate_stake,
}
use hypertensor_blockchain.SwapQueue.Execute.{
  Meter, Cost, execute_swap_call_internal, is_ready, execute_item, execute_head,
}

-- A deposit leaves the queue alone.
deposit_to_subnet-frame :
    {B : Type 0} (a j x : ℕ) (s : State B)
    → (handle_increase_account_delegate_stake a j x s).1.swap_queue ≡ s.swap_queue
unfolding handle_increase_account_delegate_stake increase_account_delegate_stake
deposit_to_subnet-frame a j x s =
    if_intro (λ (r : Result (ℕ × ℕ) × State _). r.1.swap_queue ≡ s.swap_queue)
      (shares_for j x s.subnet_pools == 0) refl refl

deposit_to_validator-frame :
    {B : Type 0} (a j x : ℕ) (s : State B)
    → (handle_increase_account_validator_delegate_stake a j x s).1.swap_queue ≡ s.swap_queue
unfolding handle_increase_account_validator_delegate_stake increase_account_validator_delegate_stake
deposit_to_validator-frame a j x s =
    if_intro (λ (r : Result (ℕ × ℕ) × State _). r.1.swap_queue ≡ s.swap_queue)
      (shares_for j x s.validator_pools == 0) refl refl

-- The queue without its head.
abbrev pub without_head : ℕ → List ℕ → SwapQueue → SwapQueue
without_head first_id rest q = record q {
  swap_queue_order = rest;
  swap_call_queue = Map.remove first_id q.swap_call_queue;
}

-- The item of a ready id.
abbrev pub is_ready_in : ℕ → Option QueuedSwapItem → Bool
is_ready_in block_number none = false
is_ready_in block_number (some item) = is_ready block_number item

module _ {B W : Type 0} ⦃meter : Meter W⦄ where
  call-frame :
      (call : QueuedSwapCall) (w : W) (s : State B)
      → (execute_swap_call_internal call w s).2.swap_queue ≡ s.swap_queue
  unfolding execute_swap_call_internal
  call-frame (swap_to_subnet_delegate_stake a j x) w s =
      ground (arith, deposit_to_subnet-frame a j x s)
  call-frame (swap_to_validator_delegate_stake a j x) w s =
      ground (arith, deposit_to_validator-frame a j x s)

  -- A round goes on exactly with the head, a ready item, taken off the queue, and stops with the
  -- queue as it was.
  abbrev pub IsRound : ℕ → ℕ → List ℕ → State B → Bool × W × State B → Type 0
  IsRound block_number first_id rest s (go_on, w', s') =
      ((go_on ≡ true)
        × (s'.swap_queue ≡ without_head first_id rest s.swap_queue)
        × (is_ready_in block_number (Map.lookup first_id s.swap_queue.swap_call_queue) ≡ true))
      ⊎ ((go_on ≡ false) × (s'.swap_queue ≡ s.swap_queue))

  item-IsRound :
      (block_number first_id : ℕ) (rest : List ℕ) (item : QueuedSwapItem) (w : W) (s : State B)
      → Map.lookup first_id s.swap_queue.swap_call_queue ≡ some item
      → IsRound block_number first_id rest s (execute_item block_number first_id rest item w s)
  unfolding execute_item
  item-IsRound block_number first_id rest item w s found =
      elim (Bool-cases (is_ready block_number item)) [
        | inr early ↦ inr (ground arith, ground arith)
        | inl ready ↦ elim (Bool-cases (execute_swap_call_internal item.call w s).0) [
          | inl made ↦ inl (ground arith, ground (arith, call-frame item.call w s), ground arith)
          | inr not_made ↦ inr (ground arith, ground (arith, call-frame item.call w s))
        ]
      ]

  head-found :
      (block_number first_id : ℕ) (rest : List ℕ) (item : QueuedSwapItem) (w : W) (s : State B)
      → Map.lookup first_id s.swap_queue.swap_call_queue ≡ some item
      → execute_head block_number (first_id ∷ rest) w s
        ≡ execute_item block_number first_id rest item (meter.consume Cost.one_read w) s
  unfolding execute_head
  head-found block_number first_id rest item w s found = ground arith

  head-missing :
      (block_number first_id : ℕ) (rest : List ℕ) (w : W) (s : State B)
      → Map.lookup first_id s.swap_queue.swap_call_queue ≡ none
      → execute_head block_number (first_id ∷ rest) w s ≡ (false, meter.consume Cost.one_read w, s)
  unfolding execute_head
  head-missing block_number first_id rest w s missing = ground arith

  pub head-IsRound :
      (block_number first_id : ℕ) (rest : List ℕ) (w : W) (s : State B)
      → IsRound block_number first_id rest s (execute_head block_number (first_id ∷ rest) w s)
  head-IsRound block_number first_id rest w s =
      elim (Option-cases (Map.lookup first_id s.swap_queue.swap_call_queue)) [
        | inl missing ↦
            subst (IsRound block_number first_id rest s)
              (sym (head-missing block_number first_id rest w s missing)) (inr (refl, refl))
        | inr (item, found) ↦
            subst (IsRound block_number first_id rest s)
              (sym (head-found block_number first_id rest item w s found))
              (item-IsRound block_number first_id rest item (meter.consume Cost.one_read w) s found)
      ]

  -- A call is made exactly if the weight left suffices for it, and leaves the weight as it is if
  -- not.
  call-made :
      (call : QueuedSwapCall) (w : W) (s : State B)
      → ((execute_swap_call_internal call w s).0 ≡ false)
      → meter.can_consume Cost.handle_increase (execute_swap_call_internal call w s).1 ≡ false
  unfolding execute_swap_call_internal
  call-made (swap_to_subnet_delegate_stake a j x) w s not_made = ground arith
  call-made (swap_to_validator_delegate_stake a j x) w s not_made = ground arith

  item-made :
      (block_number first_id : ℕ) (rest : List ℕ) (item : QueuedSwapItem) (w : W) (s : State B)
      → is_ready block_number item ≡ true
      → (execute_item block_number first_id rest item w s).0 ≡ false
      → meter.can_consume Cost.handle_increase (execute_item block_number first_id rest item w s).1
        ≡ false
  unfolding execute_item
  item-made block_number first_id rest item w s ready stop =
      elim (Bool-cases (execute_swap_call_internal item.call w s).0) [
        | inl made ↦ absurd (ground arith)
        | inr not_made ↦ ground (arith, call-made item.call w s not_made)
      ]

  -- A ready head stops the rounds only if the weight left does not suffice for it.
  pub head-made :
      (block_number first_id : ℕ) (rest : List ℕ) (w : W) (s : State B)
      → is_ready_in block_number (Map.lookup first_id s.swap_queue.swap_call_queue) ≡ true
      → (execute_head block_number (first_id ∷ rest) w s).0 ≡ false
      → meter.can_consume Cost.handle_increase (execute_head block_number (first_id ∷ rest) w s).1
        ≡ false
  head-made block_number first_id rest w s ready stop =
      elim (Option-cases (Map.lookup first_id s.swap_queue.swap_call_queue)) [
        | inl missing ↦ absurd (ground arith)
        | inr (item, found) ↦ ground (
          arith,
          head-found block_number first_id rest item w s found,
          item-made block_number first_id rest item (meter.consume Cost.one_read w) s,
        )
      ]
