-- ===== src/SwapQueue/Execute.antt =====
-- The execution of queued swaps in every block: `execute_ready_swap_calls` and
-- `execute_swap_call_internal` of pallets/network/src/lib.rs.
use hypertensor_blockchain.Common.{
  ℕ, zero, suc, Bool, true, false, none, some, List, [], ◌∷◌, leb, if◌then◌else◌, saturating_sub,
}
use hypertensor_blockchain.Common.Map
use hypertensor_blockchain.State.{
  State, QueuedSwapCall, swap_to_subnet_delegate_stake, swap_to_validator_delegate_stake,
  QueuedSwapItem,
}
use hypertensor_blockchain.DelegateStake.{handle_increase_account_delegate_stake}
use hypertensor_blockchain.ValidatorStake.{handle_increase_account_validator_delegate_stake}

-- The weights that the execution asks for.
pub data Cost : Type 0 where
  loop_overhead one_read one_read_write one_write handle_increase : Cost

-- `WeightMeter` with the chain's weights: what is left of a block's weight.
pub record Meter (W : Type 0) : Type 0 where
  pub can_consume : Cost → W → Bool
  pub consume : Cost → W → W

abbrev pub is_ready : ℕ → QueuedSwapItem → Bool
is_ready block_number item =
    leb item.execute_after_blocks (saturating_sub block_number item.queued_at_block)

abbrev pub drop_head : {B : Type 0} → ℕ → List ℕ → State B → State B
drop_head first_id rest s = record s {
  swap_queue = record (s.swap_queue) {
    swap_queue_order = rest;
    swap_call_queue = Map.remove first_id s.swap_queue.swap_call_queue;
  };
}

module _ {B W : Type 0} ⦃meter : Meter W⦄ where
  -- `false`, with everything unchanged, where the weight does not suffice. The result of the
  -- deposit is dropped. Only the swap to a subnet consumes its weight.
  unfoldable pub execute_swap_call_internal : QueuedSwapCall → W → State B → Bool × W × State B
  execute_swap_call_internal (swap_to_subnet_delegate_stake account_id to_subnet_id balance) w s =
      if meter.can_consume Cost.handle_increase w
      then (
        true,
        meter.consume Cost.handle_increase w,
        (handle_increase_account_delegate_stake account_id to_subnet_id balance s).1,
      )
      else (false, w, s)
  execute_swap_call_internal (swap_to_validator_delegate_stake account_id to_validator_id balance) w
        s =
      if meter.can_consume Cost.handle_increase w
      then (
        true,
        w,
        (handle_increase_account_validator_delegate_stake account_id to_validator_id balance s).1,
      )
      else (false, w, s)

  -- What follows the call: it is dropped from the queue if it was made.
  abbrev pub after_call : ℕ → List ℕ → Bool × W × State B → Bool × W × State B
  after_call first_id rest (true, w, s) =
      (true, meter.consume Cost.one_write w, drop_head first_id rest s)
  after_call first_id rest (false, w, s) = (false, w, s)

  -- The head of the queue: executed and dropped if it is ready and the weight suffices.
  unfoldable pub execute_item : ℕ → ℕ → List ℕ → QueuedSwapItem → W → State B → Bool × W × State B
  execute_item block_number first_id rest item w s =
      if is_ready block_number item
      then after_call first_id rest (execute_swap_call_internal item.call w s)
      else (false, w, s)

  -- The closure of the loop, on the queue's order.
  unfoldable pub execute_head : ℕ → List ℕ → W → State B → Bool × W × State B
  unfolding execute_item
  execute_head block_number [] w s = (false, w, s)
  execute_head block_number (first_id ∷ rest) w s =
      let w' = meter.consume Cost.one_read w in
      elim (Map.lookup first_id s.swap_queue.swap_call_queue) [
        | none ↦ (false, w', s)
        | some item ↦ execute_item block_number first_id rest item w' s
      ]

  -- `while executed < max_executions`, on the rounds left
  unfoldable pub execute_rounds : ℕ → ℕ → W → State B → W × State B
  unfolding execute_head
  execute_rounds zero block_number w s = (w, s)
  execute_rounds (suc left) block_number w s =
      let w' = meter.consume Cost.one_read_write (meter.consume Cost.loop_overhead w) in
      let (should_continue, w_left, s') =
        execute_head block_number s.swap_queue.swap_queue_order w' s in
      elim should_continue [
        | true ↦ execute_rounds left block_number w_left s'
        | false ↦ (w_left, s')
      ]

  unfoldable pub execute_ready_swap_calls : ℕ → W → State B → W × State B
  unfolding execute_rounds
  execute_ready_swap_calls block_number w s =
      execute_rounds s.params.max_swap_queue_calls_per_block block_number
        (meter.consume Cost.one_read w) s
