-- ===== src/SwapQueue/Progress.antt =====
-- When the execution of the swap queue stops (`execute_ready_swap_calls`,
-- pallets/network/src/lib.rs).
use hypertensor_blockchain.Common.{
  ℕ, zero, suc, ◌+◌, ◌≡◌, sym, subst, Bool, false, List, [], ◌∷◌, arith, inl, inr, Bool-cases, ◌⊎◌,
}
use hypertensor_blockchain.Common.Lists.{length, List-cases}
use hypertensor_blockchain.Common.Map
use hypertensor_blockchain.State.{State, SwapQueue}
use hypertensor_blockchain.SwapQueue.Execute.{
  Meter, Cost, execute_head, execute_rounds, execute_ready_swap_calls,
}
use hypertensor_blockchain.SwapQueue.Rounds.{head-IsRound, head-made, is_ready_in, without_head}
use hypertensor_blockchain.SwapQueue.Fair.{in_round, rounds-empty, rounds-stop, rounds-go}

abbrev pub is_head_ready : ℕ → SwapQueue → Bool
is_head_ready block_number q = elim q.swap_queue_order [
  | [] ↦ false
  | id ∷ ids ↦ is_ready_in block_number (Map.lookup id q.swap_call_queue)
]

module _ {B W : Type 0} ⦃meter : Meter W⦄ where
  -- Stopped at the limit, or at a head that is not ready, or with too little weight for another
  -- swap.
  abbrev pub HasStopped : ℕ → ℕ → SwapQueue → W × State B → Type 0
  HasStopped limit block_number q (w', s') =
      (length q.swap_queue_order ≡ limit + length s'.swap_queue.swap_queue_order)
      ⊎ ((is_head_ready block_number s'.swap_queue ≡ false)
          ⊎ (meter.can_consume Cost.handle_increase w' ≡ false))

  stopped-more :
      (limit block_number first_id : ℕ) (rest : List ℕ) (q q1 : SwapQueue) (r : W × State B)
      → q.swap_queue_order ≡ first_id ∷ rest
      → q1 ≡ without_head first_id rest q
      → HasStopped limit block_number q1 r
      → HasStopped (suc limit) block_number q r
  stopped-more limit block_number first_id rest q q1 r order popped (inl all) = inl (ground arith)
  stopped-more limit block_number first_id rest q q1 r order popped (inr waits) = inr waits

  rounds-weight :
      (limit block_number first_id : ℕ) (rest : List ℕ) (w : W) (s : State B)
      → s.swap_queue.swap_queue_order ≡ first_id ∷ rest
      → (execute_head block_number (first_id ∷ rest) (in_round w) s).0 ≡ false
      → (execute_rounds (suc limit) block_number w s).0
        ≡ (execute_head block_number (first_id ∷ rest) (in_round w) s).1
  unfolding execute_rounds
  rounds-weight limit block_number first_id rest w s order h = ground arith

  rounds-progress :
      (limit block_number : ℕ) (w : W) (s : State B)
      → HasStopped limit block_number s.swap_queue (execute_rounds limit block_number w s)
  unfolding execute_rounds
  rounds-progress zero block_number w s = inl (omega arith)
  rounds-progress (suc limit) block_number w s =
      let q = s.swap_queue in
      let after = execute_rounds (suc limit) block_number w s in
      elim (List-cases q.swap_queue_order) [
        | inl empty ↦ inr (inl (ground (arith, rounds-empty limit block_number w s)))
        | inr (first_id, rest, order) ↦
            let head = execute_head block_number (first_id ∷ rest) (in_round w) s in
            elim (head-IsRound block_number first_id rest (in_round w) s) [
              | inl (go, popped, _) ↦
                  stopped-more limit block_number first_id rest q head.2.swap_queue after order
                    popped
                    (subst (HasStopped limit block_number head.2.swap_queue)
                      (sym (rounds-go limit block_number first_id rest w s order go))
                      (rounds-progress limit block_number head.1 head.2))
              | inr (stop, same) ↦
                  elim (Bool-cases
                    (is_ready_in block_number (Map.lookup first_id q.swap_call_queue))) [
                      | inl ready ↦ inr (
                          inr (
                            ground (
                              arith,
                              rounds-weight limit block_number first_id rest w s order stop,
                              head-made block_number first_id rest (in_round w) s ready stop,
                            )))
                      | inr waits ↦ inr (
                          inl (
                            ground
                              (arith, rounds-stop limit block_number first_id rest w s order stop)))
                    ]
            ]
      ]

  -- The execution of a block stops only when it has made as many swaps as the limit of a block, or
  -- when the queue is empty or its head is not ready, or when the weight that is left does not
  -- suffice for another swap.
  pub execute_ready_swap_calls-HasStopped :
      (block_number : ℕ) (w : W) (s : State B)
      → HasStopped s.params.max_swap_queue_calls_per_block block_number s.swap_queue
          (execute_ready_swap_calls block_number w s)
  unfolding execute_ready_swap_calls
  execute_ready_swap_calls-HasStopped block_number w s =
      rounds-progress s.params.max_swap_queue_calls_per_block block_number
        (meter.consume Cost.one_read w) s
