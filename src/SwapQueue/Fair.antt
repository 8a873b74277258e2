-- ===== src/SwapQueue/Fair.antt =====
-- What the execution of a block does to the swap queue.
use hypertensor_blockchain.Common.{
  ℕ, zero, suc, ◌≤◌, ◌≡◌, refl, sym, ap, subst, ◌∙◌, true, false, List, [], ◌∷◌, ◌++◌, arith, inl,
  inr,
}
use hypertensor_blockchain.Common.Lists.{length, All, All-map, List-cases}
use hypertensor_blockchain.Common.Map
use hypertensor_blockchain.State.{State, SwapQueue, QueuedSwapItem}
use hypertensor_blockchain.SwapQueue.Execute.{
  Meter, Cost, execute_head, execute_rounds, execute_ready_swap_calls,
}
use hypertensor_blockchain.SwapQueue.Order.{IsOrdered, IsQueue, IsOrdered-remove, IsOrdered-weaken}
use hypertensor_blockchain.SwapQueue.Rounds.{head-IsRound, is_ready_in, without_head}

-- At most `limit` swaps are taken from the head, in order, and each is ready.
abbrev pub IsTaken : ℕ → ℕ → SwapQueue → SwapQueue → Type 0
IsTaken limit block_number q q' =
    (taken : List ℕ) × (q.swap_queue_order ≡ taken ++ q'.swap_queue_order)
    × (length taken ≤ limit)
    × All (λ id. is_ready_in block_number (Map.lookup id q.swap_call_queue) ≡ true) taken

is_ready-remove :
    (block_number k id : ℕ) (items : Map.Map QueuedSwapItem)
    → is_ready_in block_number (Map.lookup id (Map.remove k items)) ≡ true
    → is_ready_in block_number (Map.lookup id items) ≡ true
is_ready-remove block_number k id items h = ground (arith, Map.lookup-remove k id items)

IsTaken-more :
    (limit block_number first_id : ℕ) (rest : List ℕ) (q q' : SwapQueue)
    → q.swap_queue_order ≡ first_id ∷ rest
    → is_ready_in block_number (Map.lookup first_id q.swap_call_queue) ≡ true
    → IsTaken limit block_number (without_head first_id rest q) q'
    → IsTaken (suc limit) block_number q q'
IsTaken-more limit block_number first_id rest q q' order ready (taken, split, few, all_ready) = (
  first_id ∷ taken,
  order ∙ ap (λ ids. first_id ∷ ids) split,
  omega arith,
  (
    ready,
    All-map taken (λ id. is_ready-remove block_number first_id id q.swap_call_queue) all_ready,
  ),
)

IsTaken-none :
    (limit block_number : ℕ) (q q' : SwapQueue) → q' ≡ q → IsTaken limit block_number q q'
IsTaken-none limit block_number q q' same =
    ([], ap (λ q. q.swap_queue_order) (sym same), omega arith, tt)

without_head-IsQueue :
    (limit first_id : ℕ) (rest : List ℕ) (q : SwapQueue)
    → q.swap_queue_order ≡ first_id ∷ rest
    → IsQueue limit q
    → IsQueue limit (without_head first_id rest q)
without_head-IsQueue limit first_id rest q order (o, bound) =
    let (low, _, _, tail) = subst (IsOrdered 0 q.next_swap_queue_id q.swap_call_queue) order o in
    (
      IsOrdered-weaken (suc first_id) 0 q.next_swap_queue_id _ rest (omega arith) (
          IsOrdered-remove (suc first_id) q.next_swap_queue_id first_id q.swap_call_queue rest
            (omega arith) tail),
      ground arith,
    )

module _ {W : Type 0} ⦃meter : Meter W⦄ where
  -- The weight after the overhead of a round.
  abbrev pub in_round : W → W
  in_round w = meter.consume Cost.one_read_write (meter.consume Cost.loop_overhead w)

module _ {B W : Type 0} ⦃meter : Meter W⦄ where
  pub rounds-empty :
      (limit block_number : ℕ) (w : W) (s : State B)
      → s.swap_queue.swap_queue_order ≡ []
      → (execute_rounds (suc limit) block_number w s).1 ≡ s
  unfolding execute_rounds execute_head
  rounds-empty limit block_number w s h = ground arith

  pub rounds-stop :
      (limit block_number first_id : ℕ) (rest : List ℕ) (w : W) (s : State B)
      → s.swap_queue.swap_queue_order ≡ first_id ∷ rest
      → (execute_head block_number (first_id ∷ rest) (in_round w) s).0 ≡ false
      → (execute_rounds (suc limit) block_number w s).1
        ≡ (execute_head block_number (first_id ∷ rest) (in_round w) s).2
  unfolding execute_rounds
  rounds-stop limit block_number first_id rest w s order h = ground arith

  pub rounds-go :
      (limit block_number first_id : ℕ) (rest : List ℕ) (w : W) (s : State B)
      → s.swap_queue.swap_queue_order ≡ first_id ∷ rest
      → (execute_head block_number (first_id ∷ rest) (in_round w) s).0 ≡ true
      → let (go_on, w', s') = execute_head block_number (first_id ∷ rest) (in_round w) s in
        execute_rounds (suc limit) block_number w s ≡ execute_rounds limit block_number w' s'
  unfolding execute_rounds
  rounds-go limit block_number first_id rest w s order h = ground arith

  -- A relation of queues that holds of a queue and itself, and stays when a ready head is taken
  -- off, holds of the queues before and after the rounds.
  rounds-induction :
      (R : ℕ → SwapQueue → SwapQueue → Type 0) (limit block_number : ℕ) (w : W) (s : State B)
      → ((n : ℕ) (q q' : SwapQueue) → q' ≡ q → R n q q')
      → ((n first_id : ℕ) (rest : List ℕ) (q q' : SwapQueue)
          → q.swap_queue_order ≡ first_id ∷ rest
          → is_ready_in block_number (Map.lookup first_id q.swap_call_queue) ≡ true
          → R n (without_head first_id rest q) q'
          → R (suc n) q q')
      → R limit s.swap_queue (execute_rounds limit block_number w s).1.swap_queue
  unfolding execute_rounds
  rounds-induction R zero block_number w s stops goes = stops zero s.swap_queue s.swap_queue refl
  rounds-induction R (suc limit) block_number w s stops goes =
      let q = s.swap_queue in
      let after = (execute_rounds (suc limit) block_number w s).1.swap_queue in
      elim (List-cases q.swap_queue_order) [
        | inl empty ↦
            stops (suc limit) q after
              (ap (λ s. s.swap_queue) (rounds-empty limit block_number w s empty))
        | inr (first_id, rest, order) ↦
            let head = execute_head block_number (first_id ∷ rest) (in_round w) s in
            elim (head-IsRound block_number first_id rest (in_round w) s) [
              | inl (go, popped, ready) ↦ goes limit first_id rest q after order ready (
                  subst (λ q1. R limit q1 after) popped
                    (subst (λ r. R limit head.2.swap_queue r.1.swap_queue)
                      (sym (rounds-go limit block_number first_id rest w s order go))
                      (rounds-induction R limit block_number head.1 head.2 stops goes)))
              | inr (stop, same) ↦ stops (suc limit) q after (
                  ap (λ s. s.swap_queue)
                    (rounds-stop limit block_number first_id rest w s order stop)
                  ∙ same)
            ]
      ]

  -- The execution of a block takes swaps from the head of the queue, in order, at most the limit of
  -- a block, and each has waited its blocks; the others keep their places.
  pub execute_ready_swap_calls-IsTaken :
      (block_number : ℕ) (w : W) (s : State B)
      → IsTaken s.params.max_swap_queue_calls_per_block block_number s.swap_queue
          (execute_ready_swap_calls block_number w s).1.swap_queue
  unfolding execute_ready_swap_calls
  execute_ready_swap_calls-IsTaken block_number w s =
      rounds-induction (λ limit. IsTaken limit block_number) s.params.max_swap_queue_calls_per_block
        block_number (meter.consume Cost.one_read w) s (λ n. IsTaken-none n block_number)
        (λ n. IsTaken-more n block_number)

  -- The execution of a block keeps a well-formed queue so: its ids increase and each has an item
  -- that carries it, and its length is within the limit.
  pub execute_ready_swap_calls-IsQueue :
      (limit block_number : ℕ) (w : W) (s : State B)
      → IsQueue limit s.swap_queue
      → IsQueue limit (execute_ready_swap_calls block_number w s).1.swap_queue
  unfolding execute_ready_swap_calls
  execute_ready_swap_calls-IsQueue limit block_number w s =
      rounds-induction (λ n q q'. IsQueue limit q → IsQueue limit q')
        s.params.max_swap_queue_calls_per_block block_number (meter.consume Cost.one_read w) s
        (λ n q q' same. subst (IsQueue limit) (sym same))
        λ n first_id rest q q' order ready ih h.
          ih (without_head-IsQueue limit first_id rest q order h)
