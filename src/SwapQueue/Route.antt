-- ===== src/SwapQueue/Route.antt =====
-- Re-routing of a queued swap.
use hypertensor_blockchain.Common.{ℕ, ◌≡◌, true, some, arith, inl, inr, Option-cases}
use hypertensor_blockchain.Common.Map
use hypertensor_blockchain.State.{
  State, SwapQueue, QueuedSwapCall, swap_to_subnet_delegate_stake, swap_to_validator_delegate_stake,
  QueuedSwapItem, ok,
}
use hypertensor_blockchain.SwapQueue.{get_queue_balance, account_of, do_update_swap_queue}

-- The balance that waits in the queue.
abbrev pub queued_sum : SwapQueue → ℕ
queued_sum q = Map.total_by (λ (i : QueuedSwapItem). get_queue_balance i.call) q.swap_call_queue

-- A successful update names its caller as the account of the swap, keeps the balance of every
-- queued swap and of the queue, and the order.
pub do_update_swap_queue_lem :
    {B : Type 0} (key id : ℕ) (new_call : QueuedSwapCall) (s s' : State B)
    → do_update_swap_queue key id new_call s ≡ (ok tt, s')
    → (account_of new_call ≡ key)
      × (queued_sum s'.swap_queue ≡ queued_sum s.swap_queue)
      × (s'.swap_queue.swap_queue_order ≡ s.swap_queue.swap_queue_order)
      × (s'.swap_queue.next_swap_queue_id ≡ s.swap_queue.next_swap_queue_id)
unfolding do_update_swap_queue
do_update_swap_queue_lem key id (swap_to_subnet_delegate_stake a j x) s s' h =
    elim (Option-cases (Map.lookup id s.swap_queue.swap_call_queue)) [
      | inl missing ↦ ground arith
      | inr (item, found) ↦ ground (
        arith,
        Map.total_by-insert (λ (i : QueuedSwapItem). get_queue_balance i.call) id
            (record item { call = swap_to_subnet_delegate_stake a j (get_queue_balance item.call) })
            s.swap_queue.swap_call_queue,
      )
    ]
do_update_swap_queue_lem key id (swap_to_validator_delegate_stake a j x) s s' h =
    elim (Option-cases (Map.lookup id s.swap_queue.swap_call_queue)) [
      | inl missing ↦ ground arith
      | inr (item, found) ↦ ground (
        arith,
        Map.total_by-insert (λ (i : QueuedSwapItem). get_queue_balance i.call) id
            (record item {
              call = swap_to_validator_delegate_stake a j (get_queue_balance item.call);
            })
            s.swap_queue.swap_call_queue,
      )
    ]

-- Whoever queued a swap, any account may take it over: an update of a queued swap that names the
-- caller and an existing subnet succeeds, and the queued balance is then to be delegated for the
-- caller.
pub do_update_swap_queue_takes_over :
    {B : Type 0} (key id subnet x : ℕ) (item : QueuedSwapItem) (s : State B)
    → Map.lookup id s.swap_queue.swap_call_queue ≡ some item
    → Map.contains_key subnet s.registry.subnets_data ≡ true
    → let (r, s') = do_update_swap_queue key id (swap_to_subnet_delegate_stake key subnet x) s in
      (r ≡ ok tt)
      × (Map.lookup id s'.swap_queue.swap_call_queue
          ≡ some (record item {
            call = swap_to_subnet_delegate_stake key subnet (get_queue_balance item.call);
          }))
unfolding do_update_swap_queue
do_update_swap_queue_takes_over key id subnet x item s queued exists = ground (
  arith,
  Map.lookup-insert id id
      (record item {
        call = swap_to_subnet_delegate_stake key subnet (get_queue_balance item.call);
      })
      s.swap_queue.swap_call_queue,
)
