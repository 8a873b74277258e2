-- ===== src/SwapQueue.antt =====
-- The queue of stake swaps: queueing and re-routing (pallets/network/src/stake/staking_queue.rs),
-- the calls that fill it (pallets/network/src/stake/transfer_utils.rs), and its execution in every
-- block (`execute_ready_swap_calls`, pallets/network/src/lib.rs). The weight that a block may use
-- is an argument: `WeightMeter` belongs to another repository.
use hypertensor_blockchain.Common.{
  ℕ, zero, suc, ◌+◌, ◌-◌, ◌≤◌, Bool, true, false, not, Option, none, some, List, [], ◌∷◌, ◌++◌, ltb,
  leb, ◌==◌, if◌then◌else◌, saturating_add_u32, saturating_sub,
}
use hypertensor_blockchain.Common.Lists.{length}
use hypertensor_blockchain.Common.Map
use hypertensor_blockchain.State.{
  State, SwapQueue, QueuedSwapCall, swap_to_subnet_delegate_stake, swap_to_validator_delegate_stake,
  QueuedSwapItem, Currency, Call, Origin, Result, ok, err, ◌>>=◌, ◌>>◌, pure, gets, modify, ensure,
  or_error, ensure_signed, swap_queue_full, swap_call_not_found, not_key_owner, invalid_subnet_id,
  invalid_validator_id,
}
use hypertensor_blockchain.DelegateStake.{
  handle_increase_account_delegate_stake, perform_do_remove_subnet_delegate_stake,
}
use hypertensor_blockchain.ValidatorStake.{
  handle_increase_account_validator_delegate_stake, perform_do_remove_validator_delegate_stake,
}
pub mod Execute
pub mod Fair
pub mod Order
pub mod Progress
pub mod Rounds
pub mod Swaps
pub mod Route

abbrev pub get_queue_balance : QueuedSwapCall → ℕ
get_queue_balance (swap_to_subnet_delegate_stake a j x) = x
get_queue_balance (swap_to_validator_delegate_stake a j x) = x

abbrev pub account_of : QueuedSwapCall → ℕ
account_of (swap_to_subnet_delegate_stake a j x) = a
account_of (swap_to_validator_delegate_stake a j x) = a

module _ {B : Type 0} where
  abbrev pub queued_item : QueuedSwapCall → State B → QueuedSwapItem
  queued_item call s = record {
    id = s.swap_queue.next_swap_queue_id;
    call = call;
    queued_at_block = s.block_number;
    execute_after_blocks = s.params.epoch_length;
  }

  unfoldable pub queue_swap : ℕ → QueuedSwapCall → Call (State B) (Unit {0})
  queue_swap account_id call s =
      let q = s.swap_queue in
      let id = q.next_swap_queue_id in
      if leb s.params.max_swap_queue_length (length q.swap_queue_order)
      then (err swap_queue_full, s)
      else (
        ok tt,
        record s {
          swap_queue = record {
            swap_queue_order = q.swap_queue_order ++ (id ∷ []);
            swap_call_queue = Map.insert id (queued_item call s) q.swap_call_queue;
            next_swap_queue_id = saturating_add_u32 id 1;
          };
        },
      )

  abbrev pub set_queued_call : ℕ → QueuedSwapItem → QueuedSwapCall → State B → State B
  set_queued_call id item call s = record s {
    swap_queue = record (s.swap_queue) {
      swap_call_queue = Map.insert id (record item { call = call }) s.swap_queue.swap_call_queue;
    };
  }

  -- The branch of `do_update_swap_queue` for the new call; the test of the key reads the account of
  -- the new call alone.
  unfoldable pub reroute : ℕ → ℕ → QueuedSwapItem → QueuedSwapCall → Call (State B) (Unit {0})
  reroute key id item (swap_to_subnet_delegate_stake account_id to_subnet_id balance) = do
    ensure (account_id == key) not_key_owner
    s ← gets (λ s. s)
    ensure (Map.contains_key to_subnet_id s.registry.subnets_data) invalid_subnet_id
    modify (
        set_queued_call id item
          (swap_to_subnet_delegate_stake account_id to_subnet_id (get_queue_balance item.call)))
  reroute key id item (swap_to_validator_delegate_stake account_id to_validator_id balance) = do
    ensure (account_id == key) not_key_owner
    s ← gets (λ s. s)
    ensure (Map.contains_key to_validator_id s.registry.validators_data) invalid_validator_id
    modify (
        set_queued_call id item (
          swap_to_validator_delegate_stake account_id to_validator_id
            (get_queue_balance item.call)))

  unfoldable pub do_update_swap_queue : ℕ → ℕ → QueuedSwapCall → Call (State B) (Unit {0})
  unfolding reroute
  do_update_swap_queue key id new_call = do
    s ← gets (λ s. s)
    item ← or_error (Map.lookup id s.swap_queue.swap_call_queue) swap_call_not_found
    reroute key id item new_call

module _ {B : Type 0} ⦃currency : Currency B⦄ where
  unfoldable pub do_swap_from_subnet_to_subnet : Origin → ℕ → ℕ → ℕ → Call (State B) (Unit {0})
  unfolding perform_do_remove_subnet_delegate_stake
  do_swap_from_subnet_to_subnet origin from_subnet_id to_subnet_id shares = do
    account_id ← ensure_signed origin
    removed ← perform_do_remove_subnet_delegate_stake account_id from_subnet_id shares false
    queue_swap account_id (swap_to_subnet_delegate_stake account_id to_subnet_id removed.0)

  unfoldable pub do_swap_from_subnet_to_validator : Origin → ℕ → ℕ → ℕ → Call (State B) (Unit {0})
  unfolding perform_do_remove_subnet_delegate_stake
  do_swap_from_subnet_to_validator origin from_subnet_id to_validator_id shares = do
    account_id ← ensure_signed origin
    removed ← perform_do_remove_subnet_delegate_stake account_id from_subnet_id shares false
    queue_swap account_id (swap_to_validator_delegate_stake account_id to_validator_id removed.0)

  unfoldable pub do_swap_from_validator_to_subnet : Origin → ℕ → ℕ → ℕ → Call (State B) (Unit {0})
  unfolding perform_do_remove_validator_delegate_stake
  do_swap_from_validator_to_subnet origin from_validator_id to_subnet_id shares = do
    account_id ← ensure_signed origin
    removed ← perform_do_remove_validator_delegate_stake account_id from_validator_id shares false
    queue_swap account_id (swap_to_subnet_delegate_stake account_id to_subnet_id removed.0)

  unfoldable pub do_swap_from_validator_to_validator :
      Origin → ℕ → ℕ → ℕ → Call (State B) (Unit {0})
  unfolding perform_do_remove_validator_delegate_stake
  do_swap_from_validator_to_validator origin from_validator_id to_validator_id shares = do
    account_id ← ensure_signed origin
    removed ← perform_do_remove_validator_delegate_stake account_id from_validator_id shares false
    queue_swap account_id (swap_to_validator_delegate_stake account_id to_validator_id removed.0)
