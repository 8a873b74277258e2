-- ===== src/Tests/Queue.antt =====
-- The swap queue.
use hypertensor_blockchain.Common.{ℕ, leb, saturating_sub, ◌≡◌, refl, some, arith}
use hypertensor_blockchain.Common.Map
use hypertensor_blockchain.Common.Map.{get_double, insert_double}
use hypertensor_blockchain.State.{
  State, Origin, ok, swap_to_subnet_delegate_stake, swap_to_validator_delegate_stake,
}
use hypertensor_blockchain.Math.{checked_mul_div}
use hypertensor_blockchain.Shares.{convert_to_balance}
use hypertensor_blockchain.Pools.{decrease_account}
use hypertensor_blockchain.DelegateStake.{decrease_account_delegate_stake}
use hypertensor_blockchain.ValidatorStake.{decrease_account_validator_delegate_stake}
use hypertensor_blockchain.SwapQueue.{
  queue_swap, do_update_swap_queue, do_swap_from_subnet_to_subnet, do_swap_from_subnet_to_validator,
  do_swap_from_validator_to_subnet, do_swap_from_validator_to_validator,
}
use hypertensor_blockchain.SwapQueue.Execute.{Meter, execute_ready_swap_calls}
use hypertensor_blockchain.SwapQueue.Route.{do_update_swap_queue_takes_over}
use hypertensor_blockchain.SwapQueue.Order.{IsQueue}
use hypertensor_blockchain.SwapQueue.Fair.{
  IsTaken, execute_ready_swap_calls-IsTaken, execute_ready_swap_calls-IsQueue,
}
use hypertensor_blockchain.SwapQueue.Progress.{HasStopped, execute_ready_swap_calls-HasStopped}
use hypertensor_blockchain.SwapQueue.Swaps.{IsConserved, do_swap_from_subnet_to_validator_lem}
use hypertensor_blockchain.Tests.Bank.{Bank, bank}
use hypertensor_blockchain.Tests.Chain.{chain, queue, queue-IsQueue, pools-IsBacked}

-- A meter of the weight that is left: a swap needs 100, and a step consumes 1.
instance abbrev counter : Meter ℕ
counter = record { can_consume = λ c w. leb 100 w; consume = λ c w. saturating_sub w 1 }

abbrev after_block : State Bank
after_block = (execute_ready_swap_calls {W = ℕ} 1000 500 chain).1

-- At block 1000 the first swap is ready and the second is not.
execute_ready_swap_calls-IsTaken_example : IsTaken 2 1000 queue after_block.swap_queue
execute_ready_swap_calls-IsTaken_example = execute_ready_swap_calls-IsTaken {W = ℕ} 1000 500 chain

execute_ready_swap_calls-IsQueue_example : IsQueue 4 after_block.swap_queue
execute_ready_swap_calls-IsQueue_example =
    execute_ready_swap_calls-IsQueue {W = ℕ} 4 1000 500 chain queue-IsQueue

execute_ready_swap_calls-HasStopped_example :
    HasStopped 2 1000 queue (execute_ready_swap_calls {W = ℕ} 1000 500 chain)
execute_ready_swap_calls-HasStopped_example =
    execute_ready_swap_calls-HasStopped {W = ℕ} 1000 500 chain

abbrev after_update : State Bank
after_update = (do_update_swap_queue 1 1 (swap_to_subnet_delegate_stake 1 1 0) chain).1

updated :
    do_update_swap_queue 1 1 (swap_to_subnet_delegate_stake 1 1 0) chain ≡ (ok tt, after_update)
unfolding do_update_swap_queue Map.lookup Map.insert
updated = refl

-- Account 3 takes over the swap of account 2.
do_update_swap_queue_takes_over_example :
    let (r, s') = do_update_swap_queue 3 0 (swap_to_subnet_delegate_stake 3 1 0) chain in
    (r ≡ ok tt)
    × (Map.lookup 0 s'.swap_queue.swap_call_queue
        ≡ some (record {
          id = 0;
          call = swap_to_subnet_delegate_stake 3 1 5000;
          queued_at_block = 800;
          execute_after_blocks = 100;
        }))
unfolding Map.lookup
do_update_swap_queue_takes_over_example =
    do_update_swap_queue_takes_over 3 0 1 0
      (record {
        id = 0;
        call = swap_to_subnet_delegate_stake 2 1 5000;
        queued_at_block = 800;
        execute_after_blocks = 100;
      })
      chain refl refl

abbrev after_subnet_to_subnet : State Bank
after_subnet_to_subnet = (do_swap_from_subnet_to_subnet (Origin.signed 1) 1 1 6000 chain).1

subnet_to_subnet :
    do_swap_from_subnet_to_subnet (Origin.signed 1) 1 1 6000 chain ≡ (ok tt, after_subnet_to_subnet)
unfolding do_swap_from_subnet_to_subnet decrease_account_delegate_stake decrease_account queue_swap
    convert_to_balance checked_mul_div Map.lookup Map.insert get_double insert_double
subnet_to_subnet = refl

abbrev after_subnet_to_validator : State Bank
after_subnet_to_validator = (do_swap_from_subnet_to_validator (Origin.signed 1) 1 1 6000 chain).1

subnet_to_validator :
    do_swap_from_subnet_to_validator (Origin.signed 1) 1 1 6000 chain
    ≡ (ok tt, after_subnet_to_validator)
unfolding do_swap_from_subnet_to_validator decrease_account_delegate_stake decrease_account
    queue_swap convert_to_balance checked_mul_div Map.lookup Map.insert get_double insert_double
subnet_to_validator = refl

do_swap_from_subnet_to_validator_example :
    IsConserved
      (λ s. s.subnet_pools)
      1
      1
      6000
      (swap_to_validator_delegate_stake 1 1)
      chain
      after_subnet_to_validator
unfolding Map.lookup
do_swap_from_subnet_to_validator_example =
    do_swap_from_subnet_to_validator_lem 1 1 1 6000 chain after_subnet_to_validator pools-IsBacked
      (omega arith) (omega arith) refl (omega arith) subnet_to_validator

abbrev after_validator_to_subnet : State Bank
after_validator_to_subnet = (do_swap_from_validator_to_subnet (Origin.signed 1) 1 1 6000 chain).1

validator_to_subnet :
    do_swap_from_validator_to_subnet (Origin.signed 1) 1 1 6000 chain
    ≡ (ok tt, after_validator_to_subnet)
unfolding do_swap_from_validator_to_subnet decrease_account_validator_delegate_stake
    decrease_account queue_swap convert_to_balance checked_mul_div Map.lookup Map.insert get_double
    insert_double
validator_to_subnet = refl

abbrev after_validator_to_validator : State Bank
after_validator_to_validator =
    (do_swap_from_validator_to_validator (Origin.signed 1) 1 1 6000 chain).1

validator_to_validator :
    do_swap_from_validator_to_validator (Origin.signed 1) 1 1 6000 chain
    ≡ (ok tt, after_validator_to_validator)
unfolding do_swap_from_validator_to_validator decrease_account_validator_delegate_stake
    decrease_account queue_swap convert_to_balance checked_mul_div Map.lookup Map.insert get_double
    insert_double
validator_to_validator = refl
