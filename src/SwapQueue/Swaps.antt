-- ===== src/SwapQueue/Swaps.antt =====
-- The calls that move a stake through the queue.
use hypertensor_blockchain.Common.{
  ℕ, suc, ◌+◌, ◌≤◌, ◌<◌, ◌≡◌, refl, none, some, ◌==◌, if◌then◌else◌, [], ◌∷◌, ◌++◌, arith, u128_max,
  u32_max, ap,
}
use hypertensor_blockchain.Common.Map
use hypertensor_blockchain.State.{
  State, Pools, SwapQueue, QueuedSwapCall, swap_to_subnet_delegate_stake,
  swap_to_validator_delegate_stake, QueuedSwapItem, Currency, Origin, ok,
}
use hypertensor_blockchain.Shares.Price.{convert_to_balance-le}
use hypertensor_blockchain.Pools.{shares_of, shares_in, balance_in, balance_for, decrease_account}
use hypertensor_blockchain.Pools.Moved.{IsGiven, decrease_account-IsGiven}
use hypertensor_blockchain.Pools.Backed.{
  IsBacked, shares_of-le-held, balance_in-le-sum, decrease_account-IsBacked,
}
use hypertensor_blockchain.DelegateStake.{decrease_account_delegate_stake}
use hypertensor_blockchain.ValidatorStake.{decrease_account_validator_delegate_stake}
use hypertensor_blockchain.SwapQueue.{
  get_queue_balance, queued_item, queue_swap, do_swap_from_subnet_to_subnet,
  do_swap_from_subnet_to_validator, do_swap_from_validator_to_subnet,
  do_swap_from_validator_to_validator,
}
use hypertensor_blockchain.SwapQueue.Route.{queued_sum}

-- A call at the end of the queue.
abbrev pub enqueued : {B : Type 0} → QueuedSwapCall → State B → SwapQueue
enqueued call s =
    let q = s.swap_queue in
    record {
      swap_queue_order = q.swap_queue_order ++ (q.next_swap_queue_id ∷ []);
      swap_call_queue = Map.insert q.next_swap_queue_id (queued_item call s) q.swap_call_queue;
      next_swap_queue_id = suc q.next_swap_queue_id;
    }

-- What a successful swap out of a pool has done: shares of the caller became a queued call.
pub record IsQueued {B : Type 0} (pools : State B → Pools) (a pool n : ℕ)
    (call : ℕ → QueuedSwapCall) (s s' : State B) : Type 0 where
  pub not_zero : 0 < n
  pub enough : n ≤ shares_of a pool (pools s)
  pub balances_lem : s'.balances ≡ s.balances
  pub unbonding_lem : s'.unbonding ≡ s.unbonding
  pub pools_lem : pools s' ≡ decrease_account a pool (balance_for pool n (pools s)) n (pools s)
  pub queue_lem : s'.swap_queue ≡ enqueued (call (balance_for pool n (pools s))) s

module _ {B : Type 0} ⦃currency : Currency B⦄ where
  subnet_to_subnet-IsQueued :
      (a pool to n : ℕ) (s s' : State B)
      → s.swap_queue.next_swap_queue_id < u32_max
      → do_swap_from_subnet_to_subnet (Origin.signed a) pool to n s ≡ (ok tt, s')
      → IsQueued (λ s. s.subnet_pools) a pool n (swap_to_subnet_delegate_stake a to) s s'
  unfolding do_swap_from_subnet_to_subnet decrease_account_delegate_stake queue_swap
  subnet_to_subnet-IsQueued a pool to n s s' room h = ground arith

  subnet_to_validator-IsQueued :
      (a pool to n : ℕ) (s s' : State B)
      → s.swap_queue.next_swap_queue_id < u32_max
      → do_swap_from_subnet_to_validator (Origin.signed a) pool to n s ≡ (ok tt, s')
      → IsQueued (λ s. s.subnet_pools) a pool n (swap_to_validator_delegate_stake a to) s s'
  unfolding do_swap_from_subnet_to_validator decrease_account_delegate_stake queue_swap
  subnet_to_validator-IsQueued a pool to n s s' room h = ground arith

  validator_to_subnet-IsQueued :
      (a pool to n : ℕ) (s s' : State B)
      → s.swap_queue.next_swap_queue_id < u32_max
      → do_swap_from_validator_to_subnet (Origin.signed a) pool to n s ≡ (ok tt, s')
      → IsQueued (λ s. s.validator_pools) a pool n (swap_to_subnet_delegate_stake a to) s s'
  unfolding do_swap_from_validator_to_subnet decrease_account_validator_delegate_stake queue_swap
  validator_to_subnet-IsQueued a pool to n s s' room h = ground arith

  validator_to_validator-IsQueued :
      (a pool to n : ℕ) (s s' : State B)
      → s.swap_queue.next_swap_queue_id < u32_max
      → do_swap_from_validator_to_validator (Origin.signed a) pool to n s ≡ (ok tt, s')
      → IsQueued (λ s. s.validator_pools) a pool n (swap_to_validator_delegate_stake a to) s s'
  unfolding do_swap_from_validator_to_validator decrease_account_validator_delegate_stake queue_swap
  validator_to_validator-IsQueued a pool to n s s' room h = ground arith

-- What a swap out of a pool does: of all accounts and pools, only the caller and this pool lose
-- shares and only this pool loses their worth, which stands in the queue as the item of `call`, the
-- last one; the balance of the pools and that of the queue stay the same together, no money and no
-- unbonding moves, and the pools stay backed.
pub record IsConserved {B : Type 0} (pools : State B → Pools) (a pool n : ℕ)
    (call : ℕ → QueuedSwapCall) (s s' : State B) : Type 0 where
  pub taken_lem : IsGiven a pool (balance_for pool n (pools s)) n (pools s') (pools s)
  pub total_lem :
      (pools s').total_balance + queued_sum s'.swap_queue
      ≡ (pools s).total_balance + queued_sum s.swap_queue
  pub order_lem :
      s'.swap_queue.swap_queue_order
      ≡ s.swap_queue.swap_queue_order ++ (s.swap_queue.next_swap_queue_id ∷ [])
  pub items_lem :
      (id : ℕ)
      → Map.lookup id s'.swap_queue.swap_call_queue ≡ (
          if id == s.swap_queue.next_swap_queue_id
          then some (record {
            id = s.swap_queue.next_swap_queue_id;
            call = call (balance_for pool n (pools s));
            queued_at_block = s.block_number;
            execute_after_blocks = s.params.epoch_length;
          })
          else Map.lookup id s.swap_queue.swap_call_queue)
  pub next_lem : s'.swap_queue.next_swap_queue_id ≡ s.swap_queue.next_swap_queue_id + 1
  pub balances_lem : s'.balances ≡ s.balances
  pub unbonding_lem : s'.unbonding ≡ s.unbonding
  pub backed_lem : IsBacked (pools s')

total-decrease :
    (a pool x n : ℕ) (p : Pools)
    → x ≤ p.total_balance
    → (decrease_account a pool x n p).total_balance + x ≡ p.total_balance
unfolding decrease_account
total-decrease a pool x n p covered = omega arith

queued_sum-enqueued :
    {B : Type 0} (call : QueuedSwapCall) (s : State B)
    → Map.lookup s.swap_queue.next_swap_queue_id s.swap_queue.swap_call_queue ≡ none
    → queued_sum (enqueued call s) ≡ queued_sum s.swap_queue + get_queue_balance call
queued_sum-enqueued call s fresh = ground (
  arith,
  Map.total_by-insert (λ (i : QueuedSwapItem). get_queue_balance i.call)
      s.swap_queue.next_swap_queue_id (queued_item call s) s.swap_queue.swap_call_queue,
)

module _ {B : Type 0} where
  queued-IsConserved :
      (pools : State B → Pools) (a pool n : ℕ) (call : ℕ → QueuedSwapCall) (s s' : State B)
      → ((x : ℕ) → get_queue_balance (call x) ≡ x)
      → IsBacked (pools s)
      → shares_in pool (pools s) ≤ u128_max
      → (pools s).total_balance ≤ u128_max
      → Map.lookup s.swap_queue.next_swap_queue_id s.swap_queue.swap_call_queue ≡ none
      → IsQueued pools a pool n call s s'
      → IsConserved pools a pool n call s s'
  queued-IsConserved pools a pool n call s s' carries backed fits total_fits fresh q =
      let p = pools s in
      let x = balance_for pool n p in
      let in_total = balance_in-le-sum pool p in
      let few : n ≤ shares_in pool p =
        omega (arith, backed.shares pool, shares_of-le-held a pool p, q.enough) in
      let covered : x ≤ balance_in pool p =
        convert_to_balance-le n (shares_in pool p) (balance_in pool p)
          (omega (arith, few, q.not_zero)) few fits (omega (arith, backed.total_lem)) in
      record {
        taken_lem = rw q.pools_lem (decrease_account-IsGiven a pool x n p q.enough few covered);
        total_lem =
            rw (q.pools_lem, q.queue_lem)
              (omega (
                arith,
                total-decrease a pool x n p,
                queued_sum-enqueued (call x) s fresh,
                carries x,
                backed.total_lem,
              ));
        order_lem = ap (λ q. q.swap_queue_order) q.queue_lem;
        items_lem = λ id. rw q.queue_lem (
            Map.lookup-insert s.swap_queue.next_swap_queue_id id (queued_item (call x) s)
              s.swap_queue.swap_call_queue);
        next_lem = rw q.queue_lem (omega arith);
        balances_lem = q.balances_lem;
        unbonding_lem = q.unbonding_lem;
        backed_lem =
            rw q.pools_lem (decrease_account-IsBacked a pool x n p backed q.enough covered);
      }

module _ {B : Type 0} ⦃currency : Currency B⦄ (a pool to n : ℕ) (s s' : State B) where
  -- From backed pools of u128s, with a free queue id below the largest u32: a successful swap from
  -- a subnet to a subnet takes exactly the shares from the caller and this pool, and from this pool
  -- exactly what they redeem for; it puts at the end of the queue, for the caller and the subnet it
  -- named, a swap of that balance, which waits for one epoch from this block, and keeps the other
  -- items; it conserves the balance of the subnet pools and of the queue together, changes neither
  -- the balances nor the ledger, and leaves the pools backed.
  pub do_swap_from_subnet_to_subnet_lem :
      IsBacked s.subnet_pools
      → shares_in pool s.subnet_pools ≤ u128_max
      → s.subnet_pools.total_balance ≤ u128_max
      → Map.lookup s.swap_queue.next_swap_queue_id s.swap_queue.swap_call_queue ≡ none
      → s.swap_queue.next_swap_queue_id < u32_max
      → do_swap_from_subnet_to_subnet (Origin.signed a) pool to n s ≡ (ok tt, s')
      → IsConserved (λ s. s.subnet_pools) a pool n (swap_to_subnet_delegate_stake a to) s s'
  do_swap_from_subnet_to_subnet_lem backed fits total fresh room h =
      queued-IsConserved (λ s. s.subnet_pools) a pool n (swap_to_subnet_delegate_stake a to) s s'
        (λ x. refl) backed fits total fresh (subnet_to_subnet-IsQueued a pool to n s s' room h)

  -- From backed pools of u128s, with a free queue id below the largest u32: a successful swap from
  -- a subnet to a validator takes exactly the shares from the caller and this pool, and from this
  -- pool exactly what they redeem for; it puts at the end of the queue, for the caller and the
  -- validator it named, a swap of that balance, which waits for one epoch from this block, and
  -- keeps the other items; it conserves the balance of the subnet pools and of the queue together,
  -- changes neither the balances nor the ledger, and leaves the pools backed.
  pub do_swap_from_subnet_to_validator_lem :
      IsBacked s.subnet_pools
      → shares_in pool s.subnet_pools ≤ u128_max
      → s.subnet_pools.total_balance ≤ u128_max
      → Map.lookup s.swap_queue.next_swap_queue_id s.swap_queue.swap_call_queue ≡ none
      → s.swap_queue.next_swap_queue_id < u32_max
      → do_swap_from_subnet_to_validator (Origin.signed a) pool to n s ≡ (ok tt, s')
      → IsConserved (λ s. s.subnet_pools) a pool n (swap_to_validator_delegate_stake a to) s s'
  do_swap_from_subnet_to_validator_lem backed fits total fresh room h =
      queued-IsConserved (λ s. s.subnet_pools) a pool n (swap_to_validator_delegate_stake a to) s s'
        (λ x. refl) backed fits total fresh (subnet_to_validator-IsQueued a pool to n s s' room h)

  -- From backed pools of u128s, with a free queue id below the largest u32: a successful swap from
  -- a validator to a subnet takes exactly the shares from the caller and this pool, and from this
  -- pool exactly what they redeem for; it puts at the end of the queue, for the caller and the
  -- subnet it named, a swap of that balance, which waits for one epoch from this block, and keeps
  -- the other items; it conserves the balance of the validator pools and of the queue together,
  -- changes neither the balances nor the ledger, and leaves the pools backed.
  pub do_swap_from_validator_to_subnet_lem :
      IsBacked s.validator_pools
      → shares_in pool s.validator_pools ≤ u128_max
      → s.validator_pools.total_balance ≤ u128_max
      → Map.lookup s.swap_queue.next_swap_queue_id s.swap_queue.swap_call_queue ≡ none
      → s.swap_queue.next_swap_queue_id < u32_max
      → do_swap_from_validator_to_subnet (Origin.signed a) pool to n s ≡ (ok tt, s')
      → IsConserved (λ s. s.validator_pools) a pool n (swap_to_subnet_delegate_stake a to) s s'
  do_swap_from_validator_to_subnet_lem backed fits total fresh room h =
      queued-IsConserved (λ s. s.validator_pools) a pool n (swap_to_subnet_delegate_stake a to) s s'
        (λ x. refl) backed fits total fresh (validator_to_subnet-IsQueued a pool to n s s' room h)

  -- From backed pools of u128s, with a free queue id below the largest u32: a successful swap from
  -- a validator to a validator takes exactly the shares from the caller and this pool, and from
  -- this pool exactly what they redeem for; it puts at the end of the queue, for the caller and the
  -- validator it named, a swap of that balance, which waits for one epoch from this block, and
  -- keeps the other items; it conserves the balance of the validator pools and of the queue
  -- together, changes neither the balances nor the ledger, and leaves the pools backed.
  pub do_swap_from_validator_to_validator_lem :
      IsBacked s.validator_pools
      → shares_in pool s.validator_pools ≤ u128_max
      → s.validator_pools.total_balance ≤ u128_max
      → Map.lookup s.swap_queue.next_swap_queue_id s.swap_queue.swap_call_queue ≡ none
      → s.swap_queue.next_swap_queue_id < u32_max
      → do_swap_from_validator_to_validator (Origin.signed a) pool to n s ≡ (ok tt, s')
      → IsConserved (λ s. s.validator_pools) a pool n (swap_to_validator_delegate_stake a to) s s'
  do_swap_from_validator_to_validator_lem backed fits total fresh room h =
      queued-IsConserved (λ s. s.validator_pools) a pool n (swap_to_validator_delegate_stake a to) s
        s' (λ x. refl) backed fits total fresh
        (validator_to_validator-IsQueued a pool to n s s' room h)
