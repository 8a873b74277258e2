-- ===== src/StakingCalls/Authority/Validators.antt =====
-- Whose shares of a validator's pool a staking call can take: call by call, then all.
use hypertensor_blockchain.Common.{ℕ, ◌≤◌, ◌≢◌, arith, u128_max, mul_u32}
use hypertensor_blockchain.State.{
  State, swap_to_subnet_delegate_stake, swap_to_validator_delegate_stake, Currency, Origin,
}
use hypertensor_blockchain.Pools.{shares_of, shares_for, balance_for}
use hypertensor_blockchain.Accounts.{remove_balance_from_coldkey_account}
use hypertensor_blockchain.Unbonding.{insert_balance_to_unbonding_ledger, do_claim_unbondings}
use hypertensor_blockchain.Unbonding.Settle.{prepare-frame}
use hypertensor_blockchain.NodeStake.{do_add_node_stake, do_remove_node_stake}
use hypertensor_blockchain.ValidatorStake.{
  do_add_validator_delegate_stake, do_transfer_validator_delegate_stake,
  do_remove_validator_delegate_stake, do_increase_validator_delegate_stake,
  handle_increase_account_validator_delegate_stake, increase_account_validator_delegate_stake,
  decrease_account_validator_delegate_stake,
}
use hypertensor_blockchain.SwapQueue.{
  queue_swap, do_swap_from_subnet_to_subnet, do_swap_from_subnet_to_validator,
  do_swap_from_validator_to_subnet, do_swap_from_validator_to_validator, do_update_swap_queue,
}
use hypertensor_blockchain.OverwatchStake.{
  do_add_overwatch_node_stake, do_remove_overwatch_node_stake,
}
use hypertensor_blockchain.DelegateAccount.{do_remove_delegate_account_balance}
use hypertensor_blockchain.DelegateStake.{
  do_add_delegate_stake, do_transfer_delegate_stake, do_remove_delegate_stake,
  do_increase_delegate_stake, handle_increase_account_delegate_stake,
  increase_account_delegate_stake, decrease_account_delegate_stake,
}
use hypertensor_blockchain.StakingCalls.{
  StakingCall, add_node_stake, remove_node_stake, add_delegate_stake, remove_delegate_stake,
  donate_delegate_stake, transfer_delegate_stake, add_validator_delegate_stake,
  remove_validator_delegate_stake, donate_validator_delegate_stake,
  transfer_validator_delegate_stake, swap_from_subnet_to_subnet, swap_from_subnet_to_validator,
  swap_from_validator_to_subnet, swap_from_validator_to_validator, update_swap_queue,
  remove_delegate_account_balance, claim_unbondings, add_overwatch_node_stake,
  remove_overwatch_node_stake, call_body, dispatch_call,
}
use hypertensor_blockchain.StakingCalls.Authority.{
  IsKept-decrease, IsKept-donate, IsKept-deposit, IsKept-transfer,
}

-- A call of one account takes no shares of another.
abbrev KeepsShares : (B : Type 0) → ⦃currency : Currency B⦄ → StakingCall → Type 0
KeepsShares B call =
    (a c pool : ℕ) (s : State B)
    → c ≢ a
    → shares_of c pool s.validator_pools ≤ u128_max
    → shares_of c pool s.validator_pools
      ≤ shares_of c pool (dispatch_call call (Origin.signed a) s).1.validator_pools

module _ {B : Type 0} ⦃currency : Currency B⦄ where
  add_node_stake_kept : (q i x : ℕ) → KeepsShares B (add_node_stake q i x)
  unfolding dispatch_call call_body do_add_node_stake remove_balance_from_coldkey_account
  add_node_stake_kept q i x a c pool s ne fits = ground arith

  remove_node_stake_kept : (q i x : ℕ) → KeepsShares B (remove_node_stake q i x)
  unfolding dispatch_call call_body do_remove_node_stake insert_balance_to_unbonding_ledger
  remove_node_stake_kept q i x a c pool s ne fits = ground (
    arith,
    prepare-frame a (mul_u32 s.params.stake_cooldown_epochs s.params.epoch_length) s.block_number s,
  )

  add_delegate_stake_kept : (q x : ℕ) → KeepsShares B (add_delegate_stake q x)
  unfolding dispatch_call call_body do_add_delegate_stake handle_increase_account_delegate_stake
      increase_account_delegate_stake remove_balance_from_coldkey_account
  add_delegate_stake_kept q x a c pool s ne fits = ground arith

  remove_delegate_stake_kept : (q n : ℕ) → KeepsShares B (remove_delegate_stake q n)
  unfolding dispatch_call call_body do_remove_delegate_stake decrease_account_delegate_stake
      insert_balance_to_unbonding_ledger
  remove_delegate_stake_kept q n a c pool s ne fits = ground (
    arith,
    prepare-frame a (mul_u32 s.params.delegate_stake_cooldown_epochs s.params.epoch_length)
        s.block_number s,
  )

  donate_delegate_stake_kept : (q x : ℕ) → KeepsShares B (donate_delegate_stake q x)
  unfolding dispatch_call call_body do_increase_delegate_stake remove_balance_from_coldkey_account
  donate_delegate_stake_kept q x a c pool s ne fits = ground arith

  transfer_delegate_stake_kept : (q b n : ℕ) → KeepsShares B (transfer_delegate_stake q b n)
  unfolding dispatch_call call_body do_transfer_delegate_stake increase_account_delegate_stake
      decrease_account_delegate_stake
  transfer_delegate_stake_kept q b n a c pool s ne fits = ground arith

  add_validator_delegate_stake_kept : (q x : ℕ) → KeepsShares B (add_validator_delegate_stake q x)
  unfolding dispatch_call call_body do_add_validator_delegate_stake
      handle_increase_account_validator_delegate_stake increase_account_validator_delegate_stake
      remove_balance_from_coldkey_account
  add_validator_delegate_stake_kept q x a c pool s ne fits =
      ground
        (arith, IsKept-deposit c a q x (shares_for q x s.validator_pools) s.validator_pools pool)

  remove_validator_delegate_stake_kept :
      (q n : ℕ) → KeepsShares B (remove_validator_delegate_stake q n)
  unfolding dispatch_call call_body do_remove_validator_delegate_stake
      decrease_account_validator_delegate_stake insert_balance_to_unbonding_ledger
  remove_validator_delegate_stake_kept q n a c pool s ne fits = ground (
    arith,
    IsKept-decrease c a q (balance_for q n s.validator_pools) n s.validator_pools ne pool,
    prepare-frame a (mul_u32 s.params.delegate_stake_cooldown_epochs s.params.epoch_length)
        s.block_number s,
  )

  donate_validator_delegate_stake_kept :
      (q x : ℕ) → KeepsShares B (donate_validator_delegate_stake q x)
  unfolding dispatch_call call_body do_increase_validator_delegate_stake
      remove_balance_from_coldkey_account
  donate_validator_delegate_stake_kept q x a c pool s ne fits =
      ground (arith, IsKept-donate c q x s.validator_pools pool)

  transfer_validator_delegate_stake_kept :
      (q b n : ℕ) → KeepsShares B (transfer_validator_delegate_stake q b n)
  unfolding dispatch_call call_body do_transfer_validator_delegate_stake
      increase_account_validator_delegate_stake decrease_account_validator_delegate_stake
  transfer_validator_delegate_stake_kept q b n a c pool s ne fits =
      ground (arith, IsKept-transfer c a b q n s.validator_pools ne pool)

  swap_from_subnet_to_subnet_kept : (q to n : ℕ) → KeepsShares B (swap_from_subnet_to_subnet q to n)
  unfolding dispatch_call call_body do_swap_from_subnet_to_subnet decrease_account_delegate_stake
      queue_swap
  swap_from_subnet_to_subnet_kept q to n a c pool s ne fits = ground arith

  swap_from_subnet_to_validator_kept :
      (q to n : ℕ) → KeepsShares B (swap_from_subnet_to_validator q to n)
  unfolding dispatch_call call_body do_swap_from_subnet_to_validator decrease_account_delegate_stake
      queue_swap
  swap_from_subnet_to_validator_kept q to n a c pool s ne fits = ground arith

  swap_from_validator_to_subnet_kept :
      (q to n : ℕ) → KeepsShares B (swap_from_validator_to_subnet q to n)
  unfolding dispatch_call call_body do_swap_from_validator_to_subnet
      decrease_account_validator_delegate_stake queue_swap
  swap_from_validator_to_subnet_kept q to n a c pool s ne fits =
      ground (
        arith,
        IsKept-decrease c a q (balance_for q n s.validator_pools) n s.validator_pools ne pool,
      )

  swap_from_validator_to_validator_kept :
      (q to n : ℕ) → KeepsShares B (swap_from_validator_to_validator q to n)
  unfolding dispatch_call call_body do_swap_from_validator_to_validator
      decrease_account_validator_delegate_stake queue_swap
  swap_from_validator_to_validator_kept q to n a c pool s ne fits =
      ground (
        arith,
        IsKept-decrease c a q (balance_for q n s.validator_pools) n s.validator_pools ne pool,
      )

  update_swap_queue_to_subnet_kept :
      (id b j x : ℕ) → KeepsShares B (update_swap_queue id (swap_to_subnet_delegate_stake b j x))
  unfolding dispatch_call call_body do_update_swap_queue
  update_swap_queue_to_subnet_kept id b j x a c pool s ne fits = ground arith

  update_swap_queue_to_validator_kept :
      (id b j x : ℕ) → KeepsShares B (update_swap_queue id (swap_to_validator_delegate_stake b j x))
  unfolding dispatch_call call_body do_update_swap_queue
  update_swap_queue_to_validator_kept id b j x a c pool s ne fits = ground arith

  remove_delegate_account_balance_kept : (x : ℕ) → KeepsShares B (remove_delegate_account_balance x)
  unfolding dispatch_call call_body do_remove_delegate_account_balance
      insert_balance_to_unbonding_ledger
  remove_delegate_account_balance_kept x a c pool s ne fits = ground (
    arith,
    prepare-frame a (mul_u32 s.params.stake_cooldown_epochs s.params.epoch_length) s.block_number s,
  )

  claim_unbondings_kept : KeepsShares B claim_unbondings
  unfolding dispatch_call call_body do_claim_unbondings
  claim_unbondings_kept a c pool s ne fits = ground arith

  add_overwatch_node_stake_kept : (i x : ℕ) → KeepsShares B (add_overwatch_node_stake i x)
  unfolding dispatch_call call_body do_add_overwatch_node_stake remove_balance_from_coldkey_account
  add_overwatch_node_stake_kept i x a c pool s ne fits = ground arith

  remove_overwatch_node_stake_kept : (i x : ℕ) → KeepsShares B (remove_overwatch_node_stake i x)
  unfolding dispatch_call call_body do_remove_overwatch_node_stake
      insert_balance_to_unbonding_ledger
  remove_overwatch_node_stake_kept i x a c pool s ne fits = ground (
    arith,
    prepare-frame a (mul_u32 s.params.stake_cooldown_epochs s.params.epoch_length) s.block_number s,
  )

  -- Whatever a signed account calls, successful or not, no other account loses shares of a
  -- validator's pool, if its shares are a u128.
  pub dispatch_call-validator_shares :
      (call : StakingCall) (a c pool : ℕ) (s : State B)
      → c ≢ a
      → shares_of c pool s.validator_pools ≤ u128_max
      → shares_of c pool s.validator_pools
        ≤ shares_of c pool (dispatch_call call (Origin.signed a) s).1.validator_pools
  dispatch_call-validator_shares (add_node_stake q i x) = add_node_stake_kept q i x
  dispatch_call-validator_shares (remove_node_stake q i x) = remove_node_stake_kept q i x
  dispatch_call-validator_shares (add_delegate_stake q x) = add_delegate_stake_kept q x
  dispatch_call-validator_shares (remove_delegate_stake q n) = remove_delegate_stake_kept q n
  dispatch_call-validator_shares (donate_delegate_stake q x) = donate_delegate_stake_kept q x
  dispatch_call-validator_shares (transfer_delegate_stake q b n) =
      transfer_delegate_stake_kept q b n
  dispatch_call-validator_shares (add_validator_delegate_stake q x) =
      add_validator_delegate_stake_kept q x
  dispatch_call-validator_shares (remove_validator_delegate_stake q n) =
      remove_validator_delegate_stake_kept q n
  dispatch_call-validator_shares (donate_validator_delegate_stake q x) =
      donate_validator_delegate_stake_kept q x
  dispatch_call-validator_shares (transfer_validator_delegate_stake q b n) =
      transfer_validator_delegate_stake_kept q b n
  dispatch_call-validator_shares (swap_from_subnet_to_subnet q to n) =
      swap_from_subnet_to_subnet_kept q to n
  dispatch_call-validator_shares (swap_from_subnet_to_validator q to n) =
      swap_from_subnet_to_validator_kept q to n
  dispatch_call-validator_shares (swap_from_validator_to_subnet q to n) =
      swap_from_validator_to_subnet_kept q to n
  dispatch_call-validator_shares (swap_from_validator_to_validator q to n) =
      swap_from_validator_to_validator_kept q to n
  dispatch_call-validator_shares (update_swap_queue id (swap_to_subnet_delegate_stake b j x)) =
      update_swap_queue_to_subnet_kept id b j x
  dispatch_call-validator_shares (update_swap_queue id (swap_to_validator_delegate_stake b j x)) =
      update_swap_queue_to_validator_kept id b j x
  dispatch_call-validator_shares (remove_delegate_account_balance x) =
      remove_delegate_account_balance_kept x
  dispatch_call-validator_shares claim_unbondings = claim_unbondings_kept
  dispatch_call-validator_shares (add_overwatch_node_stake i x) = add_overwatch_node_stake_kept i x
  dispatch_call-validator_shares (remove_overwatch_node_stake i x) =
      remove_overwatch_node_stake_kept i x
