-- ===== src/StakingCalls.antt =====
-- The dispatchable calls on stake (pallets/network/src/lib.rs, call indices 52 to 68, 77 and 78),
-- and their dispatch, which is transactional.
use hypertensor_blockchain.Common.{ℕ, Bool, true, false, Option, none, some, leb, ltb, is_some}
use hypertensor_blockchain.Common.Map
use hypertensor_blockchain.State.{
  State, QueuedSwapCall, Currency, Call, Origin, Result, ok, err, ◌>>=◌, ◌>>◌, pure, gets, modify,
  ensure, or_error, ensure_signed, dispatch, Error, invalid_subnet_id, invalid_validator_id,
  invalid_subnet_node_id, min_delegate_stake, could_not_convert_to_balance, not_enough_balance,
  no_stake_unbondings_or_cooldown_not_met,
}
use hypertensor_blockchain.Accounts.{
  ensure_not_paused, u128_to_balance, can_remove_balance_from_coldkey_account, withdraw_or_error,
}
use hypertensor_blockchain.Unbonding.{do_claim_unbondings}
use hypertensor_blockchain.NodeStake.{do_add_node_stake, do_remove_node_stake}
use hypertensor_blockchain.DelegateStake.{
  do_add_delegate_stake, do_transfer_delegate_stake, do_remove_delegate_stake,
  do_increase_delegate_stake,
}
use hypertensor_blockchain.ValidatorStake.{
  do_add_validator_delegate_stake, do_transfer_validator_delegate_stake,
  do_remove_validator_delegate_stake, do_increase_validator_delegate_stake,
}
use hypertensor_blockchain.SwapQueue.{
  do_swap_from_subnet_to_subnet, do_swap_from_subnet_to_validator, do_swap_from_validator_to_subnet,
  do_swap_from_validator_to_validator, do_update_swap_queue,
}
use hypertensor_blockchain.OverwatchStake.{
  do_add_overwatch_node_stake, do_remove_overwatch_node_stake,
}
use hypertensor_blockchain.DelegateAccount.{do_remove_delegate_account_balance}
pub mod Authority
pub mod Guards
pub mod Others

-- `pallet::Call`, as far as it moves stake
pub data StakingCall : Type 0 where
  add_node_stake remove_node_stake : (subnet_id subnet_node_id amount : ℕ) → StakingCall
  add_delegate_stake remove_delegate_stake donate_delegate_stake :
      (subnet_id amount : ℕ) → StakingCall
  transfer_delegate_stake : (subnet_id to_account_id shares : ℕ) → StakingCall
  add_validator_delegate_stake remove_validator_delegate_stake :
      (validator_id amount : ℕ) → StakingCall
  donate_validator_delegate_stake : (validator_id amount : ℕ) → StakingCall
  transfer_validator_delegate_stake : (validator_id to_account_id shares : ℕ) → StakingCall
  swap_from_subnet_to_subnet swap_from_subnet_to_validator :
      (source target shares : ℕ) → StakingCall
  swap_from_validator_to_subnet swap_from_validator_to_validator :
      (source target shares : ℕ) → StakingCall
  update_swap_queue : (id : ℕ) (new_call : QueuedSwapCall) → StakingCall
  remove_delegate_account_balance : (amount : ℕ) → StakingCall
  claim_unbondings : StakingCall
  add_overwatch_node_stake remove_overwatch_node_stake :
      (overwatch_node_id amount : ℕ) → StakingCall

module _ {B : Type 0} where
  abbrev pub ensure_subnet : ℕ → Call (State B) (Unit {0})
  ensure_subnet subnet_id s =
      ensure (Map.contains_key subnet_id s.registry.subnets_data) invalid_subnet_id s

  abbrev pub ensure_validator : ℕ → Error → Call (State B) (Unit {0})
  ensure_validator validator_id e s =
      ensure (Map.contains_key validator_id s.registry.validators_data) e s

module _ {B : Type 0} ⦃currency : Currency B⦄ where
  -- The payment of a donation, in `donate_delegate_stake` and `donate_validator_delegate_stake`.
  abbrev pub pay_donation : ℕ → ℕ → Call (State B) (Unit {0})
  pay_donation account_id amount = do
    s ← gets (λ s. s)
    ensure (leb s.params.min_delegate_stake_deposit amount) min_delegate_stake
    amount_as_balance ← or_error (u128_to_balance currency amount) could_not_convert_to_balance
    ensure (can_remove_balance_from_coldkey_account account_id amount_as_balance s)
        not_enough_balance
    withdraw_or_error account_id amount_as_balance

  -- The body of each call.
  unfoldable pub call_body : StakingCall → Origin → Call (State B) (Unit {0})
  call_body (add_node_stake subnet_id subnet_node_id amount) origin = do
    ensure_signed origin
    ensure_not_paused
    do_add_node_stake origin subnet_id subnet_node_id amount
  call_body (remove_node_stake subnet_id subnet_node_id amount) origin = do
    ensure_signed origin
    ensure_not_paused
    do_remove_node_stake origin subnet_id subnet_node_id amount
  call_body (add_delegate_stake subnet_id amount) origin = do
    ensure_signed origin
    ensure_not_paused
    ensure_subnet subnet_id
    do_add_delegate_stake origin subnet_id amount
  call_body (remove_delegate_stake subnet_id shares) origin = do
    ensure_not_paused
    do_remove_delegate_stake origin subnet_id shares
  call_body (donate_delegate_stake subnet_id amount) origin = do
    account_id ← ensure_signed origin
    ensure_not_paused
    ensure_subnet subnet_id
    pay_donation account_id amount
    modify (do_increase_delegate_stake subnet_id amount)
  call_body (transfer_delegate_stake subnet_id to_account_id shares) origin = do
    ensure_not_paused
    do_transfer_delegate_stake origin subnet_id to_account_id shares
  call_body (add_validator_delegate_stake validator_id amount) origin = do
    ensure_not_paused
    ensure_validator validator_id invalid_validator_id
    do_add_validator_delegate_stake origin validator_id amount
  call_body (remove_validator_delegate_stake validator_id shares) origin = do
    ensure_not_paused
    do_remove_validator_delegate_stake origin validator_id shares
  call_body (donate_validator_delegate_stake validator_id amount) origin = do
    account_id ← ensure_signed origin
    ensure_not_paused
    ensure_validator validator_id invalid_subnet_node_id
    pay_donation account_id amount
    modify (do_increase_validator_delegate_stake validator_id amount)
  call_body (transfer_validator_delegate_stake validator_id to_account_id shares) origin = do
    ensure_not_paused
    do_transfer_validator_delegate_stake origin validator_id to_account_id shares
  call_body (swap_from_subnet_to_subnet from_subnet_id to_subnet_id shares) origin = do
    ensure_not_paused
    ensure_subnet to_subnet_id
    do_swap_from_subnet_to_subnet origin from_subnet_id to_subnet_id shares
  call_body (swap_from_subnet_to_validator from_subnet_id to_validator_id shares) origin = do
    ensure_not_paused
    ensure_validator to_validator_id invalid_validator_id
    do_swap_from_subnet_to_validator origin from_subnet_id to_validator_id shares
  call_body (swap_from_validator_to_subnet from_validator_id to_subnet_id shares) origin = do
    ensure_not_paused
    ensure_subnet to_subnet_id
    do_swap_from_validator_to_subnet origin from_validator_id to_subnet_id shares
  call_body (swap_from_validator_to_validator from_validator_id to_validator_id shares) origin = do
    ensure_signed origin
    ensure_not_paused
    do_swap_from_validator_to_validator origin from_validator_id to_validator_id shares
  call_body (update_swap_queue id new_call) origin = do
    account_id ← ensure_signed origin
    do_update_swap_queue account_id id new_call
  call_body (remove_delegate_account_balance amount) origin = do
    ensure_signed origin
    ensure_not_paused
    do_remove_delegate_account_balance origin amount
  call_body claim_unbondings origin = do
    coldkey ← ensure_signed origin
    ensure_not_paused
    successful_unbondings ← λ s. let (s', n) = do_claim_unbondings coldkey s in (ok n, s')
    ensure (ltb 0 successful_unbondings) no_stake_unbondings_or_cooldown_not_met
  call_body (add_overwatch_node_stake overwatch_node_id amount) origin = do
    ensure_signed origin
    ensure_not_paused
    do_add_overwatch_node_stake origin overwatch_node_id amount
  call_body (remove_overwatch_node_stake overwatch_node_id amount) origin = do
    ensure_signed origin
    ensure_not_paused
    is_overwatch_node ←
        gets (λ s. is_some (Map.lookup overwatch_node_id s.registry.overwatch_nodes))
    do_remove_overwatch_node_stake origin overwatch_node_id is_overwatch_node amount

  -- A call as the runtime makes it: an error takes every write back.
  unfoldable pub dispatch_call : StakingCall → Origin → Call (State B) (Unit {0})
  dispatch_call call origin = dispatch (call_body call origin)
