-- ===== src/StakingCalls/Guards.antt =====
-- What every staking call tests before it does anything.
use hypertensor_blockchain.Common.{◌⊎◌, inl, inr, Bool, true, false, ◌≡◌, arith}
use hypertensor_blockchain.State.{State, Currency, Origin, ok, err, DispatchResult}
use hypertensor_blockchain.DelegateStake.{do_transfer_delegate_stake, do_remove_delegate_stake}
use hypertensor_blockchain.ValidatorStake.{
  do_add_validator_delegate_stake, do_transfer_validator_delegate_stake,
  do_remove_validator_delegate_stake,
}
use hypertensor_blockchain.SwapQueue.{
  do_swap_from_subnet_to_subnet, do_swap_from_subnet_to_validator, do_swap_from_validator_to_subnet,
}
use hypertensor_blockchain.StakingCalls.{StakingCall, update_swap_queue, call_body, dispatch_call}

abbrev pub is_signed : Origin → Bool
is_signed (Origin.signed a) = true
is_signed Origin.root = false
is_signed Origin.unsigned = false

-- All calls but the re-routing of a queued swap respect the pause.
abbrev pub is_pausable : StakingCall → Bool
is_pausable (update_swap_queue id new_call) = false
is_pausable _ = true

abbrev pub is_err : DispatchResult → Bool
is_err (ok a) = false
is_err (err e) = true

module _ {B : Type 0} ⦃currency : Currency B⦄ where
  body_paused :
      (call : StakingCall) (origin : Origin) (s : State B)
      → is_pausable call ≡ true
      → s.params.tx_pause ≡ true
      → is_err (call_body call origin s).0 ≡ true
  unfolding call_body
  body_paused call origin s can p = ground arith

  body_unsigned :
      (call : StakingCall) (origin : Origin) (s : State B)
      → is_signed origin ≡ false
      → is_err (call_body call origin s).0 ≡ true
  unfolding call_body do_remove_delegate_stake do_transfer_delegate_stake
      do_add_validator_delegate_stake do_remove_validator_delegate_stake
      do_transfer_validator_delegate_stake do_swap_from_subnet_to_subnet
      do_swap_from_subnet_to_validator do_swap_from_validator_to_subnet
  body_unsigned call origin s h = ground arith

  err_undone :
      (call : StakingCall) (origin : Origin) (s : State B)
      → is_err (call_body call origin s).0 ≡ true
      → (is_err (dispatch_call call origin s).0 ≡ true) × ((dispatch_call call origin s).1 ≡ s)
  unfolding dispatch_call
  err_undone call origin s h = ground arith

  -- Every staking call fails, and the state does not change, for an origin that is not a signed
  -- account, and while transactions are paused for every origin, but for the re-routing of a queued
  -- swap.
  pub dispatch_call_refused :
      (call : StakingCall) (origin : Origin) (s : State B)
      → (is_signed origin ≡ false) ⊎ ((is_pausable call ≡ true) × (s.params.tx_pause ≡ true))
      → (is_err (dispatch_call call origin s).0 ≡ true) × ((dispatch_call call origin s).1 ≡ s)
  dispatch_call_refused call origin s (inl h) =
      err_undone call origin s (body_unsigned call origin s h)
  dispatch_call_refused call origin s (inr (can, p)) =
      err_undone call origin s (body_paused call origin s can p)
