-- ===== src/State/Dispatch.antt =====
-- Results of dispatchables, and calls that read and write a state. The pallet's `Error<T>` is
-- modelled as far as the calls of the development return it.
use hypertensor_blockchain.Common.{
  ℕ, Bool, true, false, Option, none, some, ◌≡◌, ◌⊎◌, inl, inr, refl,
}

pub data Error : Type 0 where
  bad_origin paused invalid_subnet_id invalid_subnet_node_id invalid_validator_id : Error
  not_key_owner invalid_amount amount_zero shares_zero could_not_convert_to_balance : Error
  could_not_convert_to_shares min_stake_not_reached max_stake_reached : Error
  not_enough_balance not_enough_balance_to_stake balance_withdrawal_error : Error
  tx_rate_limit_exceeded not_enough_stake_to_withdraw max_unlockings_reached : Error
  min_delegate_stake min_delegate_stake_deposit_not_reached transfer_to_self_not_allowed : Error
  swap_queue_full swap_call_not_found no_stake_unbondings_or_cooldown_not_met : Error
  invalid_validator no_elected_validator subnet_epoch_data_is_none score_overflow : Error
  subnet_rewards_already_submitted invalid_subnet_node_classification : Error
  invalid_subnet_consensus_submission already_attested : Error
  invalid_overwatch_node_id coldkey_blacklisted not_commit_period not_reveal_period : Error
  commits_empty already_committed invalid_weight no_commit_found reveal_mismatch : Error

pub data Result (A : Type 0) : Type 0 where
  ok : A → Result A
  err : Error → Result A

-- `RuntimeOrigin`, as far as `ensure_signed` reads it
pub data Origin : Type 0 where
  signed : ℕ → Origin
  root unsigned : Origin

-- What a function of the pallet does to a state of type `S`. What it wrote before an error stays
-- written; only `dispatch` takes it back.
abbrev pub Call : Type 0 → Type 0 → Type 0
Call S A = S → Result A × S

abbrev pub DispatchResult : Type 0
DispatchResult = Result (Unit {0})

module _ {S : Type 0} where
  abbrev pub pure : {A : Type 0} → A → Call S A
  pure a s = (ok a, s)

  abbrev pub fail : {A : Type 0} → Error → Call S A
  fail e s = (err e, s)

  abbrev pub gets : {A : Type 0} → (S → A) → Call S A
  gets f s = (ok (f s), s)

  abbrev pub modify : (S → S) → Call S (Unit {0})
  modify f s = (ok tt, f s)

  infixl 5 ◌>>=◌ ◌>>◌
  abbrev pub ◌>>=◌ : {A C : Type 0} → Call S A → (A → Call S C) → Call S C
  ◌>>=◌ m f s = let (r, s') = m s in elim r [ ok a ↦ f a s' | err e ↦ (err e, s') ]

  abbrev pub ◌>>◌ : {A C : Type 0} → Call S A → Call S C → Call S C
  m >> k = m >>= λ _. k

  -- `ensure!(test, error)`
  abbrev pub ensure : Bool → Error → Call S (Unit {0})
  ensure true e s = (ok tt, s)
  ensure false e s = (err e, s)

  -- `option.ok_or(error)?`, and `try_get(..).map_err(|_| error)?`
  abbrev pub or_error : {A : Type 0} → Option A → Error → Call S A
  or_error none e s = (err e, s)
  or_error (some a) e s = (ok a, s)

  abbrev pub ensure_signed : Origin → Call S ℕ
  ensure_signed (Origin.signed a) s = (ok a, s)
  ensure_signed Origin.root s = (err bad_origin, s)
  ensure_signed Origin.unsigned s = (err bad_origin, s)

  -- FRAME runs every dispatchable in a storage layer of its own, which is dropped on an error.
  abbrev pub dispatch : {A : Type 0} → Call S A → Call S A
  dispatch m s = let (r, s') = m s in elim r [ ok a ↦ (ok a, s') | err e ↦ (err e, s) ]

pub Result-cases :
    {A : Type 0} (r : Result A) → ((a : A) × (r ≡ ok a)) ⊎ ((e : Error) × (r ≡ err e))
Result-cases (ok a) = inl (a, refl)
Result-cases (err e) = inr (e, refl)
