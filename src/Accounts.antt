-- ===== src/Accounts.antt =====
-- Balances of accounts (pallets/network/src/stake/staking_utils.rs) and the rate limit of
-- transactions, the pause and the issuance (pallets/network/src/utilities/misc.rs).
use hypertensor_blockchain.Common.{
  ℕ, ◌-◌, Bool, false, not, ◌||◌, Option, none, some, ltb, leb, ◌==◌, if◌then◌else◌, saturating_add,
  sub_u32,
}
use hypertensor_blockchain.Common.Map.{get, insert}
use hypertensor_blockchain.State.{
  State, Currency, Call, ensure, paused, ok, err, balance_withdrawal_error,
}

module _ {B : Type 0} where
  abbrev pub get_last_tx_block : ℕ → State B → ℕ
  get_last_tx_block key s = get key s.last_tx_block

  abbrev pub set_last_tx_block : ℕ → ℕ → State B → State B
  set_last_tx_block key block s = record s { last_tx_block = insert key block s.last_tx_block }

  -- the subtraction of two u32 wraps in a release build
  abbrev pub exceeds_tx_rate_limit : ℕ → ℕ → State B → Bool
  exceeds_tx_rate_limit prev_tx_block current_block s =
      let rate_limit = s.params.tx_rate_limit in
      if rate_limit == 0 || prev_tx_block == 0
      then false
      else leb (sub_u32 current_block prev_tx_block) rate_limit

  -- the test that the staking calls make on their caller
  abbrev pub is_rate_limited : ℕ → State B → Bool
  is_rate_limited a s = exceeds_tx_rate_limit (get_last_tx_block a s) s.block_number s

  abbrev pub ensure_not_paused : Call (State B) (Unit {0})
  ensure_not_paused s = ensure (not s.params.tx_pause) paused s

-- `input.try_into().ok()` for the unsigned integer type of the balances
abbrev pub u128_to_balance : {B : Type 0} → Currency B → ℕ → Option ℕ
u128_to_balance currency x = if leb x currency.max_balance then some x else none

module _ {B : Type 0} ⦃currency : Currency B⦄ where
  unfoldable pub can_remove_balance_from_coldkey_account : ℕ → ℕ → State B → Bool
  can_remove_balance_from_coldkey_account coldkey amount s =
      let current_balance = currency.free_balance coldkey s.balances in
      if ltb current_balance amount
      then false
      else currency.ensure_can_withdraw coldkey amount (current_balance - amount) s.balances

  -- `none` is the answer `false`, with the state unchanged
  unfoldable pub remove_balance_from_coldkey_account : ℕ → ℕ → State B → Option (State B)
  remove_balance_from_coldkey_account coldkey amount s =
      elim (currency.withdraw coldkey amount s.balances) [
        | none ↦ none
        | some b ↦ some (record s { balances = b })
      ]

  -- `ensure!(Self::remove_balance_from_coldkey_account(..))`
  abbrev pub withdraw_or_error : ℕ → ℕ → Call (State B) (Unit {0})
  withdraw_or_error coldkey amount s = elim (remove_balance_from_coldkey_account coldkey amount s) [
    | none ↦ (err balance_withdrawal_error, s)
    | some s' ↦ (ok tt, s')
  ]

  -- TENSOR in the network: the issuance of the balances, the stakes, and what unbonds.
  unfoldable pub get_total_network_issuance : State B → ℕ
  get_total_network_issuance s =
      saturating_add
        (saturating_add
          (saturating_add
            (saturating_add
              (saturating_add (currency.total_issuance s.balances) s.node_stake.total_stake)
              s.subnet_pools.total_balance)
            s.total_node_delegate_stake)
          s.unbonding.total_unbonding_balance)
        s.delegate_accounts.total_of
