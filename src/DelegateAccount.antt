-- ===== src/DelegateAccount.antt =====
-- The balances that accounts hold as delegates of validators
-- (pallets/network/src/stake/delegate_account.rs).
use hypertensor_blockchain.Common.{
  ℕ, Bool, true, false, Option, none, some, ltb, leb, mul_u32, saturating_add, saturating_sub,
}
use hypertensor_blockchain.Common.Map
use hypertensor_blockchain.State.{
  State, Balances, Currency, Call, Origin, Result, ok, err, ◌>>=◌, ◌>>◌, gets, modify, ensure,
  or_error, ensure_signed, amount_zero, not_enough_stake_to_withdraw, could_not_convert_to_balance,
}
use hypertensor_blockchain.Accounts.{u128_to_balance}
use hypertensor_blockchain.Unbonding.{
  prepare_unbonding_ledger_entry, insert_balance_to_unbonding_ledger,
}
pub mod Moves

unfoldable pub increase_delegate_account_balance : ℕ → ℕ → Balances → Balances
increase_delegate_account_balance account_id amount b = record {
  balance_of =
      Map.insert account_id (saturating_add (Map.get account_id b.balance_of) amount) b.balance_of;
  total_of = saturating_add b.total_of amount;
}

unfoldable pub decrease_delegate_account_balance : ℕ → ℕ → Balances → Balances
decrease_delegate_account_balance account_id amount b = record {
  balance_of =
      Map.insert account_id (saturating_sub (Map.get account_id b.balance_of) amount) b.balance_of;
  total_of = saturating_sub b.total_of amount;
}

module _ {B : Type 0} ⦃currency : Currency B⦄ where
  unfoldable pub do_remove_delegate_account_balance : Origin → ℕ → Call (State B) (Unit {0})
  do_remove_delegate_account_balance origin amount_to_remove = do
    account_id ← ensure_signed origin
    s ← gets (λ s. s)
    let account_delegate_balance = Map.get account_id s.delegate_accounts.balance_of
    ensure (ltb 0 amount_to_remove) amount_zero
    ensure (leb amount_to_remove account_delegate_balance) not_enough_stake_to_withdraw
    or_error (u128_to_balance currency amount_to_remove) could_not_convert_to_balance
    let block = s.block_number
    let cooldown_blocks = mul_u32 s.params.stake_cooldown_epochs s.params.epoch_length
    prepare_unbonding_ledger_entry account_id cooldown_blocks block
    modify (λ s'. record s' {
      delegate_accounts =
          decrease_delegate_account_balance account_id amount_to_remove s'.delegate_accounts;
    })
    modify (insert_balance_to_unbonding_ledger account_id amount_to_remove cooldown_blocks block)
