-- ===== src/Tests/Validators.antt =====
-- Deposits into and withdrawals from the pools of validators.
use hypertensor_blockchain.Common.{◌+◌, ◌≤◌, ◌≡◌, refl, arith}
use hypertensor_blockchain.Common.Map
use hypertensor_blockchain.Common.Map.{get_double, insert_double}
use hypertensor_blockchain.Common.BTreeMap
use hypertensor_blockchain.State.{State, Origin, ok}
use hypertensor_blockchain.Math.{checked_mul_div}
use hypertensor_blockchain.Shares.{convert_to_shares, convert_to_balance}
use hypertensor_blockchain.Accounts.{
  can_remove_balance_from_coldkey_account, remove_balance_from_coldkey_account,
}
use hypertensor_blockchain.Unbonding.{
  accrue_entry, insert_unbonding, insert_balance_to_unbonding_ledger, do_claim_unbondings,
  claim_loop, prepare_unbonding_ledger_entry, claim_block,
}
use hypertensor_blockchain.Unbonding.Owed.{IsOwed}
use hypertensor_blockchain.Pools.Moved.{IsGiven}
use hypertensor_blockchain.DelegateStake.Calls.{cooldown}
use hypertensor_blockchain.Unbonding.Balance.{IsBalanced}
use hypertensor_blockchain.Unbonding.Settle.{liquid}
use hypertensor_blockchain.Pools.{balance_for, increase_account, decrease_account, opened}
use hypertensor_blockchain.Pools.Backed.{IsBacked}
use hypertensor_blockchain.ValidatorStake.{
  do_add_validator_delegate_stake, do_remove_validator_delegate_stake,
  handle_increase_account_validator_delegate_stake, increase_account_validator_delegate_stake,
  decrease_account_validator_delegate_stake,
}
use hypertensor_blockchain.Pools.Value.{IsOpen}
use hypertensor_blockchain.ValidatorStake.Moves.{do_remove_validator_delegate_stake_lem}
use hypertensor_blockchain.Tests.Bank.{Bank, bank, bank-IsCurrency}
use hypertensor_blockchain.Tests.Chain.{
  chain, pools, pools-IsBacked, unbonding-IsBalanced, unbonding-IsPayable,
}

pools-IsOpen : IsOpen 1 10000 pools
unfolding convert_to_shares checked_mul_div Map.lookup
pools-IsOpen = record {
  not_empty = omega arith;
  shares_fit = omega arith;
  balance_fits = omega arith;
}

abbrev after_add : State Bank
after_add = (do_add_validator_delegate_stake (Origin.signed 1) 1 10000 chain).1

added : do_add_validator_delegate_stake (Origin.signed 1) 1 10000 chain ≡ (ok tt, after_add)
unfolding do_add_validator_delegate_stake handle_increase_account_validator_delegate_stake
    increase_account_validator_delegate_stake can_remove_balance_from_coldkey_account
    remove_balance_from_coldkey_account opened increase_account convert_to_shares checked_mul_div
    Map.lookup Map.insert
added = refl

abbrev after_remove : State Bank
after_remove = (do_remove_validator_delegate_stake (Origin.signed 1) 1 5000 chain).1

removed : do_remove_validator_delegate_stake (Origin.signed 1) 1 5000 chain ≡ (ok tt, after_remove)
unfolding do_remove_validator_delegate_stake decrease_account_validator_delegate_stake
    decrease_account insert_balance_to_unbonding_ledger insert_unbonding accrue_entry
    do_claim_unbondings claim_loop prepare_unbonding_ledger_entry convert_to_balance checked_mul_div
    Map.lookup Map.insert Map.remove BTreeMap.lookup BTreeMap.insert BTreeMap.remove get_double
    insert_double
removed = refl

do_remove_validator_delegate_stake_example :
    IsGiven 1 1 (balance_for 1 5000 pools) 5000 after_remove.validator_pools pools
    × IsOwed 1
        (claim_block (cooldown chain) chain.block_number)
        (balance_for 1 5000 pools)
        chain.unbonding
        after_remove.unbonding
    × (liquid after_remove + after_remove.validator_pools.total_balance ≡ liquid chain + 1000000)
    × IsBacked after_remove.validator_pools
    × IsBalanced after_remove.unbonding
    × (balance_for 1 500 pools ≤ balance_for 1 500 after_remove.validator_pools)
unfolding Map.lookup
do_remove_validator_delegate_stake_example =
    do_remove_validator_delegate_stake_lem bank-IsCurrency 1 1 5000 500 chain after_remove
      pools-IsBacked unbonding-IsBalanced unbonding-IsPayable (omega arith) (omega arith)
      (omega arith) (omega arith) (omega arith) removed
