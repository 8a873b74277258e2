-- ===== src/Tests/Delegates.antt =====
-- Deposits, withdrawals and transfers of delegate stake.
use hypertensor_blockchain.Common.{◌+◌, ◌-◌, ◌<◌, ◌≤◌, ◌≡◌, refl, arith}
use hypertensor_blockchain.Common.Map
use hypertensor_blockchain.Common.Map.{get_double, insert_double}
use hypertensor_blockchain.Common.BTreeMap
use hypertensor_blockchain.State.{State, Origin, ok}
use hypertensor_blockchain.Math.{checked_mul_div}
use hypertensor_blockchain.Shares.{convert_to_shares, convert_to_balance}
use hypertensor_blockchain.Accounts.{
  can_remove_balance_from_coldkey_account, remove_balance_from_coldkey_account,
}
use hypertensor_blockchain.Unbonding.{
  accrue_entry, insert_unbonding, insert_balance_to_unbonding_ledger, do_claim_unbondings,
  claim_loop, prepare_unbonding_ledger_entry, claim_block,
}
use hypertensor_blockchain.Unbonding.Owed.{IsOwed}
use hypertensor_blockchain.Pools.Moved.{IsGiven}
use hypertensor_blockchain.DelegateStake.Calls.{cooldown}
use hypertensor_blockchain.Unbonding.Balance.{IsBalanced}
use hypertensor_blockchain.Unbonding.Settle.{liquid}
use hypertensor_blockchain.Pools.{
  shares_in, balance_in, shares_for, balance_for, increase_account, decrease_account, opened,
}
use hypertensor_blockchain.Pools.Backed.{held, IsBacked}
use hypertensor_blockchain.DelegateStake.{
  increase_account_delegate_stake, decrease_account_delegate_stake, do_add_delegate_stake,
  do_remove_delegate_stake, do_transfer_delegate_stake, handle_increase_account_delegate_stake,
}
use hypertensor_blockchain.Pools.Value.{IsOpen}
use hypertensor_blockchain.DelegateStake.Moves.{
  do_add_delegate_stake_lem, do_remove_delegate_stake_lem,
}
use hypertensor_blockchain.DelegateStake.Transfers.{do_transfer_delegate_stake_mints}
use hypertensor_blockchain.Tests.Bank.{Bank, bank, bank-IsCurrency}
use hypertensor_blockchain.Tests.Chain.{
  chain, pools, pools-IsBacked, unbonding-IsBalanced, unbonding-IsPayable,
}

abbrev after_add : State Bank
after_add = (do_add_delegate_stake (Origin.signed 1) 1 10000 chain).1

added : do_add_delegate_stake (Origin.signed 1) 1 10000 chain ≡ (ok tt, after_add)
unfolding do_add_delegate_stake handle_increase_account_delegate_stake
    increase_account_delegate_stake can_remove_balance_from_coldkey_account
    remove_balance_from_coldkey_account opened increase_account convert_to_shares checked_mul_div
    Map.lookup Map.insert
added = refl

pools-IsOpen : IsOpen 1 10000 pools
unfolding convert_to_shares checked_mul_div Map.lookup
pools-IsOpen = record {
  not_empty = omega arith;
  shares_fit = omega arith;
  balance_fits = omega arith;
}

do_add_delegate_stake_example :
    (20000 - 10000 + 10000 ≡ 20000)
    × (10000 + 5000 + 1010000 ≡ 25000 + 1000000)
    × IsBacked after_add.subnet_pools
    × (balance_for 1 500 pools ≤ balance_for 1 500 after_add.subnet_pools)
    × (balance_for 1 (shares_for 1 10000 pools) after_add.subnet_pools ≤ 10000)
    × (0 < shares_for 1 10000 pools)
    × IsGiven 1 1 10000 (shares_for 1 10000 pools) pools after_add.subnet_pools
unfolding do_add_delegate_stake handle_increase_account_delegate_stake
    increase_account_delegate_stake can_remove_balance_from_coldkey_account
    remove_balance_from_coldkey_account opened increase_account convert_to_shares checked_mul_div
    Map.lookup Map.insert Map.total_by
do_add_delegate_stake_example =
    do_add_delegate_stake_lem bank-IsCurrency 1 1 10000 500 chain after_add pools-IsBacked
      pools-IsOpen (omega arith) (omega arith) added

abbrev after_remove : State Bank
after_remove = (do_remove_delegate_stake (Origin.signed 1) 1 5000 chain).1

removed : do_remove_delegate_stake (Origin.signed 1) 1 5000 chain ≡ (ok tt, after_remove)
unfolding do_remove_delegate_stake decrease_account_delegate_stake decrease_account
    insert_balance_to_unbonding_ledger insert_unbonding accrue_entry do_claim_unbondings claim_loop
    prepare_unbonding_ledger_entry convert_to_balance checked_mul_div Map.lookup Map.insert
    Map.remove BTreeMap.lookup BTreeMap.insert BTreeMap.remove get_double insert_double
removed = refl

do_remove_delegate_stake_example :
    IsGiven 1 1 (balance_for 1 5000 pools) 5000 after_remove.subnet_pools pools
    × IsOwed 1
        (claim_block (cooldown chain) chain.block_number)
        (balance_for 1 5000 pools)
        chain.unbonding
        after_remove.unbonding
    × (liquid after_remove + after_remove.subnet_pools.total_balance ≡ liquid chain + 1000000)
    × IsBacked after_remove.subnet_pools
    × IsBalanced after_remove.unbonding
    × (balance_for 1 500 pools ≤ balance_for 1 500 after_remove.subnet_pools)
unfolding Map.lookup
do_remove_delegate_stake_example =
    do_remove_delegate_stake_lem bank-IsCurrency 1 1 5000 500 chain after_remove pools-IsBacked
      unbonding-IsBalanced unbonding-IsPayable (omega arith) (omega arith) (omega arith)
      (omega arith) (omega arith) removed

abbrev after_transfer : State Bank
after_transfer = (do_transfer_delegate_stake (Origin.signed 1) 1 2 4000 chain).1

transferred : do_transfer_delegate_stake (Origin.signed 1) 1 2 4000 chain ≡ (ok tt, after_transfer)
unfolding do_transfer_delegate_stake increase_account_delegate_stake decrease_account_delegate_stake
    increase_account decrease_account convert_to_balance checked_mul_div Map.lookup Map.insert
transferred = refl

-- Account 3 holds no shares, and transfers 5000 to account 4.
do_transfer_delegate_stake_mints_example :
    let (r, s') = do_transfer_delegate_stake (Origin.signed 3) 1 4 5000 chain in
    (r ≡ ok tt)
    × (held 1 s'.subnet_pools ≡ held 1 pools + 5000)
    × (shares_in 1 s'.subnet_pools ≡ shares_in 1 pools)
    × (balance_in 1 s'.subnet_pools ≡ balance_in 1 pools)
unfolding Map.lookup get_double convert_to_balance checked_mul_div Map.column_sum Map.total_by
do_transfer_delegate_stake_mints_example =
    do_transfer_delegate_stake_mints 3 1 4 5000 chain (omega arith) (omega arith) (omega arith)
      (omega arith) (omega arith) (omega arith) (omega arith) (omega arith)
