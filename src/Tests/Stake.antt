-- ===== src/Tests/Stake.antt =====
-- Node stake, overwatch stake and delegate balances.
use hypertensor_blockchain.Common.{◌+◌, ◌≤◌, ◌≡◌, ◌⊎◌, refl, true, none, some, arith}
use hypertensor_blockchain.Common.Map
use hypertensor_blockchain.Common.Map.{get_double, insert_double}
use hypertensor_blockchain.Common.BTreeMap
use hypertensor_blockchain.State.{State, Origin, ok, lookup_double}
use hypertensor_blockchain.Accounts.{
  can_remove_balance_from_coldkey_account, remove_balance_from_coldkey_account,
}
use hypertensor_blockchain.Unbonding.{
  accrue_entry, insert_unbonding, insert_balance_to_unbonding_ledger, claim_loop,
  do_claim_unbondings, prepare_unbonding_ledger_entry,
}
use hypertensor_blockchain.Unbonding.Balance.{IsBalanced}
use hypertensor_blockchain.Unbonding.Settle.{liquid}
use hypertensor_blockchain.NodeStake.{
  stake_of, increase_node_stake, decrease_node_stake, do_add_node_stake, do_remove_node_stake,
}
use hypertensor_blockchain.NodeStake.Totals.{IsTotalled}
use hypertensor_blockchain.NodeStake.Calls.{node_owner, min_stake_of, max_stake_of}
use hypertensor_blockchain.NodeStake.Moves.{do_add_node_stake_lem, do_remove_node_stake_lem}
use hypertensor_blockchain.OverwatchStake.{
  increase_overwatch_node_stake, decrease_overwatch_node_stake, do_add_overwatch_node_stake,
  do_remove_overwatch_node_stake,
}
use hypertensor_blockchain.DelegateAccount.{
  decrease_delegate_account_balance, do_remove_delegate_account_balance,
}
use hypertensor_blockchain.Tests.Bank.{Bank, bank, bank-IsCurrency}
use hypertensor_blockchain.Tests.Chain.{
  chain, stake-IsTotalled, unbonding-IsBalanced, unbonding-IsPayable,
}

abbrev after_add : State Bank
after_add = (do_add_node_stake (Origin.signed 1) 1 1 400 chain).1

added : do_add_node_stake (Origin.signed 1) 1 1 400 chain ≡ (ok tt, after_add)
unfolding do_add_node_stake increase_node_stake can_remove_balance_from_coldkey_account
    remove_balance_from_coldkey_account Map.lookup Map.insert get_double insert_double
added = refl

do_add_node_stake_example :
    (node_owner 1 1 chain ≡ some 1)
    × (stake_of 1 1 after_add.node_stake ≡ stake_of 1 1 chain.node_stake + 400)
    × (min_stake_of 1 chain ≤ stake_of 1 1 after_add.node_stake)
    × (stake_of 1 1 after_add.node_stake ≤ max_stake_of 1 chain)
    × (Map.get 1 after_add.balances + 400 ≡ Map.get 1 chain.balances)
    × (bank.total_issuance after_add.balances + after_add.node_stake.total_stake
        ≡ bank.total_issuance chain.balances + chain.node_stake.total_stake)
    × IsTotalled after_add.node_stake
do_add_node_stake_example =
    do_add_node_stake_lem bank-IsCurrency 1 1 1 400 chain after_add stake-IsTotalled (omega arith)
      added

abbrev after_remove : State Bank
after_remove = (do_remove_node_stake (Origin.signed 1) 1 1 400 chain).1

removed : do_remove_node_stake (Origin.signed 1) 1 1 400 chain ≡ (ok tt, after_remove)
unfolding do_remove_node_stake decrease_node_stake insert_balance_to_unbonding_ledger
    insert_unbonding accrue_entry do_claim_unbondings claim_loop prepare_unbonding_ledger_entry
    Map.lookup Map.insert BTreeMap.lookup BTreeMap.insert BTreeMap.remove get_double insert_double
removed = refl

do_remove_node_stake_example :
    (node_owner 1 1 chain ≡ some 1)
    × (stake_of 1 1 after_remove.node_stake + 400 ≡ stake_of 1 1 chain.node_stake)
    × ((lookup_double 1 1 chain.registry.subnet_node_reputation ≡ none)
        ⊎ (min_stake_of 1 chain ≤ stake_of 1 1 after_remove.node_stake))
    × (liquid after_remove + after_remove.node_stake.total_stake
        ≡ liquid chain + chain.node_stake.total_stake)
    × IsTotalled after_remove.node_stake
    × IsBalanced after_remove.unbonding
do_remove_node_stake_example =
    do_remove_node_stake_lem bank-IsCurrency 1 1 1 400 chain after_remove stake-IsTotalled
      unbonding-IsBalanced unbonding-IsPayable (omega arith) removed

abbrev after_watch : State Bank
after_watch = (do_add_overwatch_node_stake (Origin.signed 1) 1 50 chain).1

watched : do_add_overwatch_node_stake (Origin.signed 1) 1 50 chain ≡ (ok tt, after_watch)
unfolding do_add_overwatch_node_stake increase_overwatch_node_stake
    can_remove_balance_from_coldkey_account remove_balance_from_coldkey_account Map.lookup
    Map.insert
watched = refl

abbrev after_unwatch : State Bank
after_unwatch = (do_remove_overwatch_node_stake (Origin.signed 1) 1 true 50 chain).1

unwatched :
    do_remove_overwatch_node_stake (Origin.signed 1) 1 true 50 chain ≡ (ok tt, after_unwatch)
unfolding do_remove_overwatch_node_stake decrease_overwatch_node_stake
    insert_balance_to_unbonding_ledger insert_unbonding accrue_entry do_claim_unbondings claim_loop
    prepare_unbonding_ledger_entry Map.lookup Map.insert BTreeMap.lookup BTreeMap.insert
    BTreeMap.remove
unwatched = refl

abbrev after_withdrawal : State Bank
after_withdrawal = (do_remove_delegate_account_balance (Origin.signed 1) 30 chain).1

withdrawn :
    do_remove_delegate_account_balance (Origin.signed 1) 30 chain ≡ (ok tt, after_withdrawal)
unfolding do_remove_delegate_account_balance decrease_delegate_account_balance
    insert_balance_to_unbonding_ledger insert_unbonding accrue_entry do_claim_unbondings claim_loop
    prepare_unbonding_ledger_entry Map.lookup Map.insert BTreeMap.lookup BTreeMap.insert
    BTreeMap.remove
withdrawn = refl
