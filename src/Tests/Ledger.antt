-- ===== src/Tests/Ledger.antt =====
-- The unbonding ledger.
use hypertensor_blockchain.Common.{ℕ, ◌≤◌, ◌≡◌, ◌↔◌, [], ◌∷◌, none, arith}
use hypertensor_blockchain.Common.Lists.{length}
use hypertensor_blockchain.Common.Map
use hypertensor_blockchain.Common.BTreeMap
use hypertensor_blockchain.State.{err, max_unlockings_reached}
use hypertensor_blockchain.Unbonding.{
  unbondings_of, do_claim_unbondings, prepare_unbonding_ledger_entry,
}
use hypertensor_blockchain.Unbonding.Claims.{pending, matured_sum, do_claim_unbondings_lem}
use hypertensor_blockchain.Unbonding.Balance.{IsBalanced, do_claim_unbondings-IsBalanced}
use hypertensor_blockchain.Unbonding.Limits.{prepare_unbonding_ledger_entry-err_iff}
use hypertensor_blockchain.Tests.Bank.{bank, bank-IsCurrency}
use hypertensor_blockchain.Tests.Chain.{chain, unbonding, unbonding-IsBalanced, unbonding-IsPayable}

-- At block 1000 the entry of block 900 is paid and that of block 1050 stays.
do_claim_unbondings_example :
    let s' = (do_claim_unbondings 1 chain).0 in
    (unbondings_of 1 s'.unbonding ≡ (1050, 70) ∷ [])
    × (s'.unbonding.total_unbonding_balance ≡ 70)
    × (bank.free_balance 1 s'.balances ≡ 20050)
    × (bank.total_issuance s'.balances ≡ 25050)
unfolding Map.lookup Map.total_by pending matured_sum
do_claim_unbondings_example =
    do_claim_unbondings_lem bank-IsCurrency 1 1 chain (unbonding-IsBalanced.sorted 1)
      unbonding-IsPayable

do_claim_unbondings-IsBalanced_example : IsBalanced (do_claim_unbondings 1 chain).0.unbonding
do_claim_unbondings-IsBalanced_example =
    do_claim_unbondings-IsBalanced bank-IsCurrency 1 chain unbonding-IsBalanced unbonding-IsPayable

lengths : (c : ℕ) → length (unbondings_of c unbonding) ≤ 2
unfolding Map.lookup
lengths c = ground arith

-- One of the two entries is due, so there is room.
prepare_unbonding_ledger_entry_example :
    ((prepare_unbonding_ledger_entry 1 100 1000 chain).0 ≡ err max_unlockings_reached) ↔ (
      (BTreeMap.lookup 1100 (unbondings_of 1 unbonding) ≡ none)
      × (2 ≤ length (pending 1000 (unbondings_of 1 unbonding))))
prepare_unbonding_ledger_entry_example =
    prepare_unbonding_ledger_entry-err_iff bank-IsCurrency 1 100 chain
      (unbonding-IsBalanced.sorted 1) unbonding-IsPayable (omega arith) (lengths 1)
