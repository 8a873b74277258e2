-- ===== src/Tests/Guards.antt =====
-- Pause, origins and the shares of others.
use hypertensor_blockchain.Common.{◌≤◌, ◌≡◌, refl, true, arith, inr}
use hypertensor_blockchain.Common.Map
use hypertensor_blockchain.Common.Map.{get_double}
use hypertensor_blockchain.State.{State, Origin}
use hypertensor_blockchain.Pools.{shares_of}
use hypertensor_blockchain.StakingCalls.{remove_delegate_stake, claim_unbondings, dispatch_call}
use hypertensor_blockchain.StakingCalls.Guards.{is_err, dispatch_call_refused}
use hypertensor_blockchain.StakingCalls.Others.{dispatch_call-shares}
use hypertensor_blockchain.Tests.Bank.{Bank, bank}
use hypertensor_blockchain.Tests.Chain.{chain}

abbrev paused_chain : State Bank
paused_chain = record chain { params = record (chain.params) { tx_pause = true } }

dispatch_call_refused_example :
    (is_err (dispatch_call claim_unbondings (Origin.signed 1) paused_chain).0 ≡ true)
    × ((dispatch_call claim_unbondings (Origin.signed 1) paused_chain).1 ≡ paused_chain)
dispatch_call_refused_example =
    dispatch_call_refused claim_unbondings (Origin.signed 1) paused_chain (inr (refl, refl))

dispatch_call-shares_example :
    let s' = (dispatch_call (remove_delegate_stake 1 5000) (Origin.signed 2) chain).1 in
    (900000 ≤ shares_of 1 1 s'.subnet_pools) × (900000 ≤ shares_of 1 1 s'.validator_pools)
unfolding get_double Map.lookup
dispatch_call-shares_example =
    dispatch_call-shares (remove_delegate_stake 1 5000) 2 1 1 chain (omega arith) (omega arith)
      (omega arith)
