-- ===== src/StakingCalls/Others.antt =====
-- No staking call takes shares of an account other than its caller.
use hypertensor_blockchain.Common.{ℕ, ◌≤◌, ◌≢◌, u128_max}
use hypertensor_blockchain.State.{State, Currency, Origin}
use hypertensor_blockchain.Pools.{shares_of}
use hypertensor_blockchain.StakingCalls.{StakingCall, dispatch_call}
use hypertensor_blockchain.StakingCalls.Authority.Subnets.{dispatch_call-subnet_shares}
use hypertensor_blockchain.StakingCalls.Authority.Validators.{dispatch_call-validator_shares}

module _ {B : Type 0} ⦃currency : Currency B⦄ where
  -- Whatever a signed account calls, successful or not, no other account loses shares of a pool, of
  -- a subnet or of a validator, if its shares are a u128.
  pub dispatch_call-shares :
      (call : StakingCall) (a c pool : ℕ) (s : State B)
      → c ≢ a
      → shares_of c pool s.subnet_pools ≤ u128_max
      → shares_of c pool s.validator_pools ≤ u128_max
      → let s' = (dispatch_call call (Origin.signed a) s).1 in
        (shares_of c pool s.subnet_pools ≤ shares_of c pool s'.subnet_pools)
        × (shares_of c pool s.validator_pools ≤ shares_of c pool s'.validator_pools)
  dispatch_call-shares call a c pool s ne fits fits' = (
    dispatch_call-subnet_shares call a c pool s ne fits,
    dispatch_call-validator_shares call a c pool s ne fits',
  )
