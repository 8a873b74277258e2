-- ===== src/StakingCalls/Authority.antt =====
-- Whose delegate stake a staking call can take.
use hypertensor_blockchain.Common.{
  ℕ, ◌+◌, ◌-◌, ◌≤◌, min, ◌≡◌, ◌≢◌, refl, Bool, true, false, Option, none, some, arith, u128_max,
  mul_u32, ◌==◌, if◌then◌else◌,
}
use hypertensor_blockchain.Common.Map
use hypertensor_blockchain.State.{
  State, swap_to_subnet_delegate_stake, swap_to_validator_delegate_stake, Pools, Currency, Origin,
  Result, ok, err,
}
use hypertensor_blockchain.Pools.{
  shares_of, increase_account, decrease_account, mint_dead_shares, opened, donate, shares_for,
  balance_for,
}
use hypertensor_blockchain.Accounts.{remove_balance_from_coldkey_account}
use hypertensor_blockchain.Unbonding.{insert_balance_to_unbonding_ledger, do_claim_unbondings}
use hypertensor_blockchain.Unbonding.Settle.{prepare-frame}
use hypertensor_blockchain.NodeStake.{do_add_node_stake, do_remove_node_stake}
use hypertensor_blockchain.ValidatorStake.{
  do_add_validator_delegate_stake, do_transfer_validator_delegate_stake,
  do_remove_validator_delegate_stake, do_increase_validator_delegate_stake,
  handle_increase_account_validator_delegate_stake, increase_account_validator_delegate_stake,
  decrease_account_validator_delegate_stake,
}
use hypertensor_blockchain.SwapQueue.{
  queue_swap, do_swap_from_subnet_to_subnet, do_swap_from_subnet_to_validator,
  do_swap_from_validator_to_subnet, do_swap_from_validator_to_validator, do_update_swap_queue,
}
use hypertensor_blockchain.OverwatchStake.{
  do_add_overwatch_node_stake, do_remove_overwatch_node_stake,
}
use hypertensor_blockchain.DelegateAccount.{do_remove_delegate_account_balance}
use hypertensor_blockchain.DelegateStake.{
  do_add_delegate_stake, do_transfer_delegate_stake, do_remove_delegate_stake,
  do_increase_delegate_stake, handle_increase_account_delegate_stake,
  increase_account_delegate_stake, decrease_account_delegate_stake,
}
use hypertensor_blockchain.StakingCalls.{
  StakingCall, add_node_stake, remove_node_stake, add_delegate_stake, remove_delegate_stake,
  donate_delegate_stake, transfer_delegate_stake, add_validator_delegate_stake,
  remove_validator_delegate_stake, donate_validator_delegate_stake,
  transfer_validator_delegate_stake, swap_from_subnet_to_subnet, swap_from_subnet_to_validator,
  swap_from_validator_to_subnet, swap_from_validator_to_validator, update_swap_queue,
  remove_delegate_account_balance, claim_unbondings, add_overwatch_node_stake,
  remove_overwatch_node_stake, call_body, dispatch_call,
}
pub mod Subnets
pub mod Validators

-- No pool takes shares from an account.
abbrev pub IsKept : ℕ → Pools → Pools → Type 0
IsKept c p p' =
    (pool : ℕ) → shares_of c pool p ≤ u128_max → shares_of c pool p ≤ shares_of c pool p'

IsKept-increase : (c b q x n : ℕ) (p : Pools) → IsKept c p (increase_account b q x n p)
unfolding increase_account
IsKept-increase c b q x n p pool fits = ground (
  arith,
  Map.get_double-insert_double b q c pool (min (shares_of b q p + n) u128_max) p.account_shares,
)

pub IsKept-decrease : (c a q x n : ℕ) (p : Pools) → c ≢ a → IsKept c p (decrease_account a q x n p)
unfolding decrease_account
IsKept-decrease c a q x n p ne pool fits =
    ground (arith, Map.get_double-insert_double a q c pool (shares_of a q p - n) p.account_shares)

IsKept-opened : (c q : ℕ) (p : Pools) → IsKept c p (opened q p)
unfolding opened mint_dead_shares
IsKept-opened c q p pool fits = ground arith

pub IsKept-donate : (c q x : ℕ) (p : Pools) → IsKept c p (donate q x p)
unfolding donate mint_dead_shares
IsKept-donate c q x p pool fits = ground arith

shares_of-opened : (c pool q : ℕ) (p : Pools) → shares_of c pool (opened q p) ≡ shares_of c pool p
unfolding opened mint_dead_shares
shares_of-opened c pool q p = ground arith

shares_of-decrease :
    (c pool a q x n : ℕ) (p : Pools)
    → c ≢ a
    → shares_of c pool (decrease_account a q x n p) ≡ shares_of c pool p
unfolding decrease_account
shares_of-decrease c pool a q x n p ne =
    ground (arith, Map.get_double-insert_double a q c pool (shares_of a q p - n) p.account_shares)

pub IsKept-deposit :
    (c b q x n : ℕ) (p : Pools) → IsKept c p (increase_account b q x n (opened q p))
IsKept-deposit c b q x n p pool fits =
    ground (arith, shares_of-opened c pool q p, IsKept-increase c b q x n (opened q p) pool)

pub IsKept-transfer :
    (c a b q n : ℕ) (p : Pools)
    → c ≢ a
    → IsKept c p (increase_account b q 0 n (decrease_account a q 0 n p))
IsKept-transfer c a b q n p ne pool fits = ground (
  arith,
  shares_of-decrease c pool a q 0 n p ne,
  IsKept-increase c b q 0 n (decrease_account a q 0 n p) pool,
)
