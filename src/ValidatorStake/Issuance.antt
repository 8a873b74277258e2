-- ===== src/ValidatorStake/Issuance.antt =====
-- What delegating to a validator does to the issuance that the pallet reports
-- (`get_total_network_issuance`, pallets/network/src/utilities/misc.rs).
use hypertensor_blockchain.Common.{ℕ, ◌+◌, ◌≤◌, ◌≡◌, arith, u128_max, saturating_add}
use hypertensor_blockchain.State.{State, Currency, IsCurrency, Origin, ok}
use hypertensor_blockchain.Accounts.{
  remove_balance_from_coldkey_account, get_total_network_issuance,
}
use hypertensor_blockchain.ValidatorStake.{
  do_add_validator_delegate_stake, handle_increase_account_validator_delegate_stake,
  increase_account_validator_delegate_stake,
}
use hypertensor_blockchain.ValidatorStake.Calls.{do_add_validator_delegate_stake-IsDeposited}

-- Five saturating additions are exact below the bound.
unsaturated :
    (a b c d e f : ℕ)
    → a + b + c + d + e + f ≤ u128_max
    → saturating_add (saturating_add (saturating_add (saturating_add (saturating_add a b) c) d) e) f
      ≡ a + b + c + d + e + f
unsaturated a b c d e f fits = omega arith

module _ {B : Type 0} ⦃currency : Currency B⦄ (laws : IsCurrency currency) where
  -- The parts of the issuance that a deposit into a validator's pool leaves alone.
  others_stay :
      (a pool x : ℕ) (s s' : State B)
      → do_add_validator_delegate_stake (Origin.signed a) pool x s ≡ (ok tt, s')
      → (s'.node_stake ≡ s.node_stake)
        × (s'.subnet_pools ≡ s.subnet_pools)
        × (s'.total_node_delegate_stake ≡ s.total_node_delegate_stake)
        × (s'.unbonding ≡ s.unbonding)
        × (s'.delegate_accounts ≡ s.delegate_accounts)
  unfolding do_add_validator_delegate_stake handle_increase_account_validator_delegate_stake
      increase_account_validator_delegate_stake remove_balance_from_coldkey_account
  others_stay a pool x s s' done = ground arith

  -- While the reported issuance does not saturate, a successful deposit into a validator's pool
  -- lowers it by exactly the amount: the sum has the balances but not the validators' pools.
  pub do_add_validator_delegate_stake-issuance :
      (a pool x : ℕ) (s s' : State B)
      → currency.total_issuance s.balances
          + s.node_stake.total_stake
          + s.subnet_pools.total_balance
          + s.total_node_delegate_stake
          + s.unbonding.total_unbonding_balance
          + s.delegate_accounts.total_of
        ≤ u128_max
      → do_add_validator_delegate_stake (Origin.signed a) pool x s ≡ (ok tt, s')
      → get_total_network_issuance s' + x ≡ get_total_network_issuance s
  unfolding get_total_network_issuance
  do_add_validator_delegate_stake-issuance a pool x s s' fits done =
      let added = do_add_validator_delegate_stake-IsDeposited a pool x s s' done in
      let (nodes, subnets, deprecated, ledger, accounts) = others_stay a pool x s s' done in
      let paid = laws.withdraw-total_issuance a x s.balances s'.balances added.withdrawn in
      let i' = currency.total_issuance s'.balances in
      let n = s.node_stake.total_stake in
      let p = s.subnet_pools.total_balance in
      let d = s.total_node_delegate_stake in
      let u = s.unbonding.total_unbonding_balance in
      let m = s.delegate_accounts.total_of in
      rw
        (
          nodes,
          subnets,
          deprecated,
          ledger,
          accounts,
          unsaturated i' n p d u m (omega (arith, paid, fits)),
          unsaturated (currency.total_issuance s.balances) n p d u m fits,
        )
        (omega (arith, paid))
