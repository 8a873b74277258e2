-- ===== src/NodeStake/Moves.antt =====
-- What the calls on node stake move (pallets/network/src/stake/node_staking.rs).
use hypertensor_blockchain.Common.{
  ℕ, ◌+◌, ◌-◌, ◌≤◌, min, ◌≡◌, ◌⊎◌, inl, inr, none, some, arith, u128_max,
}
use hypertensor_blockchain.Common.Lists.{All}
use hypertensor_blockchain.Common.Map
use hypertensor_blockchain.State.{State, NodeStake, Currency, IsCurrency, Origin, ok, lookup_double}
use hypertensor_blockchain.Unbonding.{unbondings_of}
use hypertensor_blockchain.Unbonding.Claims.{IsPayable}
use hypertensor_blockchain.Unbonding.Balance.{IsBalanced}
use hypertensor_blockchain.Unbonding.Settle.{liquid, insert-after-prepare}
use hypertensor_blockchain.NodeStake.{
  stake_of, increase_node_stake, decrease_node_stake, do_add_node_stake, do_remove_node_stake,
}
use hypertensor_blockchain.NodeStake.Totals.{
  IsTotalled, increase_node_stake-IsTotalled, decrease_node_stake-IsTotalled,
}
use hypertensor_blockchain.NodeStake.Calls.{
  node_owner, min_stake_of, max_stake_of, do_add_node_stake-IsStakeAdded,
  do_remove_node_stake-IsStakeRemoved, cooldown,
}

stake_of-increase :
    (node subnet x : ℕ) (n : NodeStake)
    → stake_of node subnet n + x ≤ u128_max
    → stake_of node subnet (increase_node_stake node subnet x n) ≡ stake_of node subnet n + x
unfolding increase_node_stake
stake_of-increase node subnet x n fits = ground (
  arith,
  Map.get_double-insert_double node subnet node subnet (min (stake_of node subnet n + x) u128_max)
      n.node_subnet_stake,
)

stake_of-decrease :
    (node subnet x : ℕ) (n : NodeStake)
    → stake_of node subnet (decrease_node_stake node subnet x n) ≡ stake_of node subnet n - x
unfolding decrease_node_stake
stake_of-decrease node subnet x n = ground (
  arith,
  Map.get_double-insert_double node subnet node subnet (stake_of node subnet n - x)
      n.node_subnet_stake,
)

total-increase :
    (node subnet x : ℕ) (n : NodeStake)
    → n.total_stake + x ≤ u128_max
    → (increase_node_stake node subnet x n).total_stake ≡ n.total_stake + x
unfolding increase_node_stake
total-increase node subnet x n fits = omega arith

total-decrease :
    (node subnet x : ℕ) (n : NodeStake)
    → (decrease_node_stake node subnet x n).total_stake ≡ n.total_stake - x
unfolding decrease_node_stake
total-decrease node subnet x n = omega arith

pub stake-le-total :
    (node subnet : ℕ) {n : NodeStake} → IsTotalled n → stake_of node subnet n ≤ n.total_stake
stake-le-total node subnet {n} h = omega (
  arith,
  h.overall,
  Map.get_double-le-column_sum node subnet n.node_subnet_stake,
  Map.column_sum-le-grand_sum subnet n.node_subnet_stake,
)

module _ {B : Type 0} ⦃currency : Currency B⦄ (laws : IsCurrency currency) where
  -- From a state whose totals are right and do not overflow, a successful addition was made by the
  -- coldkey of the node's validator, leaves the node's stake larger by exactly the amount and
  -- between the subnet's bounds, takes the amount from the caller's free balance, conserves
  -- issuance and stake together, and leaves the totals right.
  pub do_add_node_stake_lem :
      (c subnet node x : ℕ) (s s' : State B)
      → IsTotalled s.node_stake
      → s.node_stake.total_stake + x ≤ u128_max
      → do_add_node_stake (Origin.signed c) subnet node x s ≡ (ok tt, s')
      → (node_owner subnet node s ≡ some c)
        × (stake_of node subnet s'.node_stake ≡ stake_of node subnet s.node_stake + x)
        × (min_stake_of subnet s ≤ stake_of node subnet s'.node_stake)
        × (stake_of node subnet s'.node_stake ≤ max_stake_of subnet s)
        × (currency.free_balance c s'.balances + x ≡ currency.free_balance c s.balances)
        × (currency.total_issuance s'.balances + s'.node_stake.total_stake
            ≡ currency.total_issuance s.balances + s.node_stake.total_stake)
        × IsTotalled s'.node_stake
  do_add_node_stake_lem c subnet node x s s' totals fits h =
      let added = do_add_node_stake-IsStakeAdded c subnet node x s s' h in
      let room : stake_of node subnet s.node_stake + x ≤ u128_max =
        omega (arith, stake-le-total node subnet totals) in
      let grown = stake_of-increase node subnet x s.node_stake room in
      rw added.staked (
        added.owner,
        grown,
        omega (arith, added.enough, grown),
        omega (arith, added.bounded, grown),
        laws.withdraw-free_balance c x s.balances s'.balances added.withdrawn,
        omega (
          arith,
          total-increase node subnet x s.node_stake fits,
          laws.withdraw-total_issuance c x s.balances s'.balances added.withdrawn,
        ),
        increase_node_stake-IsTotalled node subnet x totals fits,
      )

  -- From a state whose totals are right, whose ledger is balanced and whose caller's entries can be
  -- paid, a successful removal was made by the coldkey of the node's validator, leaves the node's
  -- stake smaller by exactly the amount, and at the subnet's minimum or above if the node is still
  -- active; issuance, ledger and stake together are conserved, and the totals and the ledger stay
  -- right.
  pub do_remove_node_stake_lem :
      (c subnet node x : ℕ) (s s' : State B)
      → IsTotalled s.node_stake
      → IsBalanced s.unbonding
      → All (IsPayable currency) (unbondings_of c s.unbonding)
      → s.unbonding.total_unbonding_balance + x ≤ u128_max
      → do_remove_node_stake (Origin.signed c) subnet node x s ≡ (ok tt, s')
      → (node_owner subnet node s ≡ some c)
        × (stake_of node subnet s'.node_stake + x ≡ stake_of node subnet s.node_stake)
        × ((lookup_double subnet node s.registry.subnet_node_reputation ≡ none)
            ⊎ (min_stake_of subnet s ≤ stake_of node subnet s'.node_stake))
        × (liquid s' + s'.node_stake.total_stake ≡ liquid s + s.node_stake.total_stake)
        × IsTotalled s'.node_stake
        × IsBalanced s'.unbonding
  do_remove_node_stake_lem c subnet node x s s' totals balanced payable fits h =
      let removed = do_remove_node_stake-IsStakeRemoved c subnet node x s s' h in
      let shrunk = stake_of-decrease node subnet x s.node_stake in
      let (ledger, moved) =
        insert-after-prepare laws c s balanced payable x (cooldown s) s.block_number fits in
      let total = total-decrease node subnet x s.node_stake in
      rw (removed.unstaked, removed.ledger, removed.balances_lem)
        (
          removed.owner,
          omega (arith, shrunk, removed.enough),
          kept_after shrunk removed.kept,
          omega (arith, total, moved, removed.enough, stake-le-total node subnet totals),
          decrease_node_stake-IsTotalled node subnet x totals removed.enough,
          ledger,
        )
    where
      kept_after : {A : Type 0} {m a b : ℕ} → b ≡ a → A ⊎ (m ≤ a) → A ⊎ (m ≤ b)
      kept_after e (inl gone) = inl gone
      kept_after e (inr above) = inr (omega arith)
