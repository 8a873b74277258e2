-- ===== src/NodeStake/Totals.antt =====
-- The totals of the node stakes are the sums of what they total.
use hypertensor_blockchain.Common.{ℕ, ◌+◌, ◌-◌, ◌≤◌, min, ◌≡◌, arith, u128_max}
use hypertensor_blockchain.Common.Map
use hypertensor_blockchain.Common.Map.{get_double, column_sum, grand_sum}
use hypertensor_blockchain.State.{NodeStake}
use hypertensor_blockchain.NodeStake.{stake_of, increase_node_stake, decrease_node_stake}

-- The stake of a subnet is the sum over its nodes, and the total stake the sum over all.
pub record IsTotalled (n : NodeStake) : Type 0 where
  pub subnets : (j : ℕ) → Map.get j n.total_subnet_stake ≡ column_sum j n.node_subnet_stake
  pub overall : n.total_stake ≡ grand_sum n.node_subnet_stake

module _ (node subnet amount : ℕ) {n : NodeStake} (h : IsTotalled n) where
  -- Adding stake keeps the totals, if the total stake stays within a u128.
  pub increase_node_stake-IsTotalled :
      n.total_stake + amount ≤ u128_max → IsTotalled (increase_node_stake node subnet amount n)
  unfolding increase_node_stake
  increase_node_stake-IsTotalled fits =
      let m = n.node_subnet_stake in
      let v = min (stake_of node subnet n + amount) u128_max in
      record {
        subnets = λ j. ground (
          arith,
          h.subnets j,
          h.subnets subnet,
          h.overall,
          Map.get_double-le-column_sum node subnet m,
          Map.column_sum-le-grand_sum subnet m,
          Map.column_sum-insert_double j node subnet v m,
          Map.lookup-insert subnet j (min (Map.get subnet n.total_subnet_stake + amount) u128_max)
              n.total_subnet_stake,
        );
        overall = omega (
          arith,
          h.overall,
          Map.get_double-le-column_sum node subnet m,
          Map.column_sum-le-grand_sum subnet m,
          Map.grand_sum-insert_double node subnet v m,
        );
      }

  -- Taking away no more than the node's stake keeps the totals.
  pub decrease_node_stake-IsTotalled :
      amount ≤ stake_of node subnet n → IsTotalled (decrease_node_stake node subnet amount n)
  unfolding decrease_node_stake
  decrease_node_stake-IsTotalled enough =
      let m = n.node_subnet_stake in
      let v = stake_of node subnet n - amount in
      record {
        subnets = λ j. ground (
          arith,
          h.subnets j,
          h.subnets subnet,
          Map.get_double-le-column_sum node subnet m,
          Map.column_sum-insert_double j node subnet v m,
          Map.lookup-insert subnet j (Map.get subnet n.total_subnet_stake - amount)
              n.total_subnet_stake,
        );
        overall = omega (
          arith,
          h.overall,
          Map.get_double-le-column_sum node subnet m,
          Map.column_sum-le-grand_sum subnet m,
          Map.grand_sum-insert_double node subnet v m,
        );
      }
