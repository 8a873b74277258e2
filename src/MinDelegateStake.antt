-- ===== src/MinDelegateStake.antt =====
-- The delegate stake that a subnet must have (pallets/network/src/utilities/delegate_staking.rs): a
-- share of the issuance, times a multiplier that grows with the electable nodes.
use hypertensor_blockchain.Common.{
  ℕ, [], ◌/◌, ◌+◌, ◌*◌, ◌-◌, ◌≤◌, ◌<◌, arith, leb, if◌then◌else◌, saturating_add, saturating_sub,
  u128_max,
}
use native.Mathlib.Nat.{mul-le-mul_right}
use hypertensor_blockchain.Common.Division.{div-lt}
use hypertensor_blockchain.Common.Lists.{length}
use hypertensor_blockchain.Common.Map
use hypertensor_blockchain.State.{State, Params, Currency}
use hypertensor_blockchain.Math.{percentage_factor, percent_mul, percent_div}
use hypertensor_blockchain.Math.Exact.{
  percent_mul-eq-min, percent_div-eq-min, percent_mul_mono, percent_div_mono,
}
use hypertensor_blockchain.Accounts.{get_total_network_issuance}

unfoldable pub get_subnet_min_delegate_staking_multiplier : ℕ → Params → ℕ
get_subnet_min_delegate_staking_multiplier electable_node_count params =
    let min_nodes = params.min_subnet_nodes in
    let max_nodes = params.max_subnet_nodes in
    let max_multiplier = params.max_min_delegate_stake_multiplier in
    let node_delta = saturating_sub electable_node_count min_nodes in
    let range = saturating_sub max_nodes min_nodes in
    let ratio = percent_div node_delta range in
    let delta = saturating_sub max_multiplier percentage_factor in
    if leb electable_node_count min_nodes
    then percentage_factor
    else if leb max_nodes electable_node_count
    then max_multiplier
    else saturating_add percentage_factor (percent_mul ratio delta)

module _ {B : Type 0} ⦃currency : Currency B⦄ where
  unfoldable pub get_min_subnet_delegate_stake_balance : ℕ → State B → ℕ
  get_min_subnet_delegate_stake_balance subnet_id s =
      let base_min =
        percent_mul (get_total_network_issuance s) s.params.min_subnet_delegate_stake_factor in
      let electable_node_count =
        length (Map.get_or [] subnet_id s.registry.subnet_node_election_slots) in
      percent_mul base_min
        (get_subnet_min_delegate_staking_multiplier electable_node_count s.params)

-- The ratio of a part to its whole is at most 100%.
ratio-le : (n d : ℕ) → n ≤ d → 0 < d → d ≤ percentage_factor → percent_div n d ≤ percentage_factor
ratio-le n d h pos le =
    let below : n * percentage_factor / d < percentage_factor + 1 =
      div-lt d pos (omega (arith, mul-le-mul_right percentage_factor h)) in
    omega (arith, (percent_div-eq-min n d (omega arith)).0)

-- At most 100% of a u128 is no more than it.
part-le : (r x : ℕ) → r ≤ percentage_factor → x ≤ u128_max → percent_mul r x ≤ x
part-le r x hr hx =
    let below : r * x / percentage_factor < x + 1 =
      div-lt percentage_factor (omega arith) (omega (arith, mul-le-mul_right x hr)) in
    omega (arith, (percent_mul-eq-min r x (omega arith) hx).0)

module _ (params : Params) (least : percentage_factor ≤ params.max_min_delegate_stake_multiplier)
    (fits : params.max_min_delegate_stake_multiplier ≤ u128_max)
    (nodes_fit : params.max_subnet_nodes ≤ percentage_factor) where
  abbrev delta : ℕ
  delta = params.max_min_delegate_stake_multiplier - percentage_factor

  abbrev ratio : ℕ → ℕ
  ratio n =
      percent_div (n - params.min_subnet_nodes) (params.max_subnet_nodes - params.min_subnet_nodes)

  between :
      (n : ℕ)
      → params.min_subnet_nodes < n
      → n < params.max_subnet_nodes
      → ratio n ≤ percentage_factor
  between n low high =
      ratio-le (n - params.min_subnet_nodes) (params.max_subnet_nodes - params.min_subnet_nodes)
        (omega arith) (omega arith) (omega arith)

  -- Where the largest multiplier is at least 100% and a u128, and the largest node count at most
  -- 1e18, the multiplier lies between 100% and the largest, for every count of electable nodes.
  pub multiplier-bounds :
      (n : ℕ)
      → (percentage_factor ≤ get_subnet_min_delegate_staking_multiplier n params)
        × (get_subnet_min_delegate_staking_multiplier n params
            ≤ params.max_min_delegate_stake_multiplier)
  unfolding get_subnet_min_delegate_staking_multiplier
  multiplier-bounds n = ground (arith, between n, part-le (ratio n) delta)

  -- Where the largest multiplier is at least 100% and a u128, and the largest node count at most
  -- 1e18, more electable nodes (up to a u128) never lower the multiplier.
  pub multiplier_mono :
      (n n' : ℕ)
      → n ≤ n'
      → n' ≤ u128_max
      → get_subnet_min_delegate_staking_multiplier n params
        ≤ get_subnet_min_delegate_staking_multiplier n' params
  unfolding get_subnet_min_delegate_staking_multiplier
  multiplier_mono n n' h big = ground (
    arith,
    between n,
    between n',
    part-le (ratio n) delta,
    part-le (ratio n') delta,
    percent_mul_mono (ratio n) (ratio n') delta delta,
    percent_div_mono (n - params.min_subnet_nodes) (n' - params.min_subnet_nodes)
        (params.max_subnet_nodes - params.min_subnet_nodes),
  )
