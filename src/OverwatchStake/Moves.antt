-- ===== src/OverwatchStake/Moves.antt =====
-- What the calls on overwatch stake move, and the total that the code keeps.
use hypertensor_blockchain.Common.{
  ℕ, ◌+◌, ◌-◌, ◌≤◌, ◌<◌, min, ◌≡◌, Bool, Option, none, some, arith, u128_max, if◌then◌else◌,
  mul_u32,
}
use hypertensor_blockchain.Common.Lists.{All}
use hypertensor_blockchain.Common.Map
use hypertensor_blockchain.State.{State, Balances, Currency, IsCurrency, Origin, ok}
use hypertensor_blockchain.Accounts.{remove_balance_from_coldkey_account}
use hypertensor_blockchain.Unbonding.{
  unbondings_of, claim_block, insert_unbonding, insert_balance_to_unbonding_ledger,
  prepare_unbonding_ledger_entry,
}
use hypertensor_blockchain.Unbonding.Claims.{IsPayable}
use hypertensor_blockchain.Unbonding.Balance.{IsBalanced}
use hypertensor_blockchain.Unbonding.Settle.{prepare-frame, liquid, insert-after-prepare}
use hypertensor_blockchain.OverwatchStake.{
  increase_overwatch_node_stake, decrease_overwatch_node_stake, do_add_overwatch_node_stake,
  do_remove_overwatch_node_stake,
}

-- The total is the sum of the balances.
abbrev pub IsSummed : Balances → Type 0
IsSummed b = b.total_of ≡ Map.total_by (λ n. n) b.balance_of

module _ (id x : ℕ) (b : Balances) where
  increase-IsSummed :
      IsSummed b → b.total_of + x ≤ u128_max → IsSummed (increase_overwatch_node_stake id x b)
  unfolding increase_overwatch_node_stake
  increase-IsSummed h fits = omega (
    arith,
    h,
    Map.measure-le-total_by (λ (n : ℕ). n) id b.balance_of,
    Map.total_by-insert (λ (n : ℕ). n) id (min (Map.get id b.balance_of + x) u128_max) b.balance_of,
  )

  decrease-IsSummed :
      IsSummed b → x ≤ Map.get id b.balance_of → IsSummed (decrease_overwatch_node_stake id x b)
  unfolding decrease_overwatch_node_stake
  decrease-IsSummed h enough = ground (
    arith,
    Map.measure-le-total_by (λ (n : ℕ). n) id b.balance_of,
    Map.total_by-insert (λ (n : ℕ). n) id (Map.get id b.balance_of - x) b.balance_of,
  )

  total-decrease : (decrease_overwatch_node_stake id x b).total_of ≡ b.total_of - x
  unfolding decrease_overwatch_node_stake
  total-decrease = omega arith

  get-decrease :
      Map.get id (decrease_overwatch_node_stake id x b).balance_of ≡ Map.get id b.balance_of - x
  unfolding decrease_overwatch_node_stake
  get-decrease = ground (arith, Map.lookup-insert id id (Map.get id b.balance_of - x) b.balance_of)

  le-total : IsSummed b → Map.get id b.balance_of ≤ b.total_of
  le-total h = ground (arith, Map.measure-le-total_by (λ (n : ℕ). n) id b.balance_of)

module _ (id x : ℕ) (b : Balances) where
  total-increase :
      b.total_of + x ≤ u128_max → (increase_overwatch_node_stake id x b).total_of ≡ b.total_of + x
  unfolding increase_overwatch_node_stake
  total-increase fits = omega arith

  get-increase :
      IsSummed b
      → b.total_of + x ≤ u128_max
      → Map.get id (increase_overwatch_node_stake id x b).balance_of ≡ Map.get id b.balance_of + x
  unfolding increase_overwatch_node_stake
  get-increase h fits = ground (
    arith,
    Map.measure-le-total_by (λ (n : ℕ). n) id b.balance_of,
    Map.lookup-insert id id (min (Map.get id b.balance_of + x) u128_max) b.balance_of,
  )

abbrev pub cooldown : {B : Type 0} → State B → ℕ
cooldown s = mul_u32 s.params.stake_cooldown_epochs s.params.epoch_length

-- The coldkey of the validator that owns the node.
abbrev pub overwatch_owner : {B : Type 0} → ℕ → State B → Option ℕ
overwatch_owner id s = elim (Map.lookup id s.registry.overwatch_node_validator_id) [
  | none ↦ none
  | some v ↦ Map.lookup v s.registry.validator_coldkey
]

module _ {B : Type 0} ⦃currency : Currency B⦄ where
  abbrev made_room : ℕ → State B → State B
  made_room a s = (prepare_unbonding_ledger_entry a (cooldown s) s.block_number s).1

  -- What a successful withdrawal has tested and done.
  record IsRemoved (a id x : ℕ) (s s' : State B) : Type 0 where
    not_zero : 0 < x
    enough : x ≤ Map.get id s.overwatch_stake.balance_of
    stake_lem : s'.overwatch_stake ≡ decrease_overwatch_node_stake id x s.overwatch_stake
    balances_lem : s'.balances ≡ (made_room a s).balances
    ledger :
        s'.unbonding
        ≡ insert_unbonding a x (claim_block (cooldown s) s.block_number) (made_room a s).unbonding

  remove-IsRemoved :
      (a id x : ℕ) (active : Bool) (s s' : State B)
      → do_remove_overwatch_node_stake (Origin.signed a) id active x s ≡ (ok tt, s')
      → (IsRemoved a id x s s')
        × (overwatch_owner id s ≡ some a)
        × ((if active then s.params.overwatch_min_stake_balance else 0)
            ≤ Map.get id s.overwatch_stake.balance_of - x)
  unfolding do_remove_overwatch_node_stake insert_balance_to_unbonding_ledger
  remove-IsRemoved a id x active s s' h =
      ground (arith, prepare-frame a (cooldown s) s.block_number s)

module _ {B : Type 0} ⦃currency : Currency B⦄ (laws : IsCurrency currency) where
  -- What a withdrawal leaves: the amount is out of the stake, the stake and the liquid money
  -- together are conserved, and total and ledger stay right.
  removed_settles :
      (a id x : ℕ) (s s' : State B)
      → IsSummed s.overwatch_stake
      → IsBalanced s.unbonding
      → All (IsPayable currency) (unbondings_of a s.unbonding)
      → s.unbonding.total_unbonding_balance + x ≤ u128_max
      → IsRemoved a id x s s'
      → (Map.get id s'.overwatch_stake.balance_of + x ≡ Map.get id s.overwatch_stake.balance_of)
        × (liquid s' + s'.overwatch_stake.total_of ≡ liquid s + s.overwatch_stake.total_of)
        × IsSummed s'.overwatch_stake
        × IsBalanced s'.unbonding
  removed_settles a id x s s' summed balanced payable fits r =
      let (ledger, moved) =
        insert-after-prepare laws a s balanced payable x (cooldown s) s.block_number fits in
      rw (r.stake_lem, r.ledger, r.balances_lem)
        (
          omega (arith, get-decrease id x s.overwatch_stake, r.enough),
          omega (
            arith,
            total-decrease id x s.overwatch_stake,
            moved,
            r.enough,
            le-total id x s.overwatch_stake summed,
          ),
          decrease-IsSummed id x s.overwatch_stake summed r.enough,
          ledger,
        )

  -- From a right total, a balanced ledger, and entries of the caller that can be paid: a successful
  -- removal of overwatch stake was made by the coldkey of the node's validator, takes exactly the
  -- amount from the node's stake, leaves an active node at the minimum or above, conserves
  -- issuance, ledger and overwatch stake together, and keeps total and ledger right.
  pub do_remove_overwatch_node_stake_lem :
      (a id x : ℕ) (active : Bool) (s s' : State B)
      → IsSummed s.overwatch_stake
      → IsBalanced s.unbonding
      → All (IsPayable currency) (unbondings_of a s.unbonding)
      → s.unbonding.total_unbonding_balance + x ≤ u128_max
      → do_remove_overwatch_node_stake (Origin.signed a) id active x s ≡ (ok tt, s')
      → (overwatch_owner id s ≡ some a)
        × ((if active then s.params.overwatch_min_stake_balance else 0)
            ≤ Map.get id s.overwatch_stake.balance_of - x)
        × (Map.get id s'.overwatch_stake.balance_of + x ≡ Map.get id s.overwatch_stake.balance_of)
        × (liquid s' + s'.overwatch_stake.total_of ≡ liquid s + s.overwatch_stake.total_of)
        × IsSummed s'.overwatch_stake
        × IsBalanced s'.unbonding
  do_remove_overwatch_node_stake_lem a id x active s s' summed balanced payable fits h =
      let (r, owner, kept) = remove-IsRemoved a id x active s s' h in
      let (taken, moved, still_summed, ledger) =
        removed_settles a id x s s' summed balanced payable fits r in
      (owner, kept, taken, moved, still_summed, ledger)

  record IsAdded (a id x : ℕ) (s s' : State B) : Type 0 where
    owner : overwatch_owner id s ≡ some a
    enough : s.params.overwatch_min_stake_balance ≤ Map.get id s.overwatch_stake.balance_of + x
    withdrawn : currency.withdraw a x s.balances ≡ some s'.balances
    stake_lem : s'.overwatch_stake ≡ increase_overwatch_node_stake id x s.overwatch_stake

  add-IsAdded :
      (a id x : ℕ) (s s' : State B)
      → do_add_overwatch_node_stake (Origin.signed a) id x s ≡ (ok tt, s')
      → IsAdded a id x s s'
  unfolding do_add_overwatch_node_stake remove_balance_from_coldkey_account
  add-IsAdded a id x s s' h = ground arith

  -- From a right total with room: a successful addition of overwatch stake was made by the coldkey
  -- of the node's validator, leaves the node at the minimum or above, takes the amount from the
  -- caller's free balance, conserves issuance and overwatch stake together, and keeps the total
  -- right.
  pub do_add_overwatch_node_stake_lem :
      (a id x : ℕ) (s s' : State B)
      → IsSummed s.overwatch_stake
      → s.overwatch_stake.total_of + x ≤ u128_max
      → do_add_overwatch_node_stake (Origin.signed a) id x s ≡ (ok tt, s')
      → (overwatch_owner id s ≡ some a)
        × (Map.get id s'.overwatch_stake.balance_of ≡ Map.get id s.overwatch_stake.balance_of + x)
        × (s.params.overwatch_min_stake_balance ≤ Map.get id s'.overwatch_stake.balance_of)
        × (currency.free_balance a s'.balances + x ≡ currency.free_balance a s.balances)
        × (currency.total_issuance s'.balances + s'.overwatch_stake.total_of
            ≡ currency.total_issuance s.balances + s.overwatch_stake.total_of)
        × IsSummed s'.overwatch_stake
  do_add_overwatch_node_stake_lem a id x s s' summed fits h =
      let r = add-IsAdded a id x s s' h in
      let grown = get-increase id x s.overwatch_stake summed fits in
      rw r.stake_lem (
        r.owner,
        grown,
        omega (arith, grown, r.enough),
        laws.withdraw-free_balance a x s.balances s'.balances r.withdrawn,
        omega (
          arith,
          total-increase id x s.overwatch_stake fits,
          laws.withdraw-total_issuance a x s.balances s'.balances r.withdrawn,
        ),
        increase-IsSummed id x s.overwatch_stake summed fits,
      )
