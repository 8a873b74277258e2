-- ===== src/DelegateAccount/Moves.antt =====
-- What the withdrawal of a delegate's balance moves, and the total that the code keeps.
use hypertensor_blockchain.Common.{ℕ, ◌+◌, ◌-◌, ◌≤◌, ◌<◌, min, ◌≡◌, arith, u128_max, mul_u32}
use hypertensor_blockchain.Common.Lists.{All}
use hypertensor_blockchain.Common.Map
use hypertensor_blockchain.State.{State, Balances, Currency, IsCurrency, Origin, ok}
use hypertensor_blockchain.Unbonding.{
  unbondings_of, claim_block, insert_unbonding, insert_balance_to_unbonding_ledger,
  prepare_unbonding_ledger_entry,
}
use hypertensor_blockchain.Unbonding.Claims.{IsPayable}
use hypertensor_blockchain.Unbonding.Balance.{IsBalanced}
use hypertensor_blockchain.Unbonding.Settle.{prepare-frame, liquid, insert-after-prepare}
use hypertensor_blockchain.DelegateAccount.{
  increase_delegate_account_balance, decrease_delegate_account_balance,
  do_remove_delegate_account_balance,
}

-- The total is the sum of the balances.
abbrev pub IsSummed : Balances → Type 0
IsSummed b = b.total_of ≡ Map.total_by (λ n. n) b.balance_of

module _ (id x : ℕ) (b : Balances) where
  increase-IsSummed :
      IsSummed b → b.total_of + x ≤ u128_max → IsSummed (increase_delegate_account_balance id x b)
  unfolding increase_delegate_account_balance
  increase-IsSummed h fits = omega (
    arith,
    h,
    Map.measure-le-total_by (λ (n : ℕ). n) id b.balance_of,
    Map.total_by-insert (λ (n : ℕ). n) id (min (Map.get id b.balance_of + x) u128_max) b.balance_of,
  )

  decrease-IsSummed :
      IsSummed b → x ≤ Map.get id b.balance_of → IsSummed (decrease_delegate_account_balance id x b)
  unfolding decrease_delegate_account_balance
  decrease-IsSummed h enough = ground (
    arith,
    Map.measure-le-total_by (λ (n : ℕ). n) id b.balance_of,
    Map.total_by-insert (λ (n : ℕ). n) id (Map.get id b.balance_of - x) b.balance_of,
  )

  total-decrease : (decrease_delegate_account_balance id x b).total_of ≡ b.total_of - x
  unfolding decrease_delegate_account_balance
  total-decrease = omega arith

  get-decrease :
      Map.get id (decrease_delegate_account_balance id x b).balance_of ≡ Map.get id b.balance_of - x
  unfolding decrease_delegate_account_balance
  get-decrease = ground (arith, Map.lookup-insert id id (Map.get id b.balance_of - x) b.balance_of)

  le-total : IsSummed b → Map.get id b.balance_of ≤ b.total_of
  le-total h = ground (arith, Map.measure-le-total_by (λ (n : ℕ). n) id b.balance_of)

abbrev pub cooldown : {B : Type 0} → State B → ℕ
cooldown s = mul_u32 s.params.stake_cooldown_epochs s.params.epoch_length

module _ {B : Type 0} ⦃currency : Currency B⦄ where
  abbrev made_room : ℕ → State B → State B
  made_room a s = (prepare_unbonding_ledger_entry a (cooldown s) s.block_number s).1

  -- What a successful withdrawal has tested and done.
  record IsRemoved (a id x : ℕ) (s s' : State B) : Type 0 where
    not_zero : 0 < x
    enough : x ≤ Map.get id s.delegate_accounts.balance_of
    stake_lem : s'.delegate_accounts ≡ decrease_delegate_account_balance id x s.delegate_accounts
    balances_lem : s'.balances ≡ (made_room a s).balances
    ledger :
        s'.unbonding
        ≡ insert_unbonding a x (claim_block (cooldown s) s.block_number) (made_room a s).unbonding

  remove-IsRemoved :
      (a x : ℕ) (s s' : State B)
      → do_remove_delegate_account_balance (Origin.signed a) x s ≡ (ok tt, s')
      → IsRemoved a a x s s'
  unfolding do_remove_delegate_account_balance insert_balance_to_unbonding_ledger
  remove-IsRemoved a x s s' h = ground (arith, prepare-frame a (cooldown s) s.block_number s)

module _ {B : Type 0} ⦃currency : Currency B⦄ (laws : IsCurrency currency) where
  -- What a withdrawal leaves: the amount is out of the stake, the stake and the liquid money
  -- together are conserved, and total and ledger stay right.
  removed_settles :
      (a id x : ℕ) (s s' : State B)
      → IsSummed s.delegate_accounts
      → IsBalanced s.unbonding
      → All (IsPayable currency) (unbondings_of a s.unbonding)
      → s.unbonding.total_unbonding_balance + x ≤ u128_max
      → IsRemoved a id x s s'
      → (Map.get id s'.delegate_accounts.balance_of + x ≡ Map.get id s.delegate_accounts.balance_of)
        × (liquid s' + s'.delegate_accounts.total_of ≡ liquid s + s.delegate_accounts.total_of)
        × IsSummed s'.delegate_accounts
        × IsBalanced s'.unbonding
  removed_settles a id x s s' summed balanced payable fits r =
      let (ledger, moved) =
        insert-after-prepare laws a s balanced payable x (cooldown s) s.block_number fits in
      rw (r.stake_lem, r.ledger, r.balances_lem)
        (
          omega (arith, get-decrease id x s.delegate_accounts, r.enough),
          omega (
            arith,
            total-decrease id x s.delegate_accounts,
            moved,
            r.enough,
            le-total id x s.delegate_accounts summed,
          ),
          decrease-IsSummed id x s.delegate_accounts summed r.enough,
          ledger,
        )

  -- From a right total, a balanced ledger, and entries of the caller that can be paid: a successful
  -- withdrawal takes exactly the amount from the caller's delegate balance, conserves issuance,
  -- ledger and delegate balances together, and keeps total and ledger right.
  pub do_remove_delegate_account_balance_lem :
      (a x : ℕ) (s s' : State B)
      → IsSummed s.delegate_accounts
      → IsBalanced s.unbonding
      → All (IsPayable currency) (unbondings_of a s.unbonding)
      → s.unbonding.total_unbonding_balance + x ≤ u128_max
      → do_remove_delegate_account_balance (Origin.signed a) x s ≡ (ok tt, s')
      → (Map.get a s'.delegate_accounts.balance_of + x ≡ Map.get a s.delegate_accounts.balance_of)
        × (liquid s' + s'.delegate_accounts.total_of ≡ liquid s + s.delegate_accounts.total_of)
        × IsSummed s'.delegate_accounts
        × IsBalanced s'.unbonding
  do_remove_delegate_account_balance_lem a x s s' summed balanced payable fits h =
      removed_settles a a x s s' summed balanced payable fits (remove-IsRemoved a x s s' h)
