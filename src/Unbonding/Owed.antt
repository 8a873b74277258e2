-- ===== src/Unbonding/Owed.antt =====
-- What an amount that goes to the unbonding ledger changes in it
-- (pallets/network/src/stake/staking_utils.rs).
use hypertensor_blockchain.Common.{
  ℕ, ◌+◌, ◌≤◌, ◌≡◌, min, inl, inr, Option-cases, false, some, [], ◌∷◌, arith, u128_max, ◌==◌,
}
use hypertensor_blockchain.Common.Lists.{All}
use hypertensor_blockchain.Common.BTreeMap
use hypertensor_blockchain.Common.BTreeMap.{BTreeMap, IsSorted, values_sum, value_or_zero}
use hypertensor_blockchain.State.{State, Currency, IsCurrency, Unbonding}
use hypertensor_blockchain.Unbonding.{
  unbondings_of, claim_block, accrue_entry, insert_unbonding, prepare_unbonding_ledger_entry,
}
use hypertensor_blockchain.Unbonding.Claims.{IsPayable, do_claim_unbondings_lem}
use hypertensor_blockchain.Unbonding.Balance.{
  IsBalanced, account_sum-le, unbondings_of-insert_unbonding,
}
use hypertensor_blockchain.Unbonding.Settle.{prepare-IsSettled}
use hypertensor_blockchain.Unbonding.Limits.{lookup-pending-none}

-- What the ledger owes an account at a block.
abbrev pub owed : ℕ → ℕ → Unbonding → ℕ
owed account block u = value_or_zero (BTreeMap.lookup block (unbondings_of account u))

-- `u'` owes one account `x` more than `u` at one block, and the ledgers of other accounts are the
-- same.
pub record IsOwed (account block x : ℕ) (u u' : Unbonding) : Type 0 where
  pub entry : owed account block u' ≡ owed account block u + x
  pub others : (b : ℕ) → (b == account) ≡ false → unbondings_of b u' ≡ unbondings_of b u

lookup-insert : (k v : ℕ) (m : BTreeMap) → BTreeMap.lookup k (BTreeMap.insert k v m) ≡ some v
unfolding BTreeMap.lookup BTreeMap.insert
lookup-insert k v [] = ground arith
lookup-insert k v (e ∷ m) = ground (arith, lookup-insert k v m)

accrued :
    (k x : ℕ) (m : BTreeMap)
    → values_sum m + x ≤ u128_max
    → value_or_zero (BTreeMap.lookup k (accrue_entry k x m))
      ≡ value_or_zero (BTreeMap.lookup k m) + x
unfolding accrue_entry
accrued k x m fits = elim (Option-cases (BTreeMap.lookup k m)) [
  | inl fresh ↦ ground (arith, lookup-insert k x m)
  | inr (v, old) ↦
      ground (arith, lookup-insert k (min (v + x) u128_max) m, BTreeMap.value-le-values_sum k m)
]

module _ {B : Type 0} ⦃currency : Currency B⦄ (laws : IsCurrency currency) (a : ℕ) (s : State B)
    (h : IsBalanced s.unbonding) (payable : All (IsPayable currency) (unbondings_of a s.unbonding))
    (cooldown block : ℕ) where
  abbrev made : Unbonding
  made = (prepare_unbonding_ledger_entry a cooldown block s).1.unbonding

  -- Making room for an entry pays none at its block, and touches no other account.
  prepare-keeps :
      (owed a (claim_block cooldown block) made ≡ owed a (claim_block cooldown block) s.unbonding)
      × ((b : ℕ) → (b == a) ≡ false → unbondings_of b made ≡ unbondings_of b s.unbonding)
  unfolding prepare_unbonding_ledger_entry
  prepare-keeps =
      let k = claim_block cooldown block in
      let m = unbondings_of a s.unbonding in
      let claimed = λ (b : ℕ). (do_claim_unbondings_lem laws a b s (h.sorted a) payable).0 in
      (
        ground (arith, claimed a, lookup-pending-none s.block_number k m (h.sorted a)),
        λ b other. ground (arith, claimed b),
      )

  pub insert_unbonding-IsOwed :
      (x : ℕ)
      → s.unbonding.total_unbonding_balance + x ≤ u128_max
      → IsOwed a
          (claim_block cooldown block)
          x
          s.unbonding
          (insert_unbonding a x (claim_block cooldown block) made)
  insert_unbonding-IsOwed x fits =
      let k = claim_block cooldown block in
      let settled = prepare-IsSettled laws a s h payable cooldown block in
      let room : values_sum (unbondings_of a made) + x ≤ u128_max =
        omega (arith, account_sum-le a made, settled.balanced.total_lem, settled.falls) in
      record {
        entry = ground (
          arith,
          unbondings_of-insert_unbonding a a x k made,
          accrued k x (unbondings_of a made) room,
          prepare-keeps.0,
        );
        others = λ b other.
            ground (arith, unbondings_of-insert_unbonding a b x k made, prepare-keeps.1 b other);
      }
