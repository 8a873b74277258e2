-- ===== src/Unbonding/Settle.antt =====
-- Money that moves between the ledger and the balances while room is made for an entry
-- (pallets/network/src/stake/staking_utils.rs).
use hypertensor_blockchain.Common.{
  ℕ, ◌+◌, ◌≤◌, ◌≡◌, refl, sym, subst, ◌⊎◌, inl, inr, arith, u128_max,
}
use hypertensor_blockchain.Common.Lists.{All}
use hypertensor_blockchain.State.{State, Currency, IsCurrency}
use hypertensor_blockchain.Unbonding.{
  unbondings_of, claim_block, insert_unbonding, do_claim_unbondings, prepare_unbonding_ledger_entry,
}
use hypertensor_blockchain.Unbonding.Claims.{
  matured_sum, matured_sum-pending, IsPayable, do_claim_unbondings_lem,
}
use hypertensor_blockchain.Unbonding.Balance.{
  IsBalanced, account_sum-le, do_claim_unbondings-IsBalanced, insert_unbonding-IsBalanced,
}

module _ {B : Type 0} ⦃currency : Currency B⦄ where
  -- Only the balances and the ledger change.
  pub prepare-frame :
      (a cooldown block : ℕ) (s : State B)
      → let s' = (prepare_unbonding_ledger_entry a cooldown block s).1 in
        s' ≡ record s { balances = s'.balances; unbonding = s'.unbonding }
  unfolding prepare_unbonding_ledger_entry do_claim_unbondings
  prepare-frame a cooldown block s = ground arith

  prepare-state :
      (a cooldown block : ℕ) (s : State B)
      → let s' = (prepare_unbonding_ledger_entry a cooldown block s).1 in
        (s' ≡ s) ⊎ (s' ≡ (do_claim_unbondings a s).0)
  unfolding prepare_unbonding_ledger_entry
  prepare-state a cooldown block s = ground arith

  -- Issued and unbonding TENSOR together.
  abbrev pub liquid : State B → ℕ
  liquid s = currency.total_issuance s.balances + s.unbonding.total_unbonding_balance

  -- The state of the balances and the ledger before and after money moved between them.
  pub record IsSettled (s s' : State B) : Type 0 where
    pub balanced : IsBalanced s'.unbonding
    pub conserved : liquid s' ≡ liquid s
    pub falls : s'.unbonding.total_unbonding_balance ≤ s.unbonding.total_unbonding_balance

  module _ (laws : IsCurrency currency) (a : ℕ) (s : State B) (h : IsBalanced s.unbonding)
      (payable : All (IsPayable currency) (unbondings_of a s.unbonding)) where
    pub do_claim_unbondings-IsSettled : IsSettled s (do_claim_unbondings a s).0
    do_claim_unbondings-IsSettled =
        let (_, total, _, issued) = do_claim_unbondings_lem laws a a s (h.sorted a) payable in
        let covered : matured_sum s.block_number (unbondings_of a s.unbonding)
            ≤ s.unbonding.total_unbonding_balance =
          omega (
            arith,
            h.total_lem,
            account_sum-le a s.unbonding,
            matured_sum-pending s.block_number (unbondings_of a s.unbonding),
          ) in
        record {
          balanced = do_claim_unbondings-IsBalanced laws a s h payable;
          conserved = omega arith;
          falls = omega arith;
        }

    pub prepare-IsSettled :
        (cooldown block : ℕ) → IsSettled s (prepare_unbonding_ledger_entry a cooldown block s).1
    prepare-IsSettled cooldown block = elim (prepare-state a cooldown block s) [
      | inl same ↦
          subst (IsSettled s) (sym same)
            (record { balanced = h; conserved = refl; falls = omega arith })
      | inr claimed ↦ subst (IsSettled s) (sym claimed) do_claim_unbondings-IsSettled
    ]

    -- An amount that leaves a stake for the ledger stays in the sum of both.
    pub insert-after-prepare :
        (x cooldown block : ℕ)
        → s.unbonding.total_unbonding_balance + x ≤ u128_max
        → let s' = (prepare_unbonding_ledger_entry a cooldown block s).1 in
          let u = insert_unbonding a x (claim_block cooldown block) s'.unbonding in
          IsBalanced u
          × (currency.total_issuance s'.balances + u.total_unbonding_balance ≡ liquid s + x)
    unfolding insert_unbonding
    insert-after-prepare x cooldown block fits =
        let settled = prepare-IsSettled cooldown block in
        (
          insert_unbonding-IsBalanced a x (claim_block cooldown block) settled.balanced
              (omega (arith, settled.falls)),
          omega (arith, settled.falls, settled.conserved),
        )
