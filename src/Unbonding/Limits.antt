-- ===== src/Unbonding/Limits.antt =====
-- `MaxUnbondings` bounds the ledger of every account, and an unbonding is refused exactly when no
-- claim can make room for it.
use hypertensor_blockchain.Common.{
  ℕ, ◌+◌, ◌≤◌, ◌<◌, ◌≡◌, ◌↔◌, ◌⊎◌, refl, inl, inr, true, none, [], ◌∷◌, arith, u32_max, u128_max,
  min, if◌then◌else◌, Option-cases,
}
use hypertensor_blockchain.Common.Lists.{length, All}
use hypertensor_blockchain.Common.Map
use hypertensor_blockchain.Common.BTreeMap
use hypertensor_blockchain.Common.BTreeMap.{BTreeMap, IsAbove, IsSorted}
use hypertensor_blockchain.State.{
  State, Currency, IsCurrency, Result-cases, ok, err, max_unlockings_reached,
}
use hypertensor_blockchain.Unbonding.{
  unbondings_of, claim_block, accrue_entry, insert_balance_to_unbonding_ledger, Claim, claim_entry,
  claim_loop, claim, do_claim_unbondings, prepare_unbonding_ledger_entry,
  add_balance_to_unbonding_ledger,
}
use hypertensor_blockchain.Unbonding.Claims.{
  pending, length-pending-le, IsPayable, do_claim_unbondings_lem, tail-IsSorted,
}
use hypertensor_blockchain.Unbonding.Balance.{pending-IsAbove, unbondings_of-insert_unbonding}

length-remove-le : (k : ℕ) (m : BTreeMap) → length (BTreeMap.remove k m) ≤ length m
unfolding BTreeMap.remove
length-remove-le k [] = omega arith
length-remove-le k (e ∷ m) = ground (arith, length-remove-le k m)

length-accrue_entry :
    (k amount : ℕ) (m : BTreeMap)
    → length (accrue_entry k amount m)
      ≡ (if BTreeMap.contains_key k m then length m else length m + 1)
unfolding accrue_entry
length-accrue_entry k amount m = elim (Option-cases (BTreeMap.lookup k m)) [
  | inl fresh ↦ ground (arith, BTreeMap.length-insert k amount m)
  | inr (v, old) ↦ ground (arith, BTreeMap.length-insert k (min (v + amount) u128_max) m)
]

module _ {B : Type 0} ⦃currency : Currency B⦄ where
  length-claim_entry-le :
      (a block k x : ℕ) (c : Claim B)
      → length (claim_entry a block k x c).unbondings_copy ≤ length c.unbondings_copy
  unfolding claim_entry
  length-claim_entry-le a block k x c = ground (arith, length-remove-le k c.unbondings_copy)

  length-claim_loop-le :
      (a block : ℕ) (m : BTreeMap) (c : Claim B)
      → length (claim_loop a block m c).unbondings_copy ≤ length c.unbondings_copy
  unfolding claim_loop
  length-claim_loop-le a block [] c = omega arith
  length-claim_loop-le a block ((k, x) ∷ m) c = omega (
    arith,
    length-claim_entry-le a block k x c,
    length-claim_loop-le a block m (claim_entry a block k x c),
  )

  claim-le :
      (a : ℕ) (s : State B)
      → length (claim a s).unbondings_copy ≤ length (unbondings_of a s.unbonding)
  unfolding claim
  claim-le a s = length-claim_loop-le a s.block_number (unbondings_of a s.unbonding) _

  -- A claim lets no ledger grow.
  length-do_claim_unbondings-le :
      (a b : ℕ) (s : State B)
      → length (unbondings_of b (do_claim_unbondings a s).0.unbonding)
        ≤ length (unbondings_of b s.unbonding)
  unfolding do_claim_unbondings
  length-do_claim_unbondings-le a b s = ground (
    arith,
    Map.lookup-insert a b (claim a s).unbondings_copy s.unbonding.stake_unbonding_ledger,
    claim-le a s,
  )

  params-do_claim_unbondings : (a : ℕ) (s : State B) → (do_claim_unbondings a s).0.params ≡ s.params
  unfolding do_claim_unbondings
  params-do_claim_unbondings a s = refl

  length-prepare-le :
      (a b cooldown block : ℕ) (s : State B)
      → length (unbondings_of b (prepare_unbonding_ledger_entry a cooldown block s).1.unbonding)
        ≤ length (unbondings_of b s.unbonding)
  unfolding prepare_unbonding_ledger_entry
  length-prepare-le a b cooldown block s = ground (arith, length-do_claim_unbondings-le a b s)

  -- Preparing an entry leaves room for it, or refuses it.
  prepare-room :
      (a cooldown block : ℕ) (s : State B)
      → s.params.max_unbondings ≤ u32_max
      → length (unbondings_of a s.unbonding) ≤ s.params.max_unbondings
      → (prepare_unbonding_ledger_entry a cooldown block s).0 ≡ ok tt
      → let s' = (prepare_unbonding_ledger_entry a cooldown block s).1 in
        let m = unbondings_of a s'.unbonding in
        (BTreeMap.contains_key (claim_block cooldown block) m ≡ true)
        ⊎ (length m < s.params.max_unbondings)
  unfolding prepare_unbonding_ledger_entry
  prepare-room a cooldown block s small bound done =
      ground (arith, length-do_claim_unbondings-le a a s, params-do_claim_unbondings a s)

  -- If `MaxUnbondings` is a u32 and no account's ledger has more entries than it, none has after
  -- `add_balance_to_unbonding_ledger`, whether that succeeds or not.
  pub add_balance_to_unbonding_ledger-bound :
      (a b amount cooldown block : ℕ) (s : State B)
      → s.params.max_unbondings ≤ u32_max
      → ((c : ℕ) → length (unbondings_of c s.unbonding) ≤ s.params.max_unbondings)
      → length
          (unbondings_of b (add_balance_to_unbonding_ledger a amount cooldown block s).1.unbonding)
        ≤ s.params.max_unbondings
  unfolding add_balance_to_unbonding_ledger insert_balance_to_unbonding_ledger
  add_balance_to_unbonding_ledger-bound a b amount cooldown block s small bound =
      let s' = (prepare_unbonding_ledger_entry a cooldown block s).1 in
      let k = claim_block cooldown block in
      elim (Result-cases (prepare_unbonding_ledger_entry a cooldown block s).0) [
        | inl (_, done) ↦ ground (
          arith,
          prepare-room a cooldown block s small (bound a) done,
          length-prepare-le a b cooldown block s,
          length-prepare-le a a cooldown block s,
          bound b,
          bound a,
          unbondings_of-insert_unbonding a b amount k s'.unbonding,
          length-accrue_entry k amount (unbondings_of a s'.unbonding),
        )
        | inr (e, failed) ↦ ground (arith, bound b, length-prepare-le a b cooldown block s)
      ]

pub lookup-pending-none :
    (block k : ℕ) (m : BTreeMap)
    → IsSorted m
    → BTreeMap.lookup k m ≡ none
    → BTreeMap.lookup k (pending block m) ≡ none
unfolding pending BTreeMap.lookup
lookup-pending-none block k [] sorted absent = refl
lookup-pending-none block k (e ∷ m) sorted absent = ground (
  arith,
  lookup-pending-none block k m (tail-IsSorted e.0 e.1 m sorted),
  BTreeMap.lookup-IsAbove k e.0 (pending block m),
  BTreeMap.lookup-IsAbove k e.0 m,
  pending-IsAbove block e.0 m sorted,
)

module _ {B : Type 0} ⦃currency : Currency B⦄ (laws : IsCurrency currency) where
  -- For a ledger that ascends, can be paid and is within its bound, a u32: preparing an entry is
  -- refused exactly when the claim block has no entry yet and as many entries as the bound allows
  -- are not due.
  pub prepare_unbonding_ledger_entry-err_iff :
      (a cooldown : ℕ) (s : State B)
      → IsSorted (unbondings_of a s.unbonding)
      → All (IsPayable currency) (unbondings_of a s.unbonding)
      → s.params.max_unbondings ≤ u32_max
      → length (unbondings_of a s.unbonding) ≤ s.params.max_unbondings
      → ((prepare_unbonding_ledger_entry a cooldown s.block_number s).0
          ≡ err max_unlockings_reached)
        ↔ ((BTreeMap.lookup (claim_block cooldown s.block_number) (unbondings_of a s.unbonding)
              ≡ none)
            × (s.params.max_unbondings
                ≤ length (pending s.block_number (unbondings_of a s.unbonding))))
  unfolding prepare_unbonding_ledger_entry
  prepare_unbonding_ledger_entry-err_iff a cooldown s sorted payable small bound =
      let m = unbondings_of a s.unbonding in
      let k = claim_block cooldown s.block_number in
      ground (
        arith,
        (do_claim_unbondings_lem laws a a s sorted payable).0,
        params-do_claim_unbondings a s,
        lookup-pending-none s.block_number k m sorted,
        length-pending-le s.block_number m,
      )
