-- ===== src/Unbonding.antt =====
-- The unbonding ledger (pallets/network/src/stake/staking_utils.rs): what an account takes out of a
-- stake waits here until its claim block, and is then paid to its balance.
use hypertensor_blockchain.Common.{
  ℕ, ◌+◌, ◌*◌, ◌%◌, Bool, ◌||◌, Option, none, some, List, [], ◌∷◌, ltb, leb, ◌==◌, if◌then◌else◌,
  saturating_add, saturating_sub, saturating_add_u32, mul_u32, add_u32, as_u32,
}
use hypertensor_blockchain.Common.Lists.{length}
use hypertensor_blockchain.Common.Map
use hypertensor_blockchain.Common.BTreeMap
use hypertensor_blockchain.Common.BTreeMap.{BTreeMap}
use hypertensor_blockchain.State.{
  State, Unbonding, Currency, Call, Result, ok, err, DispatchResult, Error, max_unlockings_reached,
}
use hypertensor_blockchain.Accounts.{u128_to_balance}
pub mod Claims
pub mod Balance
pub mod Limits
pub mod Owed
pub mod Settle

-- `StakeUnbondingLedger::get(coldkey)`
abbrev pub unbondings_of : ℕ → Unbonding → BTreeMap
unbondings_of coldkey u = Map.get_or [] coldkey u.stake_unbonding_ledger

abbrev pub claim_block : ℕ → ℕ → ℕ
claim_block cooldown_blocks block = saturating_add_u32 block cooldown_blocks

-- `entry(claim_block).and_modify(|v| v.saturating_accrue(amount)).or_insert(amount)`
unfoldable pub accrue_entry : ℕ → ℕ → BTreeMap → BTreeMap
accrue_entry k amount ledger = elim (BTreeMap.lookup k ledger) [
  | none ↦ BTreeMap.insert k amount ledger
  | some v ↦ BTreeMap.insert k (saturating_add v amount) ledger
]

-- `insert_balance_to_unbonding_ledger`, on the ledger alone
unfoldable pub insert_unbonding : ℕ → ℕ → ℕ → Unbonding → Unbonding
insert_unbonding coldkey amount k u = record {
  stake_unbonding_ledger =
      Map.insert coldkey (accrue_entry k amount (unbondings_of coldkey u)) u.stake_unbonding_ledger;
  total_unbonding_balance = saturating_add u.total_unbonding_balance amount;
}

module _ {B : Type 0} where
  unfoldable pub insert_balance_to_unbonding_ledger : ℕ → ℕ → ℕ → ℕ → State B → State B
  insert_balance_to_unbonding_ledger coldkey amount cooldown_blocks block s = record s {
    unbonding = insert_unbonding coldkey amount (claim_block cooldown_blocks block) s.unbonding;
  }

-- What the loop of `do_claim_unbondings` carries: the copy of the account's ledger, the balances,
-- the total and the count of payments.
pub record Claim (B : Type 0) : Type 0 where
  pub unbondings_copy : BTreeMap
  pub paid : B
  pub total : ℕ
  pub successful_unbondings : ℕ

module _ {B : Type 0} ⦃currency : Currency B⦄ where
  -- One round, for the entry at `unbonding_block`.
  unfoldable pub claim_entry : ℕ → ℕ → ℕ → ℕ → Claim B → Claim B
  claim_entry coldkey block unbonding_block amount c =
      if ltb block unbonding_block then c else elim (u128_to_balance currency amount) [
        | none ↦ record c { unbondings_copy = BTreeMap.remove unbonding_block c.unbondings_copy }
        | some b ↦ record {
          unbondings_copy = BTreeMap.remove unbonding_block c.unbondings_copy;
          paid = currency.deposit_creating coldkey b c.paid;
          total = saturating_sub c.total amount;
          successful_unbondings = add_u32 c.successful_unbondings 1;
        }
      ]

  unfoldable pub claim_loop : ℕ → ℕ → BTreeMap → Claim B → Claim B
  unfolding claim_entry
  claim_loop coldkey block [] c = c
  claim_loop coldkey block ((k, amount) ∷ rest) c =
      claim_loop coldkey block rest (claim_entry coldkey block k amount c)

  unfoldable pub claim : ℕ → State B → Claim B
  claim coldkey s =
      let unbondings = unbondings_of coldkey s.unbonding in
      claim_loop coldkey s.block_number unbondings (record {
        unbondings_copy = unbondings;
        paid = s.balances;
        total = s.unbonding.total_unbonding_balance;
        successful_unbondings = 0;
      })

  -- The state after the loop, and the count of payments.
  unfoldable pub do_claim_unbondings : ℕ → State B → State B × ℕ
  unfolding claim
  do_claim_unbondings coldkey s =
      let c = claim coldkey s in
      let old = s.unbonding.stake_unbonding_ledger in
      let kept =
        if length (unbondings_of coldkey s.unbonding) == length c.unbondings_copy
        then old
        else Map.insert coldkey c.unbondings_copy old in
      (
        record s {
          balances = c.paid;
          unbonding = record { stake_unbonding_ledger = kept; total_unbonding_balance = c.total };
        },
        c.successful_unbondings,
      )

  unfoldable pub prepare_unbonding_ledger_entry : ℕ → ℕ → ℕ → Call (State B) (Unit {0})
  prepare_unbonding_ledger_entry coldkey cooldown_blocks block s =
      let k = claim_block cooldown_blocks block in
      let unbondings = unbondings_of coldkey s.unbonding in
      if BTreeMap.contains_key k unbondings
      then (ok tt, s)
      else let s' =
          if leb s.params.max_unbondings (as_u32 (length unbondings))
          then (do_claim_unbondings coldkey s).0
          else s in
        let left = unbondings_of coldkey s'.unbonding in
        if BTreeMap.contains_key k left || ltb (as_u32 (length left)) s'.params.max_unbondings
        then (ok tt, s')
        else (err max_unlockings_reached, s')

  unfoldable pub add_balance_to_unbonding_ledger : ℕ → ℕ → ℕ → ℕ → Call (State B) (Unit {0})
  add_balance_to_unbonding_ledger coldkey amount cooldown_blocks block s =
      let (r, s') = prepare_unbonding_ledger_entry coldkey cooldown_blocks block s in
      elim r [
        | err e ↦ (err e, s')
        | ok _ ↦ (ok tt, insert_balance_to_unbonding_ledger coldkey amount cooldown_blocks block s')
      ]
