-- ===== src/Unbonding/Balance.antt =====
-- `TotalUnbondingBalance` is the sum of every entry of every account's ledger, and each ledger
-- ascends: the invariant, kept by every operation on the ledger.
use hypertensor_blockchain.Common.{
  ℕ, [], ◌∷◌, ◌+◌, ◌≤◌, min, ◌≡◌, refl, inl, inr, Option-cases, arith, u128_max, ◌==◌,
  if◌then◌else◌, if_intro, subst, sym,
}
use hypertensor_blockchain.Common.Lists.{All}
use hypertensor_blockchain.Common.Map
use hypertensor_blockchain.Common.BTreeMap
use hypertensor_blockchain.Common.BTreeMap.{BTreeMap, IsAbove, IsSorted, values_sum}
use hypertensor_blockchain.State.{State, Currency, IsCurrency, Unbonding}
use hypertensor_blockchain.Unbonding.{
  unbondings_of, accrue_entry, insert_unbonding, do_claim_unbondings,
}
use hypertensor_blockchain.Unbonding.Claims.{
  pending, IsPayable, do_claim_unbondings_lem, do_claim_unbondings-sum, tail-IsSorted,
}

abbrev pub ledger_sum : Unbonding → ℕ
ledger_sum u = Map.total_by values_sum u.stake_unbonding_ledger

pub record IsBalanced (u : Unbonding) : Type 0 where
  pub total_lem : u.total_unbonding_balance ≡ ledger_sum u
  pub sorted : (a : ℕ) → IsSorted (unbondings_of a u)

values_sum-nil : values_sum [] ≡ 0
unfolding values_sum
values_sum-nil = refl

pub account_sum-le : (a : ℕ) (u : Unbonding) → values_sum (unbondings_of a u) ≤ ledger_sum u
account_sum-le a u =
    ground (arith, Map.measure-le-total_by values_sum a u.stake_unbonding_ledger, values_sum-nil)

-- An entry of the ledger grows by the amount, unless a u128 is exceeded.
values_sum-accrue_entry :
    (k amount : ℕ) (m : BTreeMap)
    → values_sum m + amount ≤ u128_max
    → values_sum (accrue_entry k amount m) ≡ values_sum m + amount
unfolding accrue_entry
values_sum-accrue_entry k amount m fits = elim (Option-cases (BTreeMap.lookup k m)) [
  | inl fresh ↦ ground (arith, BTreeMap.values_sum-insert k amount m)
  | inr (v, old) ↦ ground (
    arith,
    BTreeMap.values_sum-insert k (min (v + amount) u128_max) m,
    BTreeMap.value-le-values_sum k m,
  )
]

accrue_entry-IsSorted :
    (k amount : ℕ) (m : BTreeMap) → IsSorted m → IsSorted (accrue_entry k amount m)
unfolding accrue_entry
accrue_entry-IsSorted k amount m h = elim (Option-cases (BTreeMap.lookup k m)) [
  | inl fresh ↦ rw (fresh, accrue_entry, IsSorted) (BTreeMap.insert-IsSorted k amount m h)
  | inr (v, old) ↦ rw (old, accrue_entry, IsSorted) (BTreeMap.insert-IsSorted k _ m h)
]

insert_unbonding-total :
    (a amount k : ℕ) (u : Unbonding)
    → u.total_unbonding_balance ≡ ledger_sum u
    → ledger_sum u + amount ≤ u128_max
    → (insert_unbonding a amount k u).total_unbonding_balance
      ≡ ledger_sum (insert_unbonding a amount k u)
unfolding insert_unbonding
insert_unbonding-total a amount k u e fits =
    let m = unbondings_of a u in
    ground (
      arith,
      values_sum-nil,
      account_sum-le a u,
      values_sum-accrue_entry k amount m,
      Map.total_by-insert values_sum a (accrue_entry k amount m) u.stake_unbonding_ledger,
    )

pub unbondings_of-insert_unbonding :
    (a b amount k : ℕ) (u : Unbonding)
    → unbondings_of b (insert_unbonding a amount k u)
      ≡ (if b == a then accrue_entry k amount (unbondings_of a u) else unbondings_of b u)
unfolding insert_unbonding
unbondings_of-insert_unbonding a b amount k u = ground (
  arith,
  Map.lookup-insert a b (accrue_entry k amount (unbondings_of a u)) u.stake_unbonding_ledger,
)

-- If the total of the ledger is the sum of all entries and every account's entries ascend, the same
-- holds after an insertion that keeps the total within a u128.
pub insert_unbonding-IsBalanced :
    (a amount k : ℕ) {u : Unbonding}
    → IsBalanced u
    → u.total_unbonding_balance + amount ≤ u128_max
    → IsBalanced (insert_unbonding a amount k u)
insert_unbonding-IsBalanced a amount k {u} h fits = record {
  total_lem = insert_unbonding-total a amount k u h.total_lem (omega (arith, h.total_lem));
  sorted = λ b.
      subst IsSorted (sym (unbondings_of-insert_unbonding a b amount k u))
        (if_intro IsSorted (b == a) (accrue_entry-IsSorted k amount _ (h.sorted a)) (h.sorted b));
}

IsAbove-weaken : (j k : ℕ) (m : BTreeMap) → j ≤ k → IsAbove k m → IsAbove j m
IsAbove-weaken j k [] h a = tt
IsAbove-weaken j k (e ∷ m) h (above, rest) = (omega arith, rest)

pub pending-IsAbove : (block k : ℕ) (m : BTreeMap) → IsAbove k m → IsAbove k (pending block m)
unfolding pending
pending-IsAbove block k [] h = tt
pending-IsAbove block k (e ∷ m) (above, rest) = ground (
  arith,
  pending-IsAbove block e.0 m rest,
  pending-IsAbove block k m (IsAbove-weaken k e.0 m (omega arith) rest),
)

pub pending-IsSorted : (block : ℕ) (m : BTreeMap) → IsSorted m → IsSorted (pending block m)
unfolding pending
pending-IsSorted block [] h = tt
pending-IsSorted block (e ∷ m) h =
    ground
      (arith, pending-IsAbove block e.0 m h, pending-IsSorted block m (tail-IsSorted e.0 e.1 m h))

module _ {B : Type 0} ⦃currency : Currency B⦄ (laws : IsCurrency currency) where
  -- If the total of the ledger is the sum of all entries, every account's entries ascend, and the
  -- entries of the caller can be paid, the same two hold of the ledger after a claim.
  pub do_claim_unbondings-IsBalanced :
      (a : ℕ) (s : State B)
      → IsBalanced s.unbonding
      → All (IsPayable currency) (unbondings_of a s.unbonding)
      → IsBalanced (do_claim_unbondings a s).0.unbonding
  do_claim_unbondings-IsBalanced a s h payable = record {
    total_lem = omega (
      arith,
      h.total_lem,
      (do_claim_unbondings_lem laws a a s (h.sorted a) payable).1,
      do_claim_unbondings-sum laws a s (h.sorted a) payable,
    );
    sorted = λ b.
        subst IsSorted (sym (do_claim_unbondings_lem laws a b s (h.sorted a) payable).0) (
          if_intro IsSorted (b == a) (pending-IsSorted s.block_number _ (h.sorted a)) (h.sorted b));
  }
