-- ===== src/Unbonding/Claims.antt =====
-- What `do_claim_unbondings` pays, and what it leaves in the ledger.
use hypertensor_blockchain.Common.{
  ℕ, ◌+◌, ◌-◌, ◌≤◌, ◌<◌, ◌≡◌, refl, inl, inr, true, [], ◌∷◌, arith, ltb, ◌==◌, if◌then◌else◌,
  Bool-cases, lt→ltb, ge→not_ltb, le→leb,
}
use hypertensor_blockchain.Common.Lists.{length, All}
use hypertensor_blockchain.Common.Map
use hypertensor_blockchain.Common.BTreeMap
use hypertensor_blockchain.Common.BTreeMap.{BTreeMap, IsAbove, IsSorted, values_sum}
use hypertensor_blockchain.State.{State, Currency, IsCurrency, Unbonding}
use hypertensor_blockchain.Unbonding.{
  unbondings_of, Claim, claim_entry, claim_loop, do_claim_unbondings,
}

-- The entries whose claim block lies ahead, and the sum of the others.
unfoldable pub pending : ℕ → BTreeMap → BTreeMap
pending block [] = []
pending block (e ∷ m) = if ltb block e.0 then e ∷ pending block m else pending block m

unfoldable pub matured_sum : ℕ → BTreeMap → ℕ
matured_sum block [] = 0
matured_sum block (e ∷ m) = (if ltb block e.0 then 0 else e.1) + matured_sum block m

pub matured_sum-pending :
    (block : ℕ) (m : BTreeMap) → matured_sum block m + values_sum (pending block m) ≡ values_sum m
unfolding matured_sum pending values_sum
matured_sum-pending block [] = omega arith
matured_sum-pending block (e ∷ m) = ground (arith, matured_sum-pending block m)

pub length-pending-le : (block : ℕ) (m : BTreeMap) → length (pending block m) ≤ length m
unfolding pending
length-pending-le block [] = omega arith
length-pending-le block (e ∷ m) = ground (arith, length-pending-le block m)

pub pending_all :
    (block : ℕ) (m : BTreeMap) → length m ≡ length (pending block m) → pending block m ≡ m
unfolding pending
pending_all block [] h = refl
pending_all block (e ∷ m) h = ground (arith, pending_all block m, length-pending-le block m)

-- Where the first key lies ahead, all do.
pending_above :
    (block k : ℕ) (m : BTreeMap)
    → block < k
    → IsAbove k m
    → (pending block m ≡ m) × (matured_sum block m ≡ 0)
unfolding pending matured_sum
pending_above block k [] h a = (refl, refl)
pending_above block k (e ∷ m) h (above, rest) =
    let ih = pending_above block e.0 m (omega arith) rest in ground (arith, ih, lt→ltb block e.0)

pub tail-IsSorted : (k x : ℕ) (m : BTreeMap) → IsSorted ((k, x) ∷ m) → IsSorted m
tail-IsSorted k x [] h = tt
tail-IsSorted k x (e ∷ m) h = h.1

-- Each entry can be paid: it is a value of the balance type, and no dust.
abbrev pub IsPayable : {B : Type 0} → Currency B → ℕ × ℕ → Type 0
IsPayable currency e = (e.1 ≤ currency.max_balance) × (currency.minimum_balance ≤ e.1)

module _ {B : Type 0} ⦃currency : Currency B⦄ (coldkey block : ℕ) where
  -- Where nothing is due the loop does nothing.
  claim_loop_above :
      (k : ℕ) (m : BTreeMap) (c : Claim B)
      → block < k
      → IsAbove k m
      → claim_loop coldkey block m c ≡ c
  unfolding claim_loop
  claim_loop_above k [] c h a = refl
  claim_loop_above k (e ∷ m) c h (above, rest) =
      rw (lt→ltb block e.0 (omega arith)) (claim_loop_above e.0 m c (omega arith) rest)

  claim_entry_ahead :
      (k x : ℕ) (c : Claim B) → ltb block k ≡ true → claim_entry coldkey block k x c ≡ c
  unfolding claim_entry
  claim_entry_ahead k x c ahead = rw ahead

  -- An entry that is due leaves the copy, and its amount goes from the total to the account.
  claim_entry_due :
      (k x : ℕ) (m : BTreeMap) (c : Claim B)
      → k ≤ block
      → x ≤ currency.max_balance
      → c.unbondings_copy ≡ (k, x) ∷ m
      → let c' = claim_entry coldkey block k x c in
        (c'.unbondings_copy ≡ m)
        × (c'.paid ≡ currency.deposit_creating coldkey x c.paid)
        × (c'.total ≡ c.total - x)
  unfolding claim_entry BTreeMap.remove
  claim_entry_due k x m c due fits e =
      rw (ge→not_ltb block k due, le→leb x currency.max_balance fits, e) (ground arith, refl, refl)

  record IsClaimed (m : BTreeMap) (c c' : Claim B) : Type 0 where
    pub copy : c'.unbondings_copy ≡ pending block m
    pub total : c'.total ≡ c.total - matured_sum block m
    pub free :
        currency.free_balance coldkey c'.paid
        ≡ currency.free_balance coldkey c.paid + matured_sum block m
    pub issued :
        currency.total_issuance c'.paid ≡ currency.total_issuance c.paid + matured_sum block m

  module _ (laws : IsCurrency currency) where
    claim_loop-IsClaimed :
        (m : BTreeMap) (c : Claim B)
        → IsSorted m
        → All (IsPayable currency) m
        → c.unbondings_copy ≡ m
        → IsClaimed m c (claim_loop coldkey block m c)
    unfolding claim_loop pending matured_sum
    claim_loop-IsClaimed [] c sorted payable e = ground arith
    claim_loop-IsClaimed ((k, x) ∷ m) c sorted ((fits, big), payable) e =
        elim (Bool-cases (ltb block k)) [
          | inl ahead ↦ ground (
            arith,
            claim_entry_ahead k x c ahead,
            claim_loop_above k m (claim_entry coldkey block k x c) (ground arith) sorted,
            pending_above block k m (ground arith) sorted,
          )
          | inr due ↦
              let next = claim_entry coldkey block k x c in
              let (copy, paid, total) = claim_entry_due k x m c (ground arith) fits e in
              let ih = claim_loop-IsClaimed m next (tail-IsSorted k x m sorted) payable copy in
              ground (
                arith,
                ih,
                copy,
                paid,
                total,
                laws.deposit-free_balance coldkey x c.paid big,
                laws.deposit-total_issuance coldkey x c.paid big,
              )
        ]

-- The ledger after the loop, written back only if its size changed.
kept_lem :
    (a b : ℕ) (u : Unbonding) (left : BTreeMap)
    → (length (unbondings_of a u) ≡ length left → left ≡ unbondings_of a u)
    → let old = u.stake_unbonding_ledger in
      let kept = if length (unbondings_of a u) == length left then old else Map.insert a left old in
      Map.get_or [] b kept ≡ (if b == a then left else unbondings_of b u)
kept_lem a b u left same = ground (arith, same, Map.lookup-insert a b left u.stake_unbonding_ledger)

kept_sum :
    (a : ℕ) (u : Unbonding) (left : BTreeMap)
    → (length (unbondings_of a u) ≡ length left → left ≡ unbondings_of a u)
    → let old = u.stake_unbonding_ledger in
      let kept = if length (unbondings_of a u) == length left then old else Map.insert a left old in
      Map.total_by values_sum kept + values_sum (unbondings_of a u)
      ≡ Map.total_by values_sum old + values_sum left
unfolding values_sum
kept_sum a u left same =
    ground (arith, same, Map.total_by-insert values_sum a left u.stake_unbonding_ledger)

module _ {B : Type 0} ⦃currency : Currency B⦄ (laws : IsCurrency currency) where
  abbrev claim_start : ℕ → State B → Claim B
  claim_start a s = record {
    unbondings_copy = unbondings_of a s.unbonding;
    paid = s.balances;
    total = s.unbonding.total_unbonding_balance;
    successful_unbondings = 0;
  }

  -- If an account's ledger ascends and each of its amounts can be paid, a claim leaves exactly the
  -- entries whose claim block lies ahead and no other account's ledger changed, and it moves the
  -- sum of the other entries from the total of the ledger to the free balance of the account, by as
  -- much issuance.
  pub do_claim_unbondings_lem :
      (a b : ℕ) (s : State B)
      → IsSorted (unbondings_of a s.unbonding)
      → All (IsPayable currency) (unbondings_of a s.unbonding)
      → let m = unbondings_of a s.unbonding in
        let due = matured_sum s.block_number m in
        let s' = (do_claim_unbondings a s).0 in
        (unbondings_of b s'.unbonding
          ≡ (if b == a then pending s.block_number m else unbondings_of b s.unbonding))
        × (s'.unbonding.total_unbonding_balance ≡ s.unbonding.total_unbonding_balance - due)
        × (currency.free_balance a s'.balances ≡ currency.free_balance a s.balances + due)
        × (currency.total_issuance s'.balances ≡ currency.total_issuance s.balances + due)
  unfolding do_claim_unbondings
  do_claim_unbondings_lem a b s sorted payable =
      let m = unbondings_of a s.unbonding in
      let done =
        claim_loop-IsClaimed a s.block_number laws m (claim_start a s) sorted payable refl in
      (
        rw done.copy
            (kept_lem a b s.unbonding (pending s.block_number m) (pending_all s.block_number m)),
        done.total,
        done.free,
        done.issued,
      )

  -- What the claim takes off the sum of all the ledgers.
  pub do_claim_unbondings-sum :
      (a : ℕ) (s : State B)
      → IsSorted (unbondings_of a s.unbonding)
      → All (IsPayable currency) (unbondings_of a s.unbonding)
      → Map.total_by values_sum (do_claim_unbondings a s).0.unbonding.stake_unbonding_ledger
          + matured_sum s.block_number (unbondings_of a s.unbonding)
        ≡ Map.total_by values_sum s.unbonding.stake_unbonding_ledger
  unfolding do_claim_unbondings
  do_claim_unbondings-sum a s sorted payable =
      let m = unbondings_of a s.unbonding in
      let done =
        claim_loop-IsClaimed a s.block_number laws m (claim_start a s) sorted payable refl in
      let left = pending s.block_number m in
      rw done.copy (
        omega (
          arith,
          kept_sum a s.unbonding left (pending_all s.block_number m),
          matured_sum-pending s.block_number m,
        ))
