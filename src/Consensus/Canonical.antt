-- ===== src/Consensus/Canonical.antt =====
-- What canonical means: of the scores, one entry for each node, the lowest, in ascending order; of
-- the validators, each once, in ascending order.
use hypertensor_blockchain.Common.{
  ℕ, ◌+◌, ◌≤◌, ◌<◌, ◌≡◌, ◌||◌, Option, none, some, List, [], ◌∷◌, ◌++◌, min, refl, arith, ltb, leb,
  ◌==◌, if◌then◌else◌, if_intro, u128_max, inl, inr, Option-cases, Bool-cases,
}
use mathlib.Core.List.{append_assoc, append-nil}
use hypertensor_blockchain.Common.BTreeMap
use hypertensor_blockchain.Common.BTreeMap.{BTreeMap, IsSorted, values_sum}
use hypertensor_blockchain.State.{ok, err, score_overflow}
use hypertensor_blockchain.Nodes.Slots.{contains}
use hypertensor_blockchain.Consensus.{
  SubnetNodeConsensusData, lowest_scores, sum_scores, canonicalize_consensus_data_entries,
  insert_sorted, sort, dedup, canonicalize_consensus_validator_ids,
}

-- The lower of two scores, where both stand.
abbrev pub lower : Option ℕ → Option ℕ → Option ℕ
lower none o = o
lower (some a) none = some a
lower (some a) (some b) = some (min a b)

-- The lowest score that the entries give to a node.
unfoldable pub lowest : ℕ → List SubnetNodeConsensusData → Option ℕ
lowest k [] = none
lowest k (e ∷ es) =
    if k == e.subnet_node_id then lower (some e.score) (lowest k es) else lowest k es

-- The entries of a map, in its order.
unfoldable pub entries_of : BTreeMap → List SubnetNodeConsensusData
entries_of [] = []
entries_of (e ∷ m) = record { subnet_node_id = e.0; score = e.1 } ∷ entries_of m

lookup-insert :
    (k j v : ℕ) (m : BTreeMap)
    → BTreeMap.lookup j (BTreeMap.insert k v m) ≡ (if j == k then some v else BTreeMap.lookup j m)
unfolding BTreeMap.lookup BTreeMap.insert
lookup-insert k j v [] = ground arith
lookup-insert k j v (e ∷ m) = ground (arith, lookup-insert k j v m)

abbrev pub step : SubnetNodeConsensusData → BTreeMap → BTreeMap
step entry m = elim (BTreeMap.lookup entry.subnet_node_id m) [
  | none ↦ BTreeMap.insert entry.subnet_node_id entry.score m
  | some score ↦
      if ltb entry.score score then BTreeMap.insert entry.subnet_node_id entry.score m else m
]

lookup-nil : (k : ℕ) → BTreeMap.lookup k [] ≡ none
unfolding BTreeMap.lookup
lookup-nil k = refl

lookup-step :
    (k : ℕ) (e : SubnetNodeConsensusData) (m : BTreeMap)
    → BTreeMap.lookup k (step e m) ≡ (
        if k == e.subnet_node_id
        then lower (BTreeMap.lookup k m) (some e.score)
        else BTreeMap.lookup k m)
lookup-step k e m = ground (arith, lookup-insert e.subnet_node_id k e.score m)

lookup-lowest_scores :
    (k : ℕ) (es : List SubnetNodeConsensusData) (m : BTreeMap)
    → BTreeMap.lookup k (lowest_scores es m) ≡ lower (BTreeMap.lookup k m) (lowest k es)
unfolding lowest_scores lowest
lookup-lowest_scores k [] m = ground arith
lookup-lowest_scores k (e ∷ es) m =
    ground (arith, lookup-lowest_scores k es (step e m), lookup-step k e m)

step-IsSorted : (e : SubnetNodeConsensusData) (m : BTreeMap) → IsSorted m → IsSorted (step e m)
step-IsSorted e m h =
    let after = BTreeMap.insert-IsSorted e.subnet_node_id e.score m h in
    elim (Option-cases (BTreeMap.lookup e.subnet_node_id m)) [
      | inl fresh ↦ rw (fresh, IsSorted) after
      | inr (score, at) ↦ rw (at, IsSorted) (if_intro IsSorted (ltb e.score score) after h)
    ]

lowest_scores-IsSorted :
    (es : List SubnetNodeConsensusData) (m : BTreeMap) → IsSorted m → IsSorted (lowest_scores es m)
unfolding lowest_scores
lowest_scores-IsSorted [] m h = h
lowest_scores-IsSorted (e ∷ es) m h = lowest_scores-IsSorted es (step e m) (step-IsSorted e m h)

sum_scores_lem :
    (m : BTreeMap) (w : ℕ) (acc : List SubnetNodeConsensusData)
    → w ≤ u128_max
    → sum_scores m w acc ≡ (
        if leb (w + values_sum m) u128_max
        then ok (acc ++ entries_of m, w + values_sum m)
        else err score_overflow)
unfolding sum_scores values_sum entries_of
sum_scores_lem [] w acc h = ground (arith, append-nil acc)
sum_scores_lem (e ∷ m) w acc h =
    let entry : SubnetNodeConsensusData = record { subnet_node_id = e.0; score = e.1 } in
    ground (
      arith,
      sum_scores_lem m (w + e.1) (acc ++ (entry ∷ [])),
      append_assoc acc (entry ∷ []) (entries_of m),
    )

-- The canonical scores hold one entry for each node that is named, in ascending order, with the
-- lowest score given to it; they are returned with their sum exactly if that sum is a u128, and
-- `ScoreOverflow` otherwise.
pub canonicalize_consensus_data_entries_lem :
    (es : List SubnetNodeConsensusData)
    → let m = lowest_scores es [] in
      IsSorted m
      × ((k : ℕ) → BTreeMap.lookup k m ≡ lowest k es)
      × (canonicalize_consensus_data_entries es ≡ (
          if leb (values_sum m) u128_max
          then ok (entries_of m, values_sum m)
          else err score_overflow))
unfolding canonicalize_consensus_data_entries
canonicalize_consensus_data_entries_lem es = (
  lowest_scores-IsSorted es [] tt,
  λ k. ground (arith, lookup-lowest_scores k es [], lookup-nil k),
  ground (arith, sum_scores_lem (lowest_scores es []) 0 []),
)

-- Each is below all that follow it, or no more than them.
abbrev pub IsAscending : List ℕ → Type 0
IsAscending [] = Unit
IsAscending (x ∷ []) = Unit
IsAscending (x ∷ y ∷ ys) = (x < y) × IsAscending (y ∷ ys)

abbrev pub IsNonDescending : List ℕ → Type 0
IsNonDescending [] = Unit
IsNonDescending (x ∷ []) = Unit
IsNonDescending (x ∷ y ∷ ys) = (x ≤ y) × IsNonDescending (y ∷ ys)

insert_sorted-IsNonDescending :
    (x : ℕ) (xs : List ℕ) → IsNonDescending xs → IsNonDescending (insert_sorted x xs)
unfolding insert_sorted
insert_sorted-IsNonDescending x [] h = tt
insert_sorted-IsNonDescending x (y ∷ []) h = ground arith
insert_sorted-IsNonDescending x (y ∷ z ∷ zs) h =
    ground (arith, insert_sorted-IsNonDescending x (z ∷ zs))

sort-IsNonDescending : (xs : List ℕ) → IsNonDescending (sort xs)
unfolding sort
sort-IsNonDescending [] = tt
sort-IsNonDescending (x ∷ xs) = insert_sorted-IsNonDescending x (sort xs) (sort-IsNonDescending xs)

contains-insert_sorted :
    (n x : ℕ) (xs : List ℕ) → contains n (insert_sorted x xs) ≡ (n == x || contains n xs)
unfolding contains insert_sorted
contains-insert_sorted n x [] = ground arith
contains-insert_sorted n x (y ∷ ys) = ground (arith, contains-insert_sorted n x ys)

contains-sort : (n : ℕ) (xs : List ℕ) → contains n (sort xs) ≡ contains n xs
unfolding contains sort
contains-sort n [] = refl
contains-sort n (x ∷ xs) = ground (arith, contains-insert_sorted n x (sort xs), contains-sort n xs)

contains-dedup : (n : ℕ) (xs : List ℕ) → contains n (dedup xs) ≡ contains n xs
unfolding contains dedup
contains-dedup n [] = refl
contains-dedup n (x ∷ []) = refl
contains-dedup n (x ∷ y ∷ ys) = ground (arith, contains-dedup n (y ∷ ys))

-- The first element of what `dedup` leaves is the first element.
dedup-head : (x : ℕ) (xs : List ℕ) → (rest : List ℕ) × (dedup (x ∷ xs) ≡ x ∷ rest)
unfolding dedup
dedup-head x [] = ([], refl)
dedup-head x (y ∷ ys) = elim (Bool-cases (x == y)) [
  | inl same ↦ let (rest, e) = dedup-head y ys in (rest, ground arith)
  | inr other ↦ (dedup (y ∷ ys), ground arith)
]

dedup-IsAscending : (xs : List ℕ) → IsNonDescending xs → IsAscending (dedup xs)
unfolding dedup
dedup-IsAscending [] h = tt
dedup-IsAscending (x ∷ []) h = tt
dedup-IsAscending (x ∷ y ∷ ys) (le, h) =
    let rest = dedup-IsAscending (y ∷ ys) h in
    let (tail, e) = dedup-head y ys in
    elim (Bool-cases (x == y)) [
      | inl same ↦ rw (same, IsAscending) rest
      | inr other ↦ rw (other, IsAscending) (ground arith)
    ]

-- The canonical validators are the given ones, each once, in ascending order.
pub canonicalize_consensus_validator_ids_lem :
    (xs : List ℕ)
    → IsAscending (canonicalize_consensus_validator_ids xs)
      × ((n : ℕ) → contains n (canonicalize_consensus_validator_ids xs) ≡ contains n xs)
unfolding canonicalize_consensus_validator_ids
canonicalize_consensus_validator_ids_lem xs = (
  dedup-IsAscending (sort xs) (sort-IsNonDescending xs),
  λ n. ground (arith, contains-dedup n (sort xs), contains-sort n xs),
)
