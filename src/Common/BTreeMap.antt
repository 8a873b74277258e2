-- ===== src/Common/BTreeMap.antt =====
-- Rust's `BTreeMap` with integer keys: an association list in ascending order of the keys.
use mathlib.Core.Path.{◌≡◌, refl}
use mathlib.Core.Bool.{Bool, true, false}
use mathlib.Core.Option.{Option, none, some}
use mathlib.Core.List.{List, [], ◌∷◌}
use Prim.Native.Nat.{ℕ, ◌+◌, ◌≤◌, ◌<◌}
use native.Mathlib.Omega.{arith}
use hypertensor_blockchain.Common.Tests.{◌==◌, ltb, if◌then◌else◌}
use hypertensor_blockchain.Common.Lists.{length}

abbrev pub BTreeMap : Type 0
BTreeMap = List (ℕ × ℕ)

unfoldable pub lookup : ℕ → BTreeMap → Option ℕ
lookup k [] = none
lookup k ((j, v) ∷ m) = if k == j then some v else if ltb k j then none else lookup k m

abbrev pub contains_key : ℕ → BTreeMap → Bool
contains_key k m = elim (lookup k m) [ none ↦ false | some _ ↦ true ]

abbrev pub value_or_zero : Option ℕ → ℕ
value_or_zero none = 0
value_or_zero (some v) = v

unfoldable pub insert : ℕ → ℕ → BTreeMap → BTreeMap
insert k v [] = (k, v) ∷ []
insert k v (e ∷ m) =
    if k == e.0 then (k, v) ∷ m else if ltb k e.0 then (k, v) ∷ e ∷ m else e ∷ insert k v m

unfoldable pub remove : ℕ → BTreeMap → BTreeMap
remove k [] = []
remove k (e ∷ m) = if k == e.0 then m else e ∷ remove k m

-- Every key is above `k`, and the keys ascend.
abbrev pub IsAbove : ℕ → BTreeMap → Type 0
IsAbove k [] = Unit
IsAbove k (e ∷ m) = (k < e.0) × IsAbove e.0 m

abbrev pub IsSorted : BTreeMap → Type 0
IsSorted [] = Unit
IsSorted (e ∷ m) = IsAbove e.0 m

unfoldable pub values_sum : BTreeMap → ℕ
values_sum [] = 0
values_sum (e ∷ m) = e.1 + values_sum m

pub values_sum-insert :
    (k v : ℕ) (m : BTreeMap)
    → values_sum (insert k v m) + value_or_zero (lookup k m) ≡ values_sum m + v
unfolding values_sum insert lookup
values_sum-insert k v [] = omega arith
values_sum-insert k v (e ∷ m) = ground (arith, values_sum-insert k v m)

pub length-insert :
    (k v : ℕ) (m : BTreeMap)
    → length (insert k v m) ≡ (if contains_key k m then length m else length m + 1)
unfolding insert lookup
length-insert k v [] = omega arith
length-insert k v (e ∷ m) = ground (arith, length-insert k v m)

insert-IsAbove : (lo k v : ℕ) (m : BTreeMap) → lo < k → IsAbove lo m → IsAbove lo (insert k v m)
unfolding insert
insert-IsAbove lo k v [] h s = (h, tt)
insert-IsAbove lo k v (e ∷ m) h s = ground (arith, insert-IsAbove e.0 k v m)

pub insert-IsSorted : (k v : ℕ) (m : BTreeMap) → IsSorted m → IsSorted (insert k v m)
unfolding insert
insert-IsSorted k v [] s = tt
insert-IsSorted k v (e ∷ m) s = ground (arith, insert-IsAbove e.0 k v m)

pub value-le-values_sum : (k : ℕ) (m : BTreeMap) → value_or_zero (lookup k m) ≤ values_sum m
unfolding values_sum lookup
value-le-values_sum k [] = omega arith
value-le-values_sum k (e ∷ m) = ground (arith, value-le-values_sum k m)

-- A key below all keys of the map is not there.
pub lookup-IsAbove : (k lo : ℕ) (m : BTreeMap) → k ≤ lo → IsAbove lo m → lookup k m ≡ none
unfolding lookup
lookup-IsAbove k lo [] h a = refl
lookup-IsAbove k lo (e ∷ m) h (above, rest) = ground arith
