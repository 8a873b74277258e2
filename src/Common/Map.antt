-- ===== src/Common/Map.antt =====
-- The pallet's storage maps: association lists in which a write replaces the entry of its key.
-- Their order is never read. A `ValueQuery` map reads as its default where no entry stands.
use mathlib.Core.Path.{◌≡◌, refl}
use mathlib.Core.Bool.{Bool, true, false}
use mathlib.Core.Option.{Option, none, some}
use mathlib.Core.List.{List, [], ◌∷◌}
use Prim.Native.Nat.{ℕ, ◌+◌, ◌≤◌}
use native.Mathlib.Omega.{arith}
use hypertensor_blockchain.Common.Tests.{◌==◌, if◌then◌else◌}

abbrev pub Map {ℓ} : Type ℓ → Type ℓ
Map V = List (ℕ × V)

module _ {ℓ} {V : Type ℓ} where
  unfoldable pub lookup : ℕ → Map V → Option V
  lookup k [] = none
  lookup k ((j, v) ∷ m) = if k == j then some v else lookup k m

  unfoldable pub insert : ℕ → V → Map V → Map V
  insert k v [] = (k, v) ∷ []
  insert k v (e ∷ m) = if k == e.0 then (k, v) ∷ m else e ∷ insert k v m

  unfoldable pub remove : ℕ → Map V → Map V
  remove k [] = []
  remove k (e ∷ m) = if k == e.0 then remove k m else e ∷ remove k m

  -- `Map::contains_key`
  abbrev pub contains_key : ℕ → Map V → Bool
  contains_key k m = elim (lookup k m) [ none ↦ false | some _ ↦ true ]

  abbrev pub or_default : V → Option V → V
  or_default d none = d
  or_default d (some v) = v

  -- A read of a `ValueQuery` map with default `d`.
  abbrev pub get_or : V → ℕ → Map V → V
  get_or d k m = or_default d (lookup k m)

  pub lookup-insert :
      (k j : ℕ) (v : V) (m : Map V)
      → lookup j (insert k v m) ≡ (if j == k then some v else lookup j m)
  unfolding lookup insert
  lookup-insert k j v [] = refl
  lookup-insert k j v (e ∷ m) = ground (arith, lookup-insert k j v m)

  pub lookup-remove :
      (k j : ℕ) (m : Map V) → lookup j (remove k m) ≡ (if j == k then none else lookup j m)
  unfolding lookup remove
  lookup-remove k j [] = ground arith
  lookup-remove k j (e ∷ m) = ground (arith, lookup-remove k j m)

  pub lookup-nil : (k : ℕ) → lookup k [] ≡ none
  unfolding lookup
  lookup-nil k = refl

  -- The sum of a measure over the entries, and what a write does to it.
  unfoldable pub total_by : (V → ℕ) → Map V → ℕ
  total_by f [] = 0
  total_by f (e ∷ m) = f e.1 + total_by f m

  abbrev pub measure : (V → ℕ) → Option V → ℕ
  measure f none = 0
  measure f (some v) = f v

  pub total_by-insert :
      (f : V → ℕ) (k : ℕ) (v : V) (m : Map V)
      → total_by f (insert k v m) + measure f (lookup k m) ≡ total_by f m + f v
  unfolding total_by insert lookup
  total_by-insert f k v [] = omega arith
  total_by-insert f k v (e ∷ m) = ground (arith, total_by-insert f k v m)

  -- One entry is no more than the sum.
  pub measure-le-total_by : (f : V → ℕ) (k : ℕ) (m : Map V) → measure f (lookup k m) ≤ total_by f m
  unfolding total_by lookup
  measure-le-total_by f k [] = omega arith
  measure-le-total_by f k (e ∷ m) = ground (arith, measure-le-total_by f k m)

-- Maps to numbers, whose default is 0.
abbrev pub get : ℕ → Map ℕ → ℕ
get k m = get_or 0 k m

-- A `StorageDoubleMap` to numbers.
abbrev pub DoubleMap : Type 0
DoubleMap = Map (Map ℕ)

unfoldable pub get_double : ℕ → ℕ → DoubleMap → ℕ
get_double a k m = get k (get_or [] a m)

unfoldable pub insert_double : ℕ → ℕ → ℕ → DoubleMap → DoubleMap
insert_double a k v m = insert a (insert k v (get_or [] a m)) m

-- The sum over all first keys at one second key.
unfoldable pub column_sum : ℕ → DoubleMap → ℕ
column_sum k m = total_by (get k) m

unfoldable pub grand_sum : DoubleMap → ℕ
grand_sum m = total_by (total_by (λ n. n)) m

pub get_double-insert_double :
    (a k b j v : ℕ) (m : DoubleMap)
    → get_double b j (insert_double a k v m)
      ≡ (if b == a then (if j == k then v else get_double b j m) else get_double b j m)
unfolding get_double insert_double
get_double-insert_double a k b j v m =
    ground
      (arith, lookup-insert a b (insert k v (get_or [] a m)) m, lookup-insert k j v (get_or [] a m))

get-nil : (k : ℕ) → get k [] ≡ 0
unfolding lookup
get-nil k = refl

pub column_sum-insert_double :
    (j a k v : ℕ) (m : DoubleMap)
    → column_sum j (insert_double a k v m) + (if j == k then get_double a k m else 0)
      ≡ column_sum j m + (if j == k then v else 0)
unfolding column_sum insert_double get_double
column_sum-insert_double j a k v m =
    let inner = get_or [] a m in
    ground
      (arith, get-nil j, total_by-insert (get j) a (insert k v inner) m, lookup-insert k j v inner)

total_nil : total_by (λ (n : ℕ). n) [] ≡ 0
unfolding total_by
total_nil = refl

pub grand_sum-insert_double :
    (a k v : ℕ) (m : DoubleMap)
    → grand_sum (insert_double a k v m) + get_double a k m ≡ grand_sum m + v
unfolding grand_sum insert_double get_double
grand_sum-insert_double a k v m =
    let inner = get_or [] a m in
    ground (
      arith,
      total_nil,
      total_by-insert (total_by (λ n. n)) a (insert k v inner) m,
      total_by-insert (λ n. n) k v inner,
    )

pub get_double-le-column_sum : (a k : ℕ) (m : DoubleMap) → get_double a k m ≤ column_sum k m
unfolding column_sum get_double
get_double-le-column_sum a k m = ground (arith, get-nil k, measure-le-total_by (get k) a m)

total_by-le {ℓ} :
    {V : Type ℓ} (f g : V → ℕ) (m : Map V) → ((v : V) → f v ≤ g v) → total_by f m ≤ total_by g m
unfolding total_by
total_by-le f g [] h = omega arith
total_by-le f g (e ∷ m) h = omega (arith, h e.1, total_by-le f g m h)

pub column_sum-le-grand_sum : (k : ℕ) (m : DoubleMap) → column_sum k m ≤ grand_sum m
unfolding column_sum grand_sum
column_sum-le-grand_sum k m =
    total_by-le (get k) (total_by (λ n. n)) m
      λ inner. ground (arith, measure-le-total_by (λ (n : ℕ). n) k inner)
