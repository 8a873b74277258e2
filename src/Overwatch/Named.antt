-- ===== src/Overwatch/Named.antt =====
-- The commits that a call names: of several for one subnet the first counts, and a subnet that does
-- not exist has none (pallets/network/src/overwatch_nodes/commit_reveal.rs).
use hypertensor_blockchain.Common.{
  ℕ, ◌≡◌, refl, false, Option, none, some, List, [], ◌∷◌, arith, ◌==◌, if◌then◌else◌,
}
use hypertensor_blockchain.Common.Map
use hypertensor_blockchain.Common.Map.{Map}
use hypertensor_blockchain.State.{SubnetData}
use hypertensor_blockchain.Overwatch.{
  OverwatchCommit, drop_repeats, dedup_by_subnet, retain_existing,
}

-- The weight that the first commit for a subnet carries.
unfoldable pub first_commit : ℕ → List OverwatchCommit → Option ℕ
first_commit subnet [] = none
first_commit subnet (x ∷ xs) =
    if subnet == x.subnet_id then some x.weight else first_commit subnet xs

-- The commits of the subnets that exist, those of a node in an epoch before and after a call.
abbrev pub new_commit : Map SubnetData → ℕ → List OverwatchCommit → Option ℕ
new_commit subnets subnet xs =
    if Map.contains_key subnet subnets then first_commit subnet xs else none

abbrev pub or_else : Option ℕ → Option ℕ → Option ℕ
or_else none o = o
or_else (some v) o = some v

first_commit-drop_repeats :
    (t k : ℕ) (xs : List OverwatchCommit)
    → (t == k) ≡ false
    → first_commit t (drop_repeats k xs) ≡ first_commit t xs
unfolding first_commit drop_repeats
first_commit-drop_repeats t k [] other = refl
first_commit-drop_repeats t k (y ∷ ys) other =
    ground
      (arith, first_commit-drop_repeats t k ys other, first_commit-drop_repeats t y.subnet_id ys)

pub first_commit-dedup_by_subnet :
    (t : ℕ) (xs : List OverwatchCommit) → first_commit t (dedup_by_subnet xs) ≡ first_commit t xs
unfolding first_commit dedup_by_subnet
first_commit-dedup_by_subnet t [] = refl
first_commit-dedup_by_subnet t (x ∷ xs) = ground (arith, first_commit-drop_repeats t x.subnet_id xs)

pub first_commit-retain_existing :
    (t : ℕ) (subnets : Map SubnetData) (xs : List OverwatchCommit)
    → first_commit t (retain_existing subnets xs) ≡ new_commit subnets t xs
unfolding first_commit retain_existing
first_commit-retain_existing t subnets [] = ground arith
first_commit-retain_existing t subnets (x ∷ xs) =
    ground (arith, first_commit-retain_existing t subnets xs)
