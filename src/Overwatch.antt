-- ===== src/Overwatch.antt =====
-- The overwatch nodes' weights of subnets (pallets/network/src/overwatch_nodes/commit_reveal.rs and
-- pallets/network/src/utilities/overwatch_node.rs): hashes of weights are committed in the first
-- part of an overwatch epoch and revealed in the rest. The hash, `T::Hashing::hash_of` of a weight
-- and a salt, is a parameter; hashes and salts are only compared, and stand as numbers.
use hypertensor_blockchain.Common.{
  ℕ, Bool, true, false, not, ◌||◌, Option, none, some, List, [], ◌∷◌, leb, ◌==◌, if◌then◌else◌,
  is_some,
}
use hypertensor_blockchain.Common.Map
use hypertensor_blockchain.Common.Map.{Map}
use hypertensor_blockchain.Math.{percentage_factor}
use hypertensor_blockchain.State.{
  SubnetData, Call, Origin, Result, ok, err, ◌>>=◌, ◌>>◌, pure, gets, modify, ensure, or_error,
  ensure_signed, lookup_double, insert_at, invalid_overwatch_node_id, invalid_validator,
  invalid_validator_id, not_key_owner, coldkey_blacklisted, not_commit_period, not_reveal_period,
  commits_empty, already_committed, invalid_weight, no_commit_found, reveal_mismatch,
}
use hypertensor_blockchain.Epochs.{
  Clock, in_overwatch_commit_period, get_current_overwatch_epoch_as_u32,
}
use hypertensor_blockchain.Consensus.Submissions.{lift}
pub mod Triples
pub mod Committed
pub mod Named
pub mod Binding

pub record OverwatchCommit : Type 0 where
  pub subnet_id : ℕ
  pub weight : ℕ

pub record OverwatchReveal : Type 0 where
  pub subnet_id : ℕ
  pub weight : ℕ
  pub salt : ℕ

-- Maps of three keys.
abbrev pub Triple : Type 0
Triple = Map (Map (Map ℕ))

unfoldable pub lookup_triple : ℕ → ℕ → ℕ → Triple → Option ℕ
lookup_triple a b k m = lookup_double b k (Map.get_or [] a m)

unfoldable pub insert_triple : ℕ → ℕ → ℕ → ℕ → Triple → Triple
insert_triple a b k v m = Map.insert a (insert_at b k v (Map.get_or [] a m)) m

pub record Overwatch : Type 0 where
  pub clock : Clock
  pub subnets_data : Map SubnetData
  pub validator_id_hotkey : Map ℕ
  pub overwatch_node_validator_id : Map ℕ
  pub overwatch_node_id_hotkey : Map ℕ
  pub overwatch_validator_whitelist : Map Bool
  -- epoch, node, subnet, to the hash
  pub overwatch_commits : Triple
  -- epoch, subnet, node, to the weight
  pub overwatch_reveals : Triple

-- The hotkey of an overwatch node: its own, or else that of its validator.
unfoldable pub get_overwatch_node_associated_hotkey : ℕ → Overwatch → Result ℕ
get_overwatch_node_associated_hotkey overwatch_node_id o =
    elim (Map.lookup overwatch_node_id o.overwatch_node_id_hotkey) [
      | some hotkey ↦ ok hotkey
      | none ↦ elim (Map.lookup overwatch_node_id o.overwatch_node_validator_id) [
        | none ↦ err invalid_overwatch_node_id
        | some validator_id ↦ elim (Map.lookup validator_id o.validator_id_hotkey) [
          | none ↦ err invalid_validator
          | some hotkey ↦ ok hotkey
        ]
      ]
    ]

-- `dedup_by`, which drops a commit for the subnet of the one before it
unfoldable pub drop_repeats : ℕ → List OverwatchCommit → List OverwatchCommit
drop_repeats k [] = []
drop_repeats k (y ∷ ys) =
    let same = drop_repeats k ys in
    let other = drop_repeats y.subnet_id ys in if y.subnet_id == k then same else y ∷ other

unfoldable pub dedup_by_subnet : List OverwatchCommit → List OverwatchCommit
dedup_by_subnet [] = []
dedup_by_subnet (x ∷ rest) = x ∷ drop_repeats x.subnet_id rest

-- `retain` of the commits whose subnet exists
unfoldable pub retain_existing : Map SubnetData → List OverwatchCommit → List OverwatchCommit
retain_existing subnets [] = []
retain_existing subnets (x ∷ rest) =
    let kept = retain_existing subnets rest in
    if Map.contains_key x.subnet_id subnets then x ∷ kept else kept

abbrev pub is_empty {ℓ} : {A : Type ℓ} → List A → Bool
is_empty [] = true
is_empty (x ∷ xs) = false

unfoldable pub do_commit_subnet_weight : ℕ → OverwatchCommit → ℕ → Call Overwatch (Unit {0})
do_commit_subnet_weight overwatch_node_id commit overwatch_epoch = do
  o ← gets (λ o. o)
  ensure
      (not (
        is_some
          (lookup_triple overwatch_epoch overwatch_node_id commit.subnet_id o.overwatch_commits)))
      already_committed
  modify (λ o'. record o' {
    overwatch_commits =
        insert_triple overwatch_epoch overwatch_node_id commit.subnet_id commit.weight
          o'.overwatch_commits;
  })

-- The loop over the commits.
unfoldable pub commit_all : ℕ → ℕ → List OverwatchCommit → Call Overwatch (Unit {0})
commit_all overwatch_node_id overwatch_epoch [] o = (ok tt, o)
commit_all overwatch_node_id overwatch_epoch (commit ∷ rest) o =
    let (r, o') = do_commit_subnet_weight overwatch_node_id commit overwatch_epoch o in
    elim r [ err e ↦ (err e, o') | ok _ ↦ commit_all overwatch_node_id overwatch_epoch rest o' ]

unfoldable pub perform_commit_overwatch_subnet_weights :
    ℕ → List OverwatchCommit → Call Overwatch (Unit {0})
perform_commit_overwatch_subnet_weights overwatch_node_id commit_weights = do
  o ← gets (λ o. o)
  let commits = retain_existing o.subnets_data (dedup_by_subnet commit_weights)
  ensure (not (is_empty commits)) commits_empty
  commit_all overwatch_node_id (get_current_overwatch_epoch_as_u32 o.clock) commits

-- The tests that both calls make on their caller.
abbrev pub ensure_overwatch_caller : Origin → ℕ → Call Overwatch (Unit {0})
ensure_overwatch_caller origin overwatch_node_id = do
  hotkey ← ensure_signed origin
  o ← gets (λ o. o)
  overwatch_hotkey ← lift (get_overwatch_node_associated_hotkey overwatch_node_id o)
  ensure (overwatch_hotkey == hotkey) not_key_owner
  validator_id ←
      or_error (Map.lookup overwatch_node_id o.overwatch_node_validator_id) invalid_validator_id
  ensure (Map.get_or false validator_id o.overwatch_validator_whitelist) coldkey_blacklisted

unfoldable pub do_commit_overwatch_subnet_weights :
    Origin → ℕ → List OverwatchCommit → Call Overwatch (Unit {0})
do_commit_overwatch_subnet_weights origin overwatch_node_id commit_weights = do
  ensure_overwatch_caller origin overwatch_node_id
  o ← gets (λ o. o)
  ensure (in_overwatch_commit_period o.clock) not_commit_period
  perform_commit_overwatch_subnet_weights overwatch_node_id commit_weights

module _ (hash_of : ℕ → ℕ → ℕ) where
  -- One round of the loop over the reveals.
  unfoldable pub reveal_one : ℕ → ℕ → OverwatchReveal → Call Overwatch (Unit {0})
  reveal_one overwatch_node_id overwatch_epoch reveal = do
    o ← gets (λ o. o)
    ensure (leb reveal.weight percentage_factor) invalid_weight
    commit_hash ←
        or_error
          (lookup_triple overwatch_epoch overwatch_node_id reveal.subnet_id o.overwatch_commits)
          no_commit_found
    ensure (hash_of reveal.weight reveal.salt == commit_hash) reveal_mismatch
    modify (λ o'. record o' {
      overwatch_reveals =
          insert_triple overwatch_epoch reveal.subnet_id overwatch_node_id reveal.weight
            o'.overwatch_reveals;
    })

  unfoldable pub reveal_all : ℕ → ℕ → List OverwatchReveal → Call Overwatch (Unit {0})
  reveal_all overwatch_node_id overwatch_epoch [] o = (ok tt, o)
  reveal_all overwatch_node_id overwatch_epoch (reveal ∷ rest) o =
      let (r, o') = reveal_one overwatch_node_id overwatch_epoch reveal o in
      elim r [ err e ↦ (err e, o') | ok _ ↦ reveal_all overwatch_node_id overwatch_epoch rest o' ]

  unfoldable pub perform_reveal_overwatch_subnet_weights :
      ℕ → List OverwatchReveal → Call Overwatch (Unit {0})
  perform_reveal_overwatch_subnet_weights overwatch_node_id reveals = do
    o ← gets (λ o. o)
    reveal_all overwatch_node_id (get_current_overwatch_epoch_as_u32 o.clock) reveals

  unfoldable pub do_reveal_overwatch_subnet_weights :
      Origin → ℕ → List OverwatchReveal → Call Overwatch (Unit {0})
  do_reveal_overwatch_subnet_weights origin overwatch_node_id reveals = do
    ensure_overwatch_caller origin overwatch_node_id
    o ← gets (λ o. o)
    ensure (not (in_overwatch_commit_period o.clock)) not_reveal_period
    perform_reveal_overwatch_subnet_weights overwatch_node_id reveals
