-- ===== src/Overwatch/Committed.antt =====
-- What commits and reveals test and store.
use hypertensor_blockchain.Common.{
  ℕ, ◌≡◌, true, false, ◌&&◌, Option, none, some, List, [], ◌∷◌, refl, sym, subst, ◌∙◌, arith, ◌==◌,
  if◌then◌else◌, inl, inr, Option-cases,
}
use hypertensor_blockchain.Common.Lists.{All, All-map}
use hypertensor_blockchain.Common.Map
use hypertensor_blockchain.Common.Map.{Map}
use hypertensor_blockchain.State.{Origin, Error, ok, err}
use hypertensor_blockchain.Epochs.{in_overwatch_commit_period, get_current_overwatch_epoch_as_u32}
use hypertensor_blockchain.Overwatch.{
  Overwatch, OverwatchCommit, lookup_triple, insert_triple, get_overwatch_node_associated_hotkey,
  do_commit_subnet_weight, commit_all, dedup_by_subnet, retain_existing,
  perform_commit_overwatch_subnet_weights, do_commit_overwatch_subnet_weights,
}
use hypertensor_blockchain.Overwatch.Named.{
  first_commit, new_commit, or_else, first_commit-dedup_by_subnet, first_commit-retain_existing,
}
use hypertensor_blockchain.Overwatch.Triples.{lookup_triple-insert_triple}

abbrev pub commit_of : ℕ → ℕ → ℕ → Overwatch → Option ℕ
commit_of epoch node subnet o = lookup_triple epoch node subnet o.overwatch_commits

abbrev pub reveal_of : ℕ → ℕ → ℕ → Overwatch → Option ℕ
reveal_of epoch node subnet o = lookup_triple epoch subnet node o.overwatch_reveals

-- Every commit of `o` stands unchanged in `o'`.
abbrev pub IsKept : Overwatch → Overwatch → Type 0
IsKept o o' = (e n s h : ℕ) → commit_of e n s o ≡ some h → commit_of e n s o' ≡ some h

-- `o'` is `o` with the commits of one node in one epoch, each for a subnet that had none.
pub record IsCommitted (node epoch : ℕ) (commits : List OverwatchCommit) (o o' : Overwatch)
    : Type 0 where
  pub kept : IsKept o o'
  pub fresh : All (λ x. commit_of epoch node x.subnet_id o ≡ none) commits
  pub stored : All (λ x. commit_of epoch node x.subnet_id o' ≡ some x.weight) commits
  pub others :
      (e n s : ℕ) → (e == epoch && n == node) ≡ false → commit_of e n s o' ≡ commit_of e n s o
  pub reveals : o'.overwatch_reveals ≡ o.overwatch_reveals

module _ (node epoch : ℕ) where
  abbrev after_one : OverwatchCommit → Overwatch → Overwatch
  after_one x o = record o {
    overwatch_commits = insert_triple epoch node x.subnet_id x.weight o.overwatch_commits;
  }

  commit_one_lem :
      (x : OverwatchCommit) (o : Overwatch)
      → do_commit_subnet_weight node x epoch o ≡ elim (commit_of epoch node x.subnet_id o) [
        | none ↦ (ok tt, after_one x o)
        | some h ↦ (err Error.already_committed, o)
      ]
  unfolding do_commit_subnet_weight
  commit_one_lem x o = ground arith

  at_one :
      (x : OverwatchCommit) (o : Overwatch) (e n s : ℕ)
      → commit_of e n s (after_one x o) ≡ (
          if e == epoch && (n == node && s == x.subnet_id)
          then some x.weight
          else commit_of e n s o)
  at_one x o e n s =
      lookup_triple-insert_triple epoch node x.subnet_id x.weight o.overwatch_commits e n s

  commit_all-IsCommitted :
      (xs : List OverwatchCommit) (o o' : Overwatch)
      → commit_all node epoch xs o ≡ (ok tt, o')
      → IsCommitted node epoch xs o o'
  unfolding commit_all
  commit_all-IsCommitted [] o o' h =
      let same : o' ≡ o = ground arith in
      subst (IsCommitted node epoch [] o) (sym same) (record {
        kept = λ e n s g at. at;
        fresh = tt;
        stored = tt;
        others = λ e n s away. refl;
        reveals = refl;
      })
  commit_all-IsCommitted (x ∷ xs) o o' h =
      elim (Option-cases (commit_of epoch node x.subnet_id o)) [
        | inr (g, old) ↦ absurd (ground (arith, commit_one_lem x o))
        | inl none_yet ↦
            let first = at_one x o in
            let rest =
              commit_all-IsCommitted xs (after_one x o) o' (ground (arith, commit_one_lem x o)) in
            record {
              kept = λ e n s g at. rest.kept e n s g (ground (arith, first e n s));
              fresh = (
                none_yet,
                All-map xs (λ y free. ground (arith, first epoch node y.subnet_id)) rest.fresh,
              );
              stored = (
                rest.kept epoch node x.subnet_id x.weight
                    (ground (arith, first epoch node x.subnet_id)),
                rest.stored,
              );
              others = λ e n s away. rest.others e n s away ∙ ground (arith, first e n s);
              reveals = rest.reveals;
            }
      ]

module _ (node epoch : ℕ) where
  commit_all-new :
      (t : ℕ) (xs : List OverwatchCommit) (o o' : Overwatch)
      → commit_all node epoch xs o ≡ (ok tt, o')
      → commit_of epoch node t o' ≡ or_else (first_commit t xs) (commit_of epoch node t o)
  unfolding commit_all first_commit
  commit_all-new t [] o o' h = ground arith
  commit_all-new t (x ∷ xs) o o' h = elim (Option-cases (commit_of epoch node x.subnet_id o)) [
    | inr (g, old) ↦ absurd (ground (arith, commit_one_lem node epoch x o))
    | inl none_yet ↦
        let rest =
          commit_all-IsCommitted node epoch xs (after_one node epoch x o) o'
            (ground (arith, commit_one_lem node epoch x o)) in
        ground (
          arith,
          at_one node epoch x o epoch node t,
          at_one node epoch x o epoch node x.subnet_id,
          rest.kept epoch node x.subnet_id x.weight,
          commit_all-new t xs (after_one node epoch x o) o'
              (ground (arith, commit_one_lem node epoch x o)),
        )
  ]

first_commit-fresh :
    (node epoch t w : ℕ) (xs : List OverwatchCommit) (o : Overwatch)
    → All (λ x. commit_of epoch node x.subnet_id o ≡ none) xs
    → first_commit t xs ≡ some w
    → commit_of epoch node t o ≡ none
unfolding first_commit
first_commit-fresh node epoch t w [] o fresh at = absurd (ground arith)
first_commit-fresh node epoch t w (x ∷ xs) o (free, fresh) at =
    ground (arith, first_commit-fresh node epoch t w xs o fresh)

whitelisted :
    (hotkey node : ℕ) (xs : List OverwatchCommit) (o o' : Overwatch)
    → do_commit_overwatch_subnet_weights (Origin.signed hotkey) node xs o ≡ (ok tt, o')
    → (v : ℕ) × (Map.lookup node o.overwatch_node_validator_id ≡ some v)
      × (Map.lookup v o.overwatch_validator_whitelist ≡ some true)
unfolding do_commit_overwatch_subnet_weights
whitelisted hotkey node xs o o' h =
    elim (Option-cases (Map.lookup node o.overwatch_node_validator_id)) [
      | inl unknown ↦ absurd (ground arith)
      | inr (v, found) ↦ (v, found, ground arith)
    ]

-- The commits that a successful call stores, as the loop makes them.
pub do_commit_overwatch_subnet_weights-IsCommitted :
    (hotkey node : ℕ) (xs : List OverwatchCommit) (o o' : Overwatch)
    → do_commit_overwatch_subnet_weights (Origin.signed hotkey) node xs o ≡ (ok tt, o')
    → let commits = retain_existing o.subnets_data (dedup_by_subnet xs) in
      let epoch = get_current_overwatch_epoch_as_u32 o.clock in
      (commit_all node epoch commits o ≡ (ok tt, o')) × IsCommitted node epoch commits o o'
unfolding do_commit_overwatch_subnet_weights perform_commit_overwatch_subnet_weights
do_commit_overwatch_subnet_weights-IsCommitted hotkey node xs o o' h =
    let made : commit_all node (get_current_overwatch_epoch_as_u32 o.clock)
          (retain_existing o.subnets_data (dedup_by_subnet xs)) o
        ≡ (ok tt, o') =
      ground arith in
    (made, commit_all-IsCommitted node _ _ o o' made)

-- A successful call of `commit_overwatch_subnet_weights` comes from the hotkey of an overwatch node
-- whose validator is whitelisted, in the commit period. For each subnet that exists and that a
-- commit of the call names, the first such commit is stored, and the node had none for it in this
-- overwatch epoch; for every other subnet, node and epoch the commits are what they were, and no
-- reveal changes.
pub do_commit_overwatch_subnet_weights_lem :
    (hotkey node : ℕ) (xs : List OverwatchCommit) (o o' : Overwatch)
    → do_commit_overwatch_subnet_weights (Origin.signed hotkey) node xs o ≡ (ok tt, o')
    → let epoch = get_current_overwatch_epoch_as_u32 o.clock in
      (get_overwatch_node_associated_hotkey node o ≡ ok hotkey)
      × ((v : ℕ) × (Map.lookup node o.overwatch_node_validator_id ≡ some v)
          × (Map.lookup v o.overwatch_validator_whitelist ≡ some true))
      × (in_overwatch_commit_period o.clock ≡ true)
      × ((t : ℕ)
          → (commit_of epoch node t o'
              ≡ or_else (new_commit o.subnets_data t xs) (commit_of epoch node t o))
            × ((w : ℕ) → new_commit o.subnets_data t xs ≡ some w → commit_of epoch node t o ≡ none))
      × ((e n t : ℕ) → (e == epoch && n == node) ≡ false → commit_of e n t o' ≡ commit_of e n t o)
      × (o'.overwatch_reveals ≡ o.overwatch_reveals)
unfolding do_commit_overwatch_subnet_weights perform_commit_overwatch_subnet_weights
do_commit_overwatch_subnet_weights_lem hotkey node xs o o' h =
    let epoch = get_current_overwatch_epoch_as_u32 o.clock in
    let commits = retain_existing o.subnets_data (dedup_by_subnet xs) in
    let (made, committed) = do_commit_overwatch_subnet_weights-IsCommitted hotkey node xs o o' h in
    (
      ground arith,
      whitelisted hotkey node xs o o' h,
      ground arith,
      λ t.
          let named : first_commit t commits ≡ new_commit o.subnets_data t xs = ground (
            arith,
            first_commit-retain_existing t o.subnets_data (dedup_by_subnet xs),
            first_commit-dedup_by_subnet t xs,
          ) in
          (
            ground (arith, named, commit_all-new node epoch t commits o o' made),
            λ w new.
                first_commit-fresh node epoch t w commits o committed.fresh (ground (arith, named)),
          ),
      committed.others,
      committed.reveals,
    )
