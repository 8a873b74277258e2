-- ===== src/Tests/Watch.antt =====
-- A commit at block 1000 and its reveal at block 1600 of the same overwatch epoch.
use hypertensor_blockchain.Common.{
  ℕ, none, ◌==◌, ◌&&◌, ◌≡◌, List, some, [], ◌∷◌, refl, arith, true, false,
}
use hypertensor_blockchain.Common.Map
use hypertensor_blockchain.Math.{percent_mul}
use hypertensor_blockchain.State.{Origin, SubnetState, ok}
use hypertensor_blockchain.Epochs.{in_overwatch_commit_period, get_current_overwatch_epoch_as_u32}
use hypertensor_blockchain.Overwatch.{
  Overwatch, OverwatchCommit, OverwatchReveal, get_overwatch_node_associated_hotkey,
  dedup_by_subnet, drop_repeats, retain_existing, commit_all, do_commit_subnet_weight,
  perform_commit_overwatch_subnet_weights, do_commit_overwatch_subnet_weights, reveal_one,
  reveal_all, perform_reveal_overwatch_subnet_weights, do_reveal_overwatch_subnet_weights,
  lookup_triple, insert_triple,
}
use hypertensor_blockchain.Overwatch.Named.{new_commit, or_else}
use hypertensor_blockchain.Overwatch.Committed.{
  commit_of, IsKept, reveal_of, do_commit_overwatch_subnet_weights_lem,
}
use hypertensor_blockchain.Overwatch.Binding.{
  IsHonest, IsRevealed, here, more, commit, reveal, other, do_reveal_overwatch_subnet_weights_lem,
  Reach-binds,
}
use hypertensor_blockchain.Tests.Network.{clock}

-- A hash that forgets the salt.
abbrev hash : ℕ → ℕ → ℕ
hash w salt = w

abbrev watch : Overwatch
watch = record {
  clock = clock;
  subnets_data =
      (1, record { friendly_id = 1; state = SubnetState.active; start_epoch = 0 })
      ∷ (2, record { friendly_id = 2; state = SubnetState.active; start_epoch = 0 })
      ∷ [];
  validator_id_hotkey = (1, 11) ∷ [];
  overwatch_node_validator_id = (1, 1) ∷ [];
  overwatch_node_id_hotkey = [];
  overwatch_validator_whitelist = (1, true) ∷ [];
  overwatch_commits = [];
  overwatch_reveals = [];
}

abbrev commits : List OverwatchCommit
commits =
    record { subnet_id = 1; weight = 500 }
    ∷ record { subnet_id = 1; weight = 600 }
    ∷ record { subnet_id = 2; weight = 700 }
    ∷ record { subnet_id = 3; weight = 800 }
    ∷ []

abbrev committed : Overwatch
committed = (do_commit_overwatch_subnet_weights (Origin.signed 11) 1 commits watch).1

commit_runs :
    do_commit_overwatch_subnet_weights (Origin.signed 11) 1 commits watch ≡ (ok tt, committed)
unfolding do_commit_overwatch_subnet_weights perform_commit_overwatch_subnet_weights commit_all
    do_commit_subnet_weight dedup_by_subnet drop_repeats retain_existing lookup_triple insert_triple
    get_overwatch_node_associated_hotkey in_overwatch_commit_period
    get_current_overwatch_epoch_as_u32 percent_mul Map.lookup Map.insert
commit_runs = refl

do_commit_overwatch_subnet_weights_example :
    (get_overwatch_node_associated_hotkey 1 watch ≡ ok 11)
    × ((v : ℕ) × (Map.lookup 1 watch.overwatch_node_validator_id ≡ some v)
        × (Map.lookup v watch.overwatch_validator_whitelist ≡ some true))
    × (in_overwatch_commit_period clock ≡ true)
    × ((t : ℕ)
        → (commit_of (get_current_overwatch_epoch_as_u32 clock) 1 t committed
            ≡ or_else
                (new_commit watch.subnets_data t commits)
                (commit_of (get_current_overwatch_epoch_as_u32 clock) 1 t watch))
          × ((w : ℕ)
              → new_commit watch.subnets_data t commits ≡ some w
              → commit_of (get_current_overwatch_epoch_as_u32 clock) 1 t watch ≡ none))
    × ((e n t : ℕ)
        → (e == get_current_overwatch_epoch_as_u32 clock && n == 1) ≡ false
        → commit_of e n t committed ≡ commit_of e n t watch)
    × (committed.overwatch_reveals ≡ watch.overwatch_reveals)
do_commit_overwatch_subnet_weights_example =
    do_commit_overwatch_subnet_weights_lem 11 1 commits watch committed commit_runs

abbrev later : Overwatch
later = record committed { clock = record clock { block_number = 1600 } }

abbrev reveals : List OverwatchReveal
reveals = record { subnet_id = 2; weight = 700; salt = 5 } ∷ []

abbrev revealed : Overwatch
revealed = (do_reveal_overwatch_subnet_weights hash (Origin.signed 11) 1 reveals later).1

reveal_runs :
    do_reveal_overwatch_subnet_weights hash (Origin.signed 11) 1 reveals later ≡ (ok tt, revealed)
unfolding do_commit_overwatch_subnet_weights perform_commit_overwatch_subnet_weights commit_all
    do_commit_subnet_weight dedup_by_subnet drop_repeats retain_existing lookup_triple insert_triple
    do_reveal_overwatch_subnet_weights perform_reveal_overwatch_subnet_weights reveal_all reveal_one
    get_overwatch_node_associated_hotkey in_overwatch_commit_period
    get_current_overwatch_epoch_as_u32 percent_mul Map.lookup Map.insert
reveal_runs = refl

do_reveal_overwatch_subnet_weights_example :
    (get_overwatch_node_associated_hotkey 1 later ≡ ok 11)
    × (in_overwatch_commit_period later.clock ≡ false)
    × IsRevealed hash 1 (get_current_overwatch_epoch_as_u32 later.clock) reveals later revealed
do_reveal_overwatch_subnet_weights_example =
    do_reveal_overwatch_subnet_weights_lem hash 11 1 reveals later revealed reveal_runs

watch-IsHonest : IsHonest hash watch
unfolding lookup_triple Map.lookup
watch-IsHonest e n s w h = absurd (ground arith)

Reach-binds_example :
    IsHonest hash revealed
    × IsKept watch revealed
    × ((e n s w w' : ℕ)
        → reveal_of e n s watch ≡ some w
        → reveal_of e n s revealed ≡ some w'
        → w ≡ w')
Reach-binds_example =
    Reach-binds hash (λ w salt w' salt' e. e) watch-IsHonest
      (more (more (more here (commit 11 1 commits commit_runs)) (other {o' = later} refl refl))
        (reveal 11 1 reveals reveal_runs))
