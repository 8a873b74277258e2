-- ===== src/Overwatch/Binding.antt =====
-- Commits bind: what is revealed was committed, and cannot be revealed differently later.
use hypertensor_blockchain.Common.{
  ℕ, ◌≡◌, ◌≤◌, false, ◌&&◌, some, List, [], ◌∷◌, refl, sym, subst, ◌∙◌, arith, ◌==◌, if◌then◌else◌,
  inl, inr, Bool-cases,
}
use hypertensor_blockchain.Math.{percentage_factor}
use hypertensor_blockchain.State.{Origin, ok}
use hypertensor_blockchain.Epochs.{in_overwatch_commit_period, get_current_overwatch_epoch_as_u32}
use hypertensor_blockchain.Overwatch.{
  Overwatch, OverwatchCommit, OverwatchReveal, insert_triple, get_overwatch_node_associated_hotkey,
  do_commit_overwatch_subnet_weights, reveal_one, reveal_all,
  perform_reveal_overwatch_subnet_weights, do_reveal_overwatch_subnet_weights,
}
use hypertensor_blockchain.Overwatch.Triples.{lookup_triple-insert_triple}
use hypertensor_blockchain.Overwatch.Committed.{
  commit_of, reveal_of, IsKept, do_commit_overwatch_subnet_weights-IsCommitted,
}

module _ (hash_of : ℕ → ℕ → ℕ) where
  -- Every revealed weight is at most 100%, and its hash with some salt was committed by the same
  -- node for the same subnet and epoch.
  abbrev pub IsHonest : Overwatch → Type 0
  IsHonest o =
      (e n s w : ℕ)
      → reveal_of e n s o ≡ some w
      → (w ≤ percentage_factor) × ((salt : ℕ) × (commit_of e n s o ≡ some (hash_of w salt)))

  -- The reveals of a call: they leave the commits, and the reveals of other nodes and epochs.
  pub record IsRevealed (node epoch : ℕ) (reveals : List OverwatchReveal) (o o' : Overwatch)
      : Type 0 where
    pub honest : IsHonest o → IsHonest o'
    pub commits : o'.overwatch_commits ≡ o.overwatch_commits
    pub others :
        (e n s : ℕ) → (e == epoch && n == node) ≡ false → reveal_of e n s o' ≡ reveal_of e n s o

  module _ (node epoch : ℕ) where
    abbrev after_one : OverwatchReveal → Overwatch → Overwatch
    after_one r o = record o {
      overwatch_reveals = insert_triple epoch r.subnet_id node r.weight o.overwatch_reveals;
    }

    at_one :
        (r : OverwatchReveal) (o : Overwatch) (e n s : ℕ)
        → reveal_of e n s (after_one r o) ≡ (
            if e == epoch && (s == r.subnet_id && n == node)
            then some r.weight
            else reveal_of e n s o)
    at_one r o e n s =
        lookup_triple-insert_triple epoch r.subnet_id node r.weight o.overwatch_reveals e s n

    reveal_all-cons :
        (r : OverwatchReveal) (rs : List OverwatchReveal) (o o' : Overwatch)
        → reveal_all hash_of node epoch (r ∷ rs) o ≡ (ok tt, o')
        → (r.weight ≤ percentage_factor)
          × (commit_of epoch node r.subnet_id o ≡ some (hash_of r.weight r.salt))
          × (reveal_all hash_of node epoch rs (after_one r o) ≡ (ok tt, o'))
    unfolding reveal_one reveal_all
    reveal_all-cons r rs o o' h = (ground arith, ground arith, ground arith)

    after_one-IsHonest :
        (r : OverwatchReveal) (o : Overwatch)
        → r.weight ≤ percentage_factor
        → commit_of epoch node r.subnet_id o ≡ some (hash_of r.weight r.salt)
        → IsHonest o
        → IsHonest (after_one r o)
    after_one-IsHonest r o small at h e n s w found =
        elim (Bool-cases (e == epoch && (s == r.subnet_id && n == node))) [
          | inl same ↦
              (ground (arith, at_one r o e n s), (r.salt, ground (arith, at_one r o e n s)))
          | inr away ↦ h e n s w (ground (arith, at_one r o e n s))
        ]

    reveal_all-IsRevealed :
        (rs : List OverwatchReveal) (o o' : Overwatch)
        → reveal_all hash_of node epoch rs o ≡ (ok tt, o')
        → IsRevealed node epoch rs o o'
    unfolding reveal_all
    reveal_all-IsRevealed [] o o' h =
        let same : o' ≡ o = ground arith in
        subst (IsRevealed node epoch [] o) (sym same)
          (record { honest = λ g. g; commits = refl; others = λ e n s away. refl })
    reveal_all-IsRevealed (r ∷ rs) o o' h =
        let (small, at, later) = reveal_all-cons r rs o o' h in
        let rest = reveal_all-IsRevealed rs (after_one r o) o' later in
        record {
          honest = λ g. rest.honest (after_one-IsHonest r o small at g);
          commits = rest.commits;
          others = λ e n s away. rest.others e n s away ∙ ground (arith, at_one r o e n s);
        }

  -- A successful call of `reveal_overwatch_subnet_weights` comes from the hotkey of the overwatch
  -- node, in the reveal period; it changes no commit, and reveals only weights of this node in this
  -- overwatch epoch; if all reveals before were honest, all reveals after it are: each is at most
  -- 100%, and was committed to by its hash.
  pub do_reveal_overwatch_subnet_weights_lem :
      (hotkey node : ℕ) (rs : List OverwatchReveal) (o o' : Overwatch)
      → do_reveal_overwatch_subnet_weights hash_of (Origin.signed hotkey) node rs o ≡ (ok tt, o')
      → (get_overwatch_node_associated_hotkey node o ≡ ok hotkey)
        × (in_overwatch_commit_period o.clock ≡ false)
        × IsRevealed node (get_current_overwatch_epoch_as_u32 o.clock) rs o o'
  unfolding do_reveal_overwatch_subnet_weights perform_reveal_overwatch_subnet_weights
  do_reveal_overwatch_subnet_weights_lem hotkey node rs o o' h = (
    ground arith,
    ground arith,
    reveal_all-IsRevealed node (get_current_overwatch_epoch_as_u32 o.clock) rs o o' (ground arith),
  )

  -- The calls in any order, and everything else that leaves commits and reveals alone.
  pub data Step : Overwatch → Overwatch → Type 0 where
    commit :
        (hotkey node : ℕ) (xs : List OverwatchCommit) {o o' : Overwatch}
        → do_commit_overwatch_subnet_weights (Origin.signed hotkey) node xs o ≡ (ok tt, o')
        → Step o o'
    reveal :
        (hotkey node : ℕ) (rs : List OverwatchReveal) {o o' : Overwatch}
        → do_reveal_overwatch_subnet_weights hash_of (Origin.signed hotkey) node rs o ≡ (ok tt, o')
        → Step o o'
    other :
        {o o' : Overwatch}
        → o'.overwatch_commits ≡ o.overwatch_commits
        → o'.overwatch_reveals ≡ o.overwatch_reveals
        → Step o o'

  pub data Reach (o : Overwatch) : Overwatch → Type 0 where
    here : Reach o o
    more : {o' o'' : Overwatch} → Reach o o' → Step o' o'' → Reach o o''

  IsHonest-resp :
      (o o' : Overwatch)
      → IsKept o o'
      → o'.overwatch_reveals ≡ o.overwatch_reveals
      → IsHonest o
      → IsHonest o'
  IsHonest-resp o o' kept same h e n s w found =
      let (small, (salt, at)) = h e n s w (ground arith) in
      (small, (salt, kept e n s (hash_of w salt) at))

  Step-keeps : {o o' : Overwatch} → Step o o' → IsKept o o' × (IsHonest o → IsHonest o')
  Step-keeps {o} {o'} (commit hotkey node xs h) =
      let done = (do_commit_overwatch_subnet_weights-IsCommitted hotkey node xs o o' h).1 in
      (done.kept, IsHonest-resp o o' done.kept done.reveals)
  Step-keeps {o} {o'} (reveal hotkey node rs h) =
      let done = (do_reveal_overwatch_subnet_weights_lem hotkey node rs o o' h).2 in
      (λ e n s g at. ground (arith, done.commits), done.honest)
  Step-keeps {o} {o'} (other c r) =
      let kept : IsKept o o' = λ e n s g at. ground arith in (kept, IsHonest-resp o o' kept r)

  Reach-keeps : {o o' : Overwatch} → Reach o o' → IsKept o o' × (IsHonest o → IsHonest o')
  Reach-keeps here = (λ e n s g at. at, λ h. h)
  Reach-keeps (more r step) =
      let (kept, honest) = Reach-keeps r in
      let (kept', honest') = Step-keeps step in
      (λ e n s g at. kept' e n s g (kept e n s g at), λ h. honest' (honest h))

  -- Where two weights never have the same hash, and the reveals of a state are honest: after any
  -- sequence of commits, reveals and other steps the reveals are honest, every commit stands
  -- unchanged, and a weight that was revealed for a node, a subnet and an overwatch epoch is the
  -- weight that stands revealed there.
  pub Reach-binds :
      ((w salt w' salt' : ℕ) → hash_of w salt ≡ hash_of w' salt' → w ≡ w')
      → {o o' : Overwatch} → IsHonest o
      → Reach o o'
      → IsHonest o'
        × IsKept o o'
        × ((e n s w w' : ℕ) → reveal_of e n s o ≡ some w → reveal_of e n s o' ≡ some w' → w ≡ w')
  Reach-binds collision_free {o} {o'} honest r =
      let (kept, still) = Reach-keeps r in
      (
        still honest,
        kept,
        λ e n s w w' before after.
            let (_, (salt, at)) = honest e n s w before in
            let (_, (salt', at')) = still honest e n s w' after in
            collision_free w salt w' salt' (ground (arith, kept e n s (hash_of w salt) at)),
      )
