-- ===== src/Reputation/Average.antt =====
-- The two updates of a validator's reputation (pallets/network/src/utilities/reputation.rs).
use hypertensor_blockchain.Common.{
  ℕ, ◌+◌, ◌-◌, ◌*◌, ◌≤◌, ◌<◌, ◌≡◌, ◌≢◌, refl, not, none, some, arith, u32_max, ltb, true, false,
  ◌==◌, leb, if◌then◌else◌, if_intro, add_u32, Bool, subst,
}
use hypertensor_blockchain.Common.Map
use hypertensor_blockchain.Common.Map.{Map}
use hypertensor_blockchain.Math.{percentage_factor}
use hypertensor_blockchain.Math.Floats.{Floats}
use hypertensor_blockchain.Nodes.{Reputation}
use hypertensor_blockchain.Nodes.Removal.{reputation_of}
use hypertensor_blockchain.Reputation.{
  next_average, with_attestation, decrease_rep, increase_rep, increase_validator_reputation,
  decrease_validator_reputation,
}
use hypertensor_blockchain.Reputation.Mean.{next_average_lem}

-- `r'` is `r` after one more ratio `a` in an epoch, counted in `more` as an increase and in `less`
-- as a decrease: the mean is that of all ratios, rounded down, and the first epoch of all stays.
pub record IsRecorded (a epoch more less : ℕ) (r r' : Reputation) : Type 0 where
  pub increases : r'.total_increases ≡ r.total_increases + more
  pub decreases : r'.total_decreases ≡ r.total_decreases + less
  pub in_epoch : r'.last_validator_epoch ≡ epoch
  pub since : r'.start_epoch ≡ (if r.start_epoch == 0 then epoch else r.start_epoch)
  pub mean_above :
      r'.average_attestation * (r'.total_increases + r'.total_decreases)
      ≤ r.average_attestation * (r.total_increases + r.total_decreases) + a
  pub mean_below :
      r.average_attestation * (r.total_increases + r.total_decreases) + a
      < (r'.average_attestation + 1) * (r'.total_increases + r'.total_decreases)
  pub nodes : r'.lifetime_node_count ≡ r.lifetime_node_count
  pub active_nodes : r'.total_active_nodes ≡ r.total_active_nodes
  pub overwatch_score : r'.ow_score ≡ r.ow_score

-- Every validator's score and mean are at most 100%.
abbrev pub IsRated : Map Reputation → Type 0
IsRated m =
    (v : ℕ)
    → ((reputation_of v m).score ≤ percentage_factor)
      × ((reputation_of v m).average_attestation ≤ percentage_factor)

module _ {F : Type 0} (floats : Floats F) (v a least f epoch : ℕ) (m : Map Reputation)
    (rated : IsRated m) (ratio : a ≤ percentage_factor) where
  abbrev old : Reputation
  old = reputation_of v m

  increase_rep-le : (p : ℕ) → increase_rep floats p f none ≤ percentage_factor
  unfolding increase_rep
  increase_rep-le p = ground arith

  decrease_rep-le : (p : ℕ) → decrease_rep p f none ≤ percentage_factor
  unfolding decrease_rep
  decrease_rep-le p = ground arith

  decrease_rep-falls : (p : ℕ) → decrease_rep p f none ≤ p
  unfolding decrease_rep
  decrease_rep-falls p = ground arith

  inserted-IsRated :
      (r : Reputation)
      → r.score ≤ percentage_factor
      → r.average_attestation ≤ percentage_factor
      → IsRated (Map.insert v r m)
  inserted-IsRated r score average w = ground (arith, Map.lookup-insert v w r m, rated w)

  other-kept :
      (w : ℕ) (c c' : Bool) (r : Reputation)
      → w ≢ v
      → Map.lookup w (if c then m else if c' then m else Map.insert v r m) ≡ Map.lookup w m
  other-kept w c c' r other = ground (arith, Map.lookup-insert v w r m)

  mean-le :
      (i d : ℕ)
      → 0 < i + d
      → i + d ≤ u32_max
      → next_average old.average_attestation i d a ≤ percentage_factor
  mean-le i d pos fits =
      omega (arith, next_average_lem old.average_attestation i d a (rated v).1 ratio pos fits)

  abbrev up : Map Reputation
  up = increase_validator_reputation floats v a least f epoch m

  abbrev down : Map Reputation
  down = decrease_validator_reputation v a least f epoch m

  module _ (counted : old.total_increases + old.total_decreases < u32_max) where
    both-IsRated : IsRated up × IsRated down
    unfolding increase_validator_reputation decrease_validator_reputation with_attestation
    both-IsRated =
        let i = old.total_increases in
        let d = old.total_decreases in
        (
          if_intro IsRated (not (Map.contains_key v m)) rated (
              if_intro IsRated (ltb a least) rated (
                inserted-IsRated _ (increase_rep-le old.score)
                  (ground (arith, mean-le (add_u32 i 1) d)))),
          if_intro IsRated (not (Map.contains_key v m)) rated (
              if_intro IsRated (leb least a) rated (
                inserted-IsRated _ (decrease_rep-le old.score)
                  (ground (arith, mean-le i (add_u32 d 1))))),
        )

    recorded :
        (more less score : ℕ)
        → more + less ≡ 1
        → let r = record old {
          score = score;
          total_increases = old.total_increases + more;
          total_decreases = old.total_decreases + less;
        } in
          IsRecorded a epoch more less old (with_attestation a epoch r)
    unfolding with_attestation
    recorded more less score one =
        let i = old.total_increases + more in
        let d = old.total_decreases + less in
        let total : old.total_increases + old.total_decreases ≡ i + d - 1 = omega arith in
        let mean =
          next_average_lem old.average_attestation i d a (rated v).1 ratio (omega arith)
            (omega arith) in
        record {
          increases = refl;
          decreases = refl;
          in_epoch = refl;
          since = refl;
          mean_above = rw total mean.0;
          mean_below = rw total mean.1;
          nodes = refl;
          active_nodes = refl;
          overwatch_score = refl;
        }

    -- What an update writes of a registered validator.
    abbrev written : ℕ → ℕ → ℕ → Reputation
    written more less score = with_attestation a epoch (record old {
      score = score;
      total_increases = old.total_increases + more;
      total_decreases = old.total_decreases + less;
    })

    up-eq :
        Map.contains_key v m ≡ true
        → least ≤ a
        → up ≡ Map.insert v (written 1 0 (increase_rep floats old.score f none)) m
    unfolding increase_validator_reputation
    up-eq known reached =
        let sum : add_u32 old.total_increases 1 ≡ old.total_increases + 1 = omega arith in
        let same : old.total_decreases + 0 ≡ old.total_decreases = omega arith in
        rw (known, sum, same) (ground arith)

    down-eq :
        Map.contains_key v m ≡ true
        → a < least
        → down ≡ Map.insert v (written 0 1 (decrease_rep old.score f none)) m
    unfolding decrease_validator_reputation
    down-eq known missed =
        let sum : add_u32 old.total_decreases 1 ≡ old.total_decreases + 1 = omega arith in
        let same : old.total_increases + 0 ≡ old.total_increases = omega arith in
        rw (known, sum, same) (ground arith)

    written_lem :
        (more less score : ℕ) (m' : Map Reputation)
        → more + less ≡ 1
        → m' ≡ Map.insert v (written more less score) m
        → (Map.contains_key v m' ≡ true)
          × IsRecorded a epoch more less old (reputation_of v m')
          × ((reputation_of v m').score ≡ score)
    unfolding with_attestation
    written_lem more less score m' one e =
        let r = written more less score in
        let at : Map.lookup v m' ≡ some r = rw e (ground (arith, Map.lookup-insert v v r m)) in
        let now : r ≡ reputation_of v m' = ground arith in
        (
          ground arith,
          subst (IsRecorded a epoch more less old) now (recorded more less score one),
          ground arith,
        )

  -- Where all scores and means of validators are at most 100%, the ratio too, and the validator has
  -- counted fewer than 2 ^ 32 - 1 ratios: neither update does anything to a validator that is not
  -- registered. On a registered one whose ratio reaches the least one only the increase acts, and
  -- on one whose ratio does not only the decrease: it writes the increased (decreased, no higher)
  -- score, counts one ratio more, takes it into the mean, rounded down, notes the epoch, and leaves
  -- the other fields. Both keep all scores and means at most 100%, and touch no other validator.
  pub validator_reputation_lem :
      old.total_increases + old.total_decreases < u32_max
      → (Map.contains_key v m ≡ false → (up ≡ m) × (down ≡ m))
        × (Map.contains_key v m ≡ true
            → least ≤ a
            → (down ≡ m)
              × (Map.contains_key v up ≡ true)
              × IsRecorded a epoch 1 0 old (reputation_of v up)
              × ((reputation_of v up).score ≡ increase_rep floats old.score f none))
        × (Map.contains_key v m ≡ true
            → a < least
            → (up ≡ m)
              × (Map.contains_key v down ≡ true)
              × IsRecorded a epoch 0 1 old (reputation_of v down)
              × ((reputation_of v down).score ≡ decrease_rep old.score f none)
              × ((reputation_of v down).score ≤ old.score))
        × IsRated up
        × IsRated down
        × ((w : ℕ)
            → w ≢ v
            → (Map.lookup w up ≡ Map.lookup w m) × (Map.lookup w down ≡ Map.lookup w m))
  unfolding increase_validator_reputation decrease_validator_reputation
  validator_reputation_lem counted =
      let both = both-IsRated counted in
      (
        λ unknown. (ground arith, ground arith),
        λ known reached.
            let written_up =
              written_lem counted 1 0 (increase_rep floats old.score f none) up (omega arith)
                (up-eq counted known reached) in
            (ground arith, written_up.0, written_up.1, written_up.2),
        λ known missed.
            let written_down =
              written_lem counted 0 1 (decrease_rep old.score f none) down (omega arith)
                (down-eq counted known missed) in
            (
              ground arith,
              written_down.0,
              written_down.1,
              written_down.2,
              ground (arith, decrease_rep-falls old.score),
            ),
        both.0,
        both.1,
        λ w other. (
          other-kept w (not (Map.contains_key v m)) (ltb a least) _ other,
          other-kept w (not (Map.contains_key v m)) (leb least a) _ other,
        ),
      )
