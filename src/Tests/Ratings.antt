-- ===== src/Tests/Ratings.antt =====
-- Reputations.
use hypertensor_blockchain.Common.{
  ℕ, ◌*◌, ◌^◌, ◌≤◌, ◌<◌, ◌≡◌, ◌≢◌, [], ◌∷◌, none, true, false, arith,
}
use hypertensor_blockchain.Common.Map
use hypertensor_blockchain.Common.Map.{Map}
use hypertensor_blockchain.Math.{percentage_factor}
use hypertensor_blockchain.Nodes.{Reputation}
use hypertensor_blockchain.Nodes.Removal.{default_coldkey_reputation, reputation_of}
use hypertensor_blockchain.Reputation.{
  decrease_rep, increase_rep, increase_validator_reputation, decrease_validator_reputation,
}
use hypertensor_blockchain.Reputation.Decrease.{decrease_rep_lem}
use hypertensor_blockchain.Reputation.Average.{IsRated, IsRecorded, validator_reputation_lem}
use hypertensor_blockchain.Tests.Network.{fixed}

decrease_rep_example :
    (decrease_rep 1000 (10 ^ 17) none ≤ 1000)
    × (decrease_rep 1000 (10 ^ 17) none ≤ decrease_rep 2000 (10 ^ 17) none)
    × (decrease_rep 1000 (5 * 10 ^ 17) none ≤ decrease_rep 1000 (10 ^ 17) none)
    × (decrease_rep 1000 percentage_factor none ≡ 0)
decrease_rep_example =
    decrease_rep_lem 1000 2000 (10 ^ 17) (5 * 10 ^ 17) none (omega arith) (omega arith)
      (omega arith) (omega arith) (omega arith)

abbrev ratings : Map Reputation
ratings =
    (1, record default_coldkey_reputation { total_increases = 3; average_attestation = 10 ^ 17 })
    ∷ []

ratings-IsRated : IsRated ratings
unfolding Map.lookup
ratings-IsRated v = ground arith

validator_reputation_example :
    let up = increase_validator_reputation fixed 1 (10 ^ 18) (6 * 10 ^ 17) (10 ^ 17) 5 ratings in
    let down = decrease_validator_reputation 1 (10 ^ 18) (6 * 10 ^ 17) (10 ^ 17) 5 ratings in
    (Map.contains_key 1 ratings ≡ false → (up ≡ ratings) × (down ≡ ratings))
    × (Map.contains_key 1 ratings ≡ true
        → 6 * 10 ^ 17 ≤ 10 ^ 18
        → (down ≡ ratings)
          × (Map.contains_key 1 up ≡ true)
          × IsRecorded (10 ^ 18) 5 1 0 (reputation_of 1 ratings) (reputation_of 1 up)
          × ((reputation_of 1 up).score
              ≡ increase_rep fixed (reputation_of 1 ratings).score (10 ^ 17) none))
    × (Map.contains_key 1 ratings ≡ true
        → 10 ^ 18 < 6 * 10 ^ 17
        → (up ≡ ratings)
          × (Map.contains_key 1 down ≡ true)
          × IsRecorded (10 ^ 18) 5 0 1 (reputation_of 1 ratings) (reputation_of 1 down)
          × ((reputation_of 1 down).score
              ≡ decrease_rep (reputation_of 1 ratings).score (10 ^ 17) none)
          × ((reputation_of 1 down).score ≤ (reputation_of 1 ratings).score))
    × IsRated up
    × IsRated down
    × ((w : ℕ)
        → w ≢ 1
        → (Map.lookup w up ≡ Map.lookup w ratings) × (Map.lookup w down ≡ Map.lookup w ratings))
unfolding Map.lookup
validator_reputation_example =
    validator_reputation_lem fixed 1 (10 ^ 18) (6 * 10 ^ 17) (10 ^ 17) 5 ratings ratings-IsRated
      (omega arith) (omega arith)
