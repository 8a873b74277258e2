-- ===== src/Overwatch/Triples.antt =====
-- Reads after writes in the maps of three keys.
use hypertensor_blockchain.Common.{ℕ, ◌≡◌, some, [], arith, ◌==◌, ◌&&◌, if◌then◌else◌}
use hypertensor_blockchain.Common.Map
use hypertensor_blockchain.State.{insert_at, lookup_double-insert_at}
use hypertensor_blockchain.Overwatch.{Triple, lookup_triple, insert_triple}

pub lookup_triple-insert_triple :
    (a b k v : ℕ) (m : Triple) (a' b' k' : ℕ)
    → lookup_triple a' b' k' (insert_triple a b k v m)
      ≡ (if a' == a && (b' == b && k' == k) then some v else lookup_triple a' b' k' m)
unfolding lookup_triple insert_triple
lookup_triple-insert_triple a b k v m a' b' k' =
    let inner = Map.get_or [] a m in
    ground (
      arith,
      Map.lookup-insert a a' (insert_at b k v inner) m,
      lookup_double-insert_at b k v inner b' k',
    )
