-- ===== src/Nodes/Index.antt =====
-- The index of the election slots is the inverse of the list of nodes, so no node stands twice, and
-- the count is the length: the invariant, and that insertion and removal keep it.
mod Vectors
pub use Vectors.*
use hypertensor_blockchain.Common.{
  ℕ, zero, suc, ◌+◌, ◌-◌, ◌<◌, ◌≡◌, ◌↔◌, Option, refl, sym, ap, ◌∙◌, true, false, none, some, List,
  [], ◌∷◌, ◌++◌, arith, ◌==◌, leb, if◌then◌else◌, u32_mod, u32_max, min, ◌%◌, inl, inr,
  Option-cases, Bool-cases, is_some, Bool, not, ◌&&◌, ◌||◌,
}
use hypertensor_blockchain.Common.Lists.{length, length-append}
use hypertensor_blockchain.Common.Map
use hypertensor_blockchain.State.{
  lookup_double, insert_at, remove_at, lookup_double-insert_at, lookup_double-remove_at,
}
use hypertensor_blockchain.Nodes.{ElectionSlots}
use hypertensor_blockchain.Nodes.Slots.{
  contains, get_elem?, position, last_or, swap_remove, slots_of, push_slot,
  insert_node_into_election_slot, remove_slot, remove_node_from_election_slot,
}

-- The index gives a position to a node exactly if the node stands there.
abbrev pub IsInverse : (ℕ → Option ℕ) → List ℕ → Type 0
IsInverse index xs = (n i : ℕ) → (index n ≡ some i) ↔ (get_elem? xs i ≡ some n)

abbrev pub index_of : ℕ → ElectionSlots → ℕ → Option ℕ
index_of s e n = lookup_double s n e.node_slot_index

pub record IsIndexed (s : ℕ) (e : ElectionSlots) : Type 0 where
  pub inverse : IsInverse (index_of s e) (slots_of s e)
  pub count : Map.get s e.total_subnet_electable_nodes ≡ length (slots_of s e)
  pub fits : length (slots_of s e) < u32_mod

-- A node is in the list exactly if the index has it.
contains-index :
    (index : ℕ → Option ℕ) (xs : List ℕ)
    → IsInverse index xs
    → (n : ℕ) → contains n xs ≡ is_some (index n)
contains-index index xs h n = elim (Option-cases (position n xs)) [
  | inl away ↦ elim (Option-cases (index n)) [
    | inl nothing ↦ ground (arith, contains-position n xs away)
    | inr (i, at) ↦ ground (arith, contains-position n xs away, contains-get_elem? n xs i, h n i)
  ]
  | inr (i, at) ↦ ground (arith, get_elem?-position n xs i at, h n i, contains-get_elem? n xs i)
]

pushed-IsInverse :
    (index : ℕ → Option ℕ) (xs : List ℕ) (x : ℕ)
    → contains x xs ≡ false
    → IsInverse index xs
    → IsInverse (λ n. if n == x then some (length xs) else index n) (xs ++ (x ∷ []))
pushed-IsInverse index xs x fresh h n i =
    ground (arith, h n i, get_elem?-push x xs i, get_elem?-lt n xs i, contains-get_elem? x xs i)

swapped-IsInverse :
    (index : ℕ → Option ℕ) (xs : List ℕ) (x pos : ℕ)
    → get_elem? xs pos ≡ some x
    → IsInverse index xs
    → IsInverse
        (λ n. if n == x then none else if n == last_or 0 xs then some pos else index n)
        (swap_remove pos xs)
swapped-IsInverse index xs x pos at h n i =
    let below = get_elem?-lt x xs pos at in
    ground (
      arith,
      h n i,
      h n pos,
      h n (length xs - 1),
      h x i,
      h x pos,
      h x (length xs - 1),
      h (last_or 0 xs) (length xs - 1),
      get_elem?-swap_remove pos xs i below,
      get_elem?-last 0 xs,
      get_elem?-lt n xs i,
    )

-- `IsInverse` reads the index and the list by their values only.
IsInverse-resp :
    {index index' : ℕ → Option ℕ} {xs ys : List ℕ}
    → ((n : ℕ) → index' n ≡ index n)
    → ys ≡ xs
    → IsInverse index xs
    → IsInverse index' ys
IsInverse-resp {index} {index'} {xs} {ys} f e h n i = rw (f n, e) (h n i)

module _ (s x : ℕ) (e : ElectionSlots) where
  pub slots_of-push_slot :
      (b : ℕ)
      → slots_of b (push_slot s x e) ≡ (if b == s then slots_of s e ++ (x ∷ []) else slots_of b e)
  unfolding push_slot
  slots_of-push_slot b = ground (arith, Map.lookup-insert s b (slots_of s e ++ (x ∷ [])) e.node_ids)

  pub slots_of-remove_slot :
      (pos b : ℕ)
      → slots_of b (remove_slot s x pos e)
        ≡ (if b == s then swap_remove pos (slots_of s e) else slots_of b e)
  unfolding remove_slot
  slots_of-remove_slot pos b =
      ground (arith, Map.lookup-insert s b (swap_remove pos (slots_of s e)) e.node_ids)

  index_of-push_slot :
      (b n : ℕ)
      → length (slots_of s e) < u32_mod
      → index_of b (push_slot s x e) n ≡ (
          if b == s
          then (if n == x then some (length (slots_of s e)) else index_of s e n)
          else index_of b e n)
  unfolding push_slot
  index_of-push_slot b n fits =
      ground
        (arith, lookup_double-insert_at s x (length (slots_of s e) % u32_mod) e.node_slot_index b n)

  index_of-remove_slot :
      (pos b n : ℕ)
      → get_elem? (slots_of s e) pos ≡ some x
      → length (slots_of s e) < u32_mod
      → IsInverse (index_of s e) (slots_of s e)
      → index_of b (remove_slot s x pos e) n ≡ (
          if b == s
          then (if n == x
              then none
              else if n == last_or 0 (slots_of s e)
              then some pos
              else index_of s e n)
          else index_of b e n)
  unfolding remove_slot
  index_of-remove_slot pos b n at fits h =
      let xs = slots_of s e in
      let last = last_or 0 xs in
      let below = get_elem?-lt x xs pos at in
      ground (
        arith,
        lookup_double-insert_at s last (pos % u32_mod) e.node_slot_index b n,
        lookup_double-remove_at s x (insert_at s last (pos % u32_mod) e.node_slot_index) b n,
        lookup_double-remove_at s x e.node_slot_index b n,
        get_elem?-swap_remove pos xs pos below,
        get_elem?-last 0 xs,
        h x pos,
        h last (length xs - 1),
      )

  count-push_slot :
      (b : ℕ)
      → Map.get b (push_slot s x e).total_subnet_electable_nodes ≡ (
          if b == s
          then min (Map.get s e.total_subnet_electable_nodes + 1) u32_max
          else Map.get b e.total_subnet_electable_nodes)
  unfolding push_slot
  count-push_slot b = ground (
    arith,
    Map.lookup-insert s b (min (Map.get s e.total_subnet_electable_nodes + 1) u32_max)
        e.total_subnet_electable_nodes,
  )

  count-remove_slot :
      (pos b : ℕ)
      → Map.get b (remove_slot s x pos e).total_subnet_electable_nodes ≡ (
          if b == s
          then Map.get s e.total_subnet_electable_nodes - 1
          else Map.get b e.total_subnet_electable_nodes)
  unfolding remove_slot
  count-remove_slot pos b = ground (
    arith,
    Map.lookup-insert s b (Map.get s e.total_subnet_electable_nodes - 1)
        e.total_subnet_electable_nodes,
  )

module _ (s x b : ℕ) (e : ElectionSlots) (here : IsIndexed s e) (h : IsIndexed b e) where
  pub push_slot-IsIndexed :
      contains x (slots_of s e) ≡ false
      → length (slots_of s e) + 1 < u32_mod
      → IsIndexed b (push_slot s x e)
  push_slot-IsIndexed fresh room =
      let xs = slots_of s e in
      let long = length-append xs (x ∷ []) in
      let at = λ (n : ℕ). index_of-push_slot s x e b n here.fits in
      elim (Bool-cases (b == s)) [
        | inl same ↦ record {
          inverse =
              IsInverse-resp (λ n. ground (arith, at n))
                (ground (arith, slots_of-push_slot s x e b))
                (pushed-IsInverse (index_of s e) xs x fresh here.inverse);
          count = ground (arith, slots_of-push_slot s x e b, count-push_slot s x e b, here.count);
          fits = ground (arith, slots_of-push_slot s x e b);
        }
        | inr other ↦ record {
          inverse =
              IsInverse-resp (λ n. ground (arith, at n))
                (ground (arith, slots_of-push_slot s x e b)) h.inverse;
          count = ground (arith, slots_of-push_slot s x e b, count-push_slot s x e b, h.count);
          fits = ground (arith, slots_of-push_slot s x e b, h.fits);
        }
      ]

  pub remove_slot-IsIndexed :
      (pos : ℕ) → position x (slots_of s e) ≡ some pos → IsIndexed b (remove_slot s x pos e)
  remove_slot-IsIndexed pos found =
      let xs = slots_of s e in
      let place = get_elem?-position x xs pos found in
      let below = get_elem?-lt x xs pos place in
      let short = length-swap_remove pos xs in
      let at = λ (n : ℕ). index_of-remove_slot s x e pos b n place here.fits here.inverse in
      elim (Bool-cases (b == s)) [
        | inl same ↦ record {
          inverse =
              IsInverse-resp (λ n. ground (arith, at n))
                (ground (arith, slots_of-remove_slot s x e pos b))
                (swapped-IsInverse (index_of s e) xs x pos place here.inverse);
          count =
              ground (
                arith,
                slots_of-remove_slot s x e pos b,
                count-remove_slot s x e pos b,
                here.count,
              );
          fits = ground (arith, slots_of-remove_slot s x e pos b, here.fits);
        }
        | inr other ↦ record {
          inverse =
              IsInverse-resp (λ n. ground (arith, at n))
                (ground (arith, slots_of-remove_slot s x e pos b)) h.inverse;
          count =
              ground
                (arith, slots_of-remove_slot s x e pos b, count-remove_slot s x e pos b, h.count);
          fits = ground (arith, slots_of-remove_slot s x e pos b, h.fits);
        }
      ]

  -- Insertion and removal on membership.
  pub contains-push_slot :
      (n : ℕ)
      → contains n (slots_of b (push_slot s x e)) ≡ (b == s && n == x || contains n (slots_of b e))
  contains-push_slot n =
      ground (arith, slots_of-push_slot s x e b, contains-push n x (slots_of s e))

  pub contains-remove_slot :
      (pos n : ℕ)
      → position x (slots_of s e) ≡ some pos
      → contains n (slots_of b (remove_slot s x pos e))
        ≡ (not (b == s && n == x) && contains n (slots_of b e))
  contains-remove_slot pos n found =
      let xs = slots_of s e in
      let place = get_elem?-position x xs pos found in
      let after = remove_slot-IsIndexed pos found in
      ground (
        arith,
        contains-index (index_of b (remove_slot s x pos e)) _ after.inverse n,
        index_of-remove_slot s x e pos b n place here.fits here.inverse,
        contains-index (index_of s e) xs here.inverse n,
        contains-index (index_of b e) (slots_of b e) h.inverse n,
        here.inverse n (length xs - 1),
        get_elem?-last 0 xs,
        get_elem?-lt x xs pos place,
      )
