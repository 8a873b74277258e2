-- ===== src/Consensus/Queue.antt =====
-- The loop of a proposal over the registration queue, against the two questions that it answers.
use hypertensor_blockchain.Common.{
  ℕ, ◌≡◌, Bool, true, false, ◌||◌, Option, none, some, List, [], ◌∷◌, refl, arith, leb, ◌==◌,
  if◌then◌else◌, add_u32,
}
use hypertensor_blockchain.Nodes.{SubnetNode}
use hypertensor_blockchain.Consensus.Submissions.{scan_queue, queue_choices, keep_if}

-- Does a node of this id stand in the queue?
abbrev pub has_id : ℕ → List SubnetNode → Bool
has_id i [] = false
has_id i (node ∷ q) = node.id == i || has_id i q

-- No id stands twice in the queue.
abbrev pub IsDistinct : List SubnetNode → Type 0
IsDistinct [] = Unit
IsDistinct (node ∷ q) = (has_id node.id q ≡ false) × IsDistinct q

-- Does the node of this id stand in the queue with its immunity over?
unfoldable pub is_past_immunity : ℕ → ℕ → ℕ → List SubnetNode → Bool
is_past_immunity i immunity epoch [] = false
is_past_immunity i immunity epoch (node ∷ q) =
    let rest = is_past_immunity i immunity epoch q in
    if node.id == i then leb (add_u32 node.classification.start_epoch immunity) epoch else rest

past_immunity-has_id :
    (i immunity epoch : ℕ) (q : List SubnetNode)
    → has_id i q ≡ false
    → is_past_immunity i immunity epoch q ≡ false
unfolding is_past_immunity
past_immunity-has_id i immunity epoch [] h = refl
past_immunity-has_id i immunity epoch (node ∷ q) h =
    ground (arith, past_immunity-has_id i immunity epoch q)

module _ (immunity epoch : ℕ) where
  abbrev next_allowed : ℕ → SubnetNode → Bool → Bool
  next_allowed i node a =
      if node.id == i then leb (add_u32 node.classification.start_epoch immunity) epoch else a

  scan-exists :
      (i : ℕ) (r : Option ℕ) (q : List SubnetNode) (x a : Bool)
      → (scan_queue (some i) r immunity epoch q (x, a)).0 ≡ (x || has_id i q)
  unfolding scan_queue
  scan-exists i r [] x a = ground arith
  scan-exists i none (node ∷ q) x a = ground (arith, scan-exists i none q (node.id == i || x) a)
  scan-exists i (some r) (node ∷ q) x a = ground (
    arith,
    scan-exists i (some r) q (node.id == i || x)
        (if node.id == r then leb (add_u32 node.classification.start_epoch immunity) epoch else a),
  )

  scan-allowed :
      (p : Option ℕ) (i : ℕ) (q : List SubnetNode) (x a : Bool)
      → IsDistinct q
      → (a ≡ true → has_id i q ≡ false)
      → (scan_queue p (some i) immunity epoch q (x, a)).1
        ≡ (a || is_past_immunity i immunity epoch q)
  unfolding scan_queue is_past_immunity
  scan-allowed p i [] x a d h = ground arith
  scan-allowed none i (node ∷ q) x a (away, d) h =
      let later = scan-allowed none i q x (next_allowed i node a) d (ground arith) in
      ground (arith, past_immunity-has_id i immunity epoch q)
  scan-allowed (some p) i (node ∷ q) x a (away, d) h =
      let x' : Bool = if node.id == p then true else x in
      let later = scan-allowed (some p) i q x' (next_allowed i node a) d (ground arith) in
      ground (arith, past_immunity-has_id i immunity epoch q)

  -- Where no id stands twice in the queue, a proposal keeps the node to prioritize exactly if it
  -- stands in the queue, and the node to remove exactly if it stands there with its immunity over.
  pub queue_choices_lem :
      (p r : Option ℕ) (q : List SubnetNode)
      → IsDistinct q
      → queue_choices p r immunity epoch q ≡ (
        elim p [ none ↦ none | some i ↦ keep_if (has_id i q) (some i) ],
        elim r [ none ↦ none | some i ↦ keep_if (is_past_immunity i immunity epoch q) (some i) ],
      )
  unfolding queue_choices
  queue_choices_lem none none q d = refl
  queue_choices_lem none (some i) q d =
      ground (arith, scan-allowed none i q true false d (λ e. absurd (ground arith)))
  queue_choices_lem (some j) none q d = ground (arith, scan-exists j none q false true)
  queue_choices_lem (some j) (some i) q d = ground (
    arith,
    scan-exists j (some i) q false false,
    scan-allowed (some j) i q false false d (λ e. absurd (ground arith)),
  )
