-- ===== src/Consensus/Steps.antt =====
-- The consensus of all subnets as a step relation: proposals, attestations, and everything else
-- that leaves the submissions alone (blocks that pass, elections, nodes that come and go).
use hypertensor_blockchain.Common.{
  ℕ, ◌≡◌, true, ◌||◌, ◌&&◌, ◌==◌, Option, some, refl, sym, subst, ◌∙◌, arith, inl, inr, Bool-cases,
  if◌then◌else◌,
}
use hypertensor_blockchain.Common.Map
use hypertensor_blockchain.Math.Floats.{Floats}
use hypertensor_blockchain.State.{ok, lookup_double-insert_at}
use hypertensor_blockchain.Epochs.{get_current_subnet_epoch_as_u32}
use hypertensor_blockchain.Nodes.Slots.{contains}
use hypertensor_blockchain.Consensus.{Consensus, ConsensusData, AttestEntry}
use hypertensor_blockchain.Consensus.Canonical.{IsAscending}
use hypertensor_blockchain.Consensus.Submissions.{Proposal, do_propose_attestation, do_attest}
use hypertensor_blockchain.Consensus.Proposals.{
  submission_at, with_submission, IsProposed, do_propose_attestation-IsProposed,
}
use hypertensor_blockchain.Consensus.Attestations.{attested_with, IsAttested, do_attest-IsAttested}

pub data Step {F : Type 0} (floats : Floats F) : Consensus → Consensus → Type 0 where
  propose :
      (hotkey s x : ℕ) (p : Proposal) {c c' : Consensus}
      → do_propose_attestation floats hotkey s x p c ≡ (ok tt, c')
      → Step floats c c'
  attest :
      (hotkey s x : ℕ) (arg : Option ℕ) {c c' : Consensus}
      → do_attest floats hotkey s x arg c ≡ (ok tt, c')
      → Step floats c c'
  other :
      {c c' : Consensus}
      → c'.subnet_consensus_submission ≡ c.subnet_consensus_submission
      → Step floats c c'

pub data Reach {F : Type 0} (floats : Floats F) (c : Consensus) : Consensus → Type 0 where
  here : Reach floats c c
  more : {c' c'' : Consensus} → Reach floats c c' → Step floats c' c'' → Reach floats c c''

-- A submission's validators ascend, its proposer attests, and so do only listed validators besides.
pub record IsSound (sub : ConsensusData) : Type 0 where
  pub ascending : IsAscending sub.validator_ids
  pub proposer : Map.contains_key sub.validator_id sub.attests ≡ true
  pub listed :
      (n : ℕ)
      → Map.contains_key n sub.attests ≡ true
      → (n == sub.validator_id || contains n sub.validator_ids) ≡ true

-- `sub'` is `sub` with attestations added: what was proposed and who attested stays.
pub record IsGrown (sub sub' : ConsensusData) : Type 0 where
  pub validator_id : sub'.validator_id ≡ sub.validator_id
  pub block : sub'.block ≡ sub.block
  pub validator_ids : sub'.validator_ids ≡ sub.validator_ids
  pub scores : sub'.scores ≡ sub.scores
  pub attests :
      (n : ℕ) (entry : AttestEntry)
      → Map.lookup n sub.attests ≡ some entry
      → Map.lookup n sub'.attests ≡ some entry

abbrev pub AllSound : Consensus → Type 0
AllSound c = (s e : ℕ) (sub : ConsensusData) → submission_at s e c ≡ some sub → IsSound sub

-- Every submission of `c` stands in `c'`, with attestations added at most.
abbrev pub IsKept : Consensus → Consensus → Type 0
IsKept c c' =
    (s e : ℕ) (sub : ConsensusData)
    → submission_at s e c ≡ some sub
    → (sub' : ConsensusData) × (submission_at s e c' ≡ some sub') × IsGrown sub sub'

IsGrown-refl : (sub : ConsensusData) → IsGrown sub sub
IsGrown-refl sub = record {
  validator_id = refl;
  block = refl;
  validator_ids = refl;
  scores = refl;
  attests = λ n entry h. h;
}

IsGrown-trans : (a b d : ConsensusData) → IsGrown a b → IsGrown b d → IsGrown a d
IsGrown-trans a b d g h = record {
  validator_id = h.validator_id ∙ g.validator_id;
  block = h.block ∙ g.block;
  validator_ids = h.validator_ids ∙ g.validator_ids;
  scores = h.scores ∙ g.scores;
  attests = λ n entry e. h.attests n entry (g.attests n entry e);
}

module _ (s e : ℕ) (sub : ConsensusData) (c : Consensus) where
  at_with_submission :
      (b j : ℕ)
      → submission_at b j (with_submission s e sub c)
        ≡ (if b == s && j == e then some sub else submission_at b j c)
  at_with_submission b j =
      ground (arith, lookup_double-insert_at s e sub c.subnet_consensus_submission b j)

  with_submission-AllSound : AllSound c → IsSound sub → AllSound (with_submission s e sub c)
  with_submission-AllSound all sound b j t h =
      let at = at_with_submission b j in
      elim (Bool-cases (b == s && j == e)) [
        | inl same ↦ let e' : sub ≡ t = ground arith in subst IsSound e' sound
        | inr away ↦ all b j t (ground arith)
      ]

  with_submission-IsKept :
      ((old : ConsensusData) → submission_at s e c ≡ some old → IsGrown old sub)
      → IsKept c (with_submission s e sub c)
  with_submission-IsKept grown b j t h =
      let at = at_with_submission b j in
      elim (Bool-cases (b == s && j == e)) [
        | inl same ↦ (sub, ground arith, grown t (ground arith))
        | inr away ↦ (t, ground arith, IsGrown-refl t)
      ]

module _ {F : Type 0} {floats : Floats F} where
  proposed-IsSound :
      {hotkey s x : ℕ} {p : Proposal} {c c' : Consensus} {sub : ConsensusData}
      → IsProposed floats hotkey s x p c c' sub
      → IsSound sub
  proposed-IsSound {sub = sub} h = record {
    ascending = h.ascending;
    proposer = ground (arith, h.attested sub.validator_id, h.proposer);
    listed = λ n e. ground (arith, h.attested n, h.proposer);
  }

  attested-IsGrown :
      {hotkey s x : ℕ} {arg : Option ℕ} {c c' : Consensus} {sub : ConsensusData}
      {entry : AttestEntry}
      → IsAttested floats hotkey s x arg c c' sub entry
      → IsGrown sub (attested_with floats hotkey s x arg c entry sub)
  attested-IsGrown {x = x} {sub = sub} {entry = entry} h = record {
    validator_id = refl;
    block = refl;
    validator_ids = refl;
    scores = refl;
    attests = λ n old e. ground (arith, h.first, Map.lookup-insert x n entry sub.attests);
  }

  attested-IsSound :
      {hotkey s x : ℕ} {arg : Option ℕ} {c c' : Consensus} {sub : ConsensusData}
      {entry : AttestEntry}
      → IsAttested floats hotkey s x arg c c' sub entry
      → IsSound sub
      → IsSound (attested_with floats hotkey s x arg c entry sub)
  attested-IsSound {x = x} {sub = sub} {entry = entry} h sound = record {
    ascending = sound.ascending;
    proposer =
        ground (arith, sound.proposer, Map.lookup-insert x sub.validator_id entry sub.attests);
    listed =
        λ n e. ground (arith, h.listed, sound.listed n, Map.lookup-insert x n entry sub.attests);
  }

  -- One step keeps the soundness of all submissions and every submission.
  Step-keeps : {c c' : Consensus} → Step floats c c' → AllSound c → AllSound c' × IsKept c c'
  Step-keeps {c} (propose hotkey s x p h) all =
      let e = get_current_subnet_epoch_as_u32 s c.clock in
      let (sub, made) = do_propose_attestation-IsProposed floats hotkey s x p c _ h in
      subst (λ t. AllSound t × IsKept c t) (sym made.stored)
        (
          with_submission-AllSound s e sub c all (proposed-IsSound made),
          with_submission-IsKept s e sub c (λ old at. absurd (ground (arith, made.fresh))),
        )
  Step-keeps {c} (attest hotkey s x arg h) all =
      let e = get_current_subnet_epoch_as_u32 s c.clock in
      let (sub, entry, made) = do_attest-IsAttested floats hotkey s x arg c _ h in
      let sub' = attested_with floats hotkey s x arg c entry sub in
      subst (λ t. AllSound t × IsKept c t) (sym made.stored)
        (
          with_submission-AllSound s e sub' c all
              (attested-IsSound made (all s e sub made.submitted)),
          with_submission-IsKept s e sub' c (λ old at.
              let same : sub ≡ old = ground (arith, made.submitted) in
              subst (λ t. IsGrown t sub') same (attested-IsGrown made)),
        )
  Step-keeps {c} {c'} (other h) all = (
    λ s e sub at. all s e sub (ground arith),
    λ s e sub at. (sub, ground arith, IsGrown-refl sub),
  )

  -- From a state in which all submissions are sound, every sequence of proposals, attestations and
  -- other steps leads to one in which they are sound: the validators ascend, the proposer attests,
  -- and all who attest besides are listed validators. Every submission stays, with its proposer,
  -- its block, its validators, its scores and its attestations; only attestations are added.
  pub Reach-keeps : {c c' : Consensus} → AllSound c → Reach floats c c' → AllSound c' × IsKept c c'
  Reach-keeps all here = (all, λ s e sub at. (sub, at, IsGrown-refl sub))
  Reach-keeps all (more r step) =
      let (all', kept) = Reach-keeps all r in
      let (all'', kept') = Step-keeps step all' in
      (
        all'',
        λ s e sub at.
            let (sub', at', g) = kept s e sub at in
            let (sub'', at'', g') = kept' s e sub' at' in
            (sub'', at'', IsGrown-trans sub sub' sub'' g g'),
      )
