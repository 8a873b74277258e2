-- ===== src/Reputation/Decrease.antt =====
-- A decrease keeps the order of two reputations, and takes more with a larger factor.
use native.Mathlib.Nat.{mul-le-mul_left, mul-div_left}
use hypertensor_blockchain.Common.{ℕ, ◌+◌, ◌-◌, ◌*◌, ◌≤◌, ◌≡◌, Option, none, arith, subst}
use hypertensor_blockchain.Math.{percentage_factor, percent_mul}
use hypertensor_blockchain.Math.Exact.{percent_mul-eq-min, percent_mul-le, percent_mul_mono}
use hypertensor_blockchain.Reputation.{decrease_rep, unwrap_or}

abbrev K : ℕ
K = percentage_factor

-- Of two values, the part of the larger exceeds that of the smaller by no more than the values
-- differ.
percent_mul-add : (p d f : ℕ) → p + d ≤ K → f ≤ K → percent_mul (p + d) f ≤ percent_mul p f + d
percent_mul-add p d f hp hf =
    let small = (percent_mul-eq-min p f (omega arith) (omega arith)).0 in
    let large = (percent_mul-eq-min (p + d) f (omega arith) (omega arith)).0 in
    let part : d * f ≤ d * K = mul-le-mul_left d hf in
    let cap : p * f ≤ p * K = mul-le-mul_left p hf in omega arith

percent_mul-full : (f : ℕ) → f ≤ K → percent_mul f K ≡ f
percent_mul-full f h =
    omega (arith, (percent_mul-eq-min f K (omega arith) (omega arith)).0, mul-div_left f)

abbrev pub factor : ℕ → Option ℕ → ℕ
factor f o = percent_mul f (unwrap_or o percentage_factor)

decrease_rep-eq :
    (p f : ℕ) (o : Option ℕ) → p ≤ K → decrease_rep p f o ≡ p - percent_mul p (factor f o)
unfolding decrease_rep
decrease_rep-eq p f o h = ground arith

-- For two reputations and two factors of at most 100%, and a second factor of at most 100% or none:
-- a decrease leaves no more than the reputation, leaves a higher reputation no lower, takes more by
-- a larger first factor, and leaves nothing where it is 100% alone.
pub decrease_rep_lem :
    (p p' f f' : ℕ) (o : Option ℕ)
    → p ≤ p'
    → p' ≤ percentage_factor
    → f ≤ f'
    → f' ≤ percentage_factor
    → unwrap_or o percentage_factor ≤ percentage_factor
    → (decrease_rep p f o ≤ p)
      × (decrease_rep p f o ≤ decrease_rep p' f o)
      × (decrease_rep p f' o ≤ decrease_rep p f o)
      × (decrease_rep p percentage_factor none ≡ 0)
decrease_rep_lem p p' f f' o hp bp hf bf ho =
    let q = unwrap_or o percentage_factor in
    let low = percent_mul-le f q (omega arith) ho in
    let high = percent_mul-le f' q (omega arith) ho in
    let order = percent_mul_mono f f' q q hf (omega arith) (omega arith) (omega arith) in
    let parts =
      percent_mul_mono p p (factor f o) (factor f' o) (omega arith) order (omega arith)
        (omega arith) in
    let spread = percent_mul-add p (p' - p) (factor f o) (omega arith) (omega arith) in
    let whole : p + (p' - p) ≡ p' = omega arith in
    let spread' : percent_mul p' (factor f o) ≤ percent_mul p (factor f o) + (p' - p) =
      subst (λ t. percent_mul t (factor f o) ≤ percent_mul p (factor f o) + (p' - p)) whole
        spread in
    let full = percent_mul-full p (omega arith) in
    let all = percent_mul-full K (omega arith) in
    (
      omega (arith, decrease_rep-eq p f o (omega arith)),
      omega (
        arith,
        decrease_rep-eq p f o (omega arith),
        decrease_rep-eq p' f o bp,
        percent_mul-le p' (factor f o) (omega arith) (omega arith),
      ),
      omega (arith, decrease_rep-eq p f o (omega arith), decrease_rep-eq p f' o (omega arith)),
      rw (decrease_rep-eq p K none (omega arith), all, full) (omega arith),
    )
