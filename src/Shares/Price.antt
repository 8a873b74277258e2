-- ===== src/Shares/Price.antt =====
-- What the conversions do to the value of shares.
use native.Mathlib.Nat.{mul-le-mul, mul-le-mul_right}
use hypertensor_blockchain.Common.{
  ℕ, zero, suc, ◌+◌, ◌*◌, ◌/◌, ◌≤◌, ◌<◌, min, ◌≡◌, inl, inr, arith, leb, Bool-cases, u128_max,
  u256_max,
}
use hypertensor_blockchain.Common.Division.{le-div, div-mul-le, div-lt, div_fraction_mono}
use hypertensor_blockchain.Math.{checked_mul_div}
use hypertensor_blockchain.Shares.{quotient_or_max, convert_to_shares, convert_to_balance}

quotient_or_max-eq-min :
    (x y z : ℕ)
    → 0 < z
    → (u256_max < x * y → u128_max ≤ x * y / z)
    → quotient_or_max (checked_mul_div x y z) ≡ min (x * y / z) u128_max
unfolding checked_mul_div
quotient_or_max-eq-min x y zero pos big = elim pos [ ]
quotient_or_max-eq-min x y (suc z) pos big = elim (Bool-cases (leb (x * y) u256_max)) [
  | inl fits ↦ ground arith
  | inr over ↦ let high : u128_max ≤ x * y / suc z = big (ground arith) in ground arith
]

-- With shares in the pool, `convert_to_shares` is the quotient rounded down and capped at the
-- largest u128. A product beyond 256 bits over at most 2 ^ 128 is itself beyond a u128, so the
-- fallback of an overflow is the cap.
pub convert_to_shares-eq-min :
    (x shares balance : ℕ)
    → 0 < shares
    → balance ≤ u128_max
    → convert_to_shares x shares balance ≡ min (x * (shares + 10) / (balance + 1)) u128_max
unfolding convert_to_shares
convert_to_shares-eq-min x zero b pos hb = elim pos [ ]
convert_to_shares-eq-min x (suc s) b pos hb = ground (
  arith,
  quotient_or_max-eq-min x (suc s + 10) (b + 1) (omega arith)
      λ over. le-div (b + 1) (omega arith) (omega arith),
)

-- With shares in the pool, `convert_to_balance` is the quotient rounded down and capped; its
-- product never overflows.
pub convert_to_balance-eq-min :
    (x shares balance : ℕ)
    → 0 < shares
    → x ≤ u128_max
    → balance ≤ u128_max
    → convert_to_balance x shares balance ≡ min (x * (balance + 1) / (shares + 10)) u128_max
unfolding convert_to_balance
convert_to_balance-eq-min x zero b pos hx hb = elim pos [ ]
convert_to_balance-eq-min x (suc s) b pos hx hb =
    let fits : x * (b + 1) ≤ u128_max * (u128_max + 1) =
      mul-le-mul {m₂ = u128_max + 1} hx (omega arith) in
    ground (
      arith,
      quotient_or_max-eq-min x (b + 1) (suc s + 10) (omega arith) λ over. absurd (omega arith),
    )

-- In a pool of u128s that has shares, no more than all the shares redeem for no more than the
-- pool's balance.
pub convert_to_balance-le :
    (h shares balance : ℕ)
    → 0 < shares
    → h ≤ shares
    → shares ≤ u128_max
    → balance ≤ u128_max
    → convert_to_balance h shares balance ≤ balance
convert_to_balance-le h s b pos hs bs bb =
    let exact = convert_to_balance-eq-min h s b pos (omega arith) bb in
    let below : h * (b + 1) / (s + 10) < b + 1 =
      div-lt (s + 10) (omega arith) (omega (arith, mul-le-mul_right (b + 1) hs)) in
    omega arith

module _ (s b : ℕ) (pos : 0 < s) (hs : s ≤ u128_max) (hb : b ≤ u128_max) where
  -- At a price of b for s shares, with s above 0 and both u128s: what `convert_to_shares` hands out
  -- is never worth more, at the price (b + 1) / (s + 10), than what was paid in.
  pub convert_to_shares_fair : (x : ℕ) → convert_to_shares x s b * (b + 1) ≤ x * (s + 10)
  convert_to_shares_fair x =
      let n = convert_to_shares x s b in
      let exact = convert_to_shares-eq-min x s b pos hb in
      let below : n ≤ x * (s + 10) / (b + 1) = omega arith in
      omega (arith, mul-le-mul_right (b + 1) below, div-mul-le (x * (s + 10)) (b + 1))

  -- At a price of b for s shares, with s above 0 and both u128s: what `convert_to_balance` pays for
  -- h shares, a u128, is never more than the price (b + 1) / (s + 10) says.
  pub convert_to_balance_fair :
      (h : ℕ) → h ≤ u128_max → convert_to_balance h s b * (s + 10) ≤ h * (b + 1)
  convert_to_balance_fair h hh =
      let n = convert_to_balance h s b in
      let exact = convert_to_balance-eq-min h s b pos hh hb in
      let below : n ≤ h * (b + 1) / (s + 10) = omega arith in
      omega (arith, mul-le-mul_right (s + 10) below, div-mul-le (h * (b + 1)) (s + 10))

-- At a price of b for s shares, with s above 0 and both u128s: what `convert_to_shares` hands out
-- for x is never worth more than x at the price (b + 1) / (s + 10); what `convert_to_balance` pays
-- for h shares, a u128, is never more than that price says; and no more than all shares redeem for
-- no more than b.
pub conversions_fair :
    (s b x h : ℕ)
    → 0 < s
    → s ≤ u128_max
    → b ≤ u128_max
    → h ≤ u128_max
    → (convert_to_shares x s b * (b + 1) ≤ x * (s + 10))
      × (convert_to_balance h s b * (s + 10) ≤ h * (b + 1))
      × (h ≤ s → convert_to_balance h s b ≤ b)
conversions_fair s b x h pos hs hb hh = (
  convert_to_shares_fair s b pos hs hb x,
  convert_to_balance_fair s b pos hs hb h hh,
  λ held. convert_to_balance-le h s b pos held hs hb,
)

-- The price per share may only rise: if the fraction (b + 1) / (s + 10) does not fall, no number of
-- shares redeems for less.
pub convert_to_balance_mono :
    (h s b s' b' : ℕ)
    → 0 < s
    → 0 < s'
    → h ≤ u128_max
    → b ≤ u128_max
    → b' ≤ u128_max
    → (b + 1) * (s' + 10) ≤ (b' + 1) * (s + 10)
    → convert_to_balance h s b ≤ convert_to_balance h s' b'
convert_to_balance_mono h s b s' b' p p' hh hb hb' price = omega (
  arith,
  convert_to_balance-eq-min h s b p hh hb,
  convert_to_balance-eq-min h s' b' p' hh hb',
  div_fraction_mono h (b + 1) (s + 10) (b' + 1) (s' + 10) (omega arith) (omega arith) price,
)
