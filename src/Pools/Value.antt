-- ===== src/Pools/Value.antt =====
-- What deposits, withdrawals and donations do to the value of the shares of a pool.
use hypertensor_blockchain.Common.{ℕ, ◌+◌, ◌-◌, ◌*◌, ◌/◌, ◌≤◌, ◌<◌, ◌≡◌, arith, u128_max}
use hypertensor_blockchain.Common.Division.{div-lt}
use hypertensor_blockchain.State.{Pools}
use hypertensor_blockchain.Shares.{convert_to_balance}
use hypertensor_blockchain.Shares.Price.{
  convert_to_shares_fair, convert_to_balance_fair, convert_to_balance_mono, convert_to_balance-le,
  convert_to_balance-eq-min,
}
use hypertensor_blockchain.Pools.{
  shares_in, balance_in, shares_for, balance_for, increase_account, decrease_account,
}
use hypertensor_blockchain.Pools.Backed.{
  shares_in-increase_account, balance_in-increase_account, shares_in-decrease_account,
  balance_in-decrease_account,
}

-- n shares redeem for no more than x if the fraction says so.
redeem_le :
    (n s b x : ℕ)
    → 0 < s
    → n ≤ u128_max
    → b ≤ u128_max
    → n * (b + 1) ≤ x * (s + 10)
    → convert_to_balance n s b ≤ x
redeem_le n s b x pos hn hb h =
    let exact = convert_to_balance-eq-min n s b pos hn hb in
    let below : n * (b + 1) / (s + 10) < x + 1 = div-lt (s + 10) (omega arith) (omega arith) in
    omega arith

price_after :
    (s b n x : ℕ)
    → x * (s + n + 10) ≤ n * (b + x + 1)
    → (b + x + 1) * (s + 10) ≤ (b + 1) * (s + n + 10)
price_after s b n x h = omega arith

-- The price of what is left after n shares went for x.
remaining_price :
    (s b n x : ℕ)
    → n ≤ s
    → x ≤ b
    → x * (s + 10) ≤ n * (b + 1)
    → (b + 1) * (s - n + 10) ≤ (b - x + 1) * (s + 10)
remaining_price s b n x hn hx h =
    let s_lem : s - n + n ≡ s = omega arith in
    let b_lem : b - x + x ≡ b = omega arith in
    rw (s_lem, b_lem) at (price_after (s - n) (b - x) n x (rw (s_lem, b_lem) h))

module _ (account pool amount n : ℕ) (p : Pools) where
  pub shares_in-deposit :
      shares_in pool p + n ≤ u128_max
      → shares_in pool (increase_account account pool amount n p) ≡ shares_in pool p + n
  shares_in-deposit fits = ground (arith, shares_in-increase_account account pool amount n p pool)

  pub balance_in-deposit :
      balance_in pool p + amount ≤ u128_max
      → balance_in pool (increase_account account pool amount n p) ≡ balance_in pool p + amount
  balance_in-deposit fits = ground (arith, balance_in-increase_account account pool amount n p pool)

  pub shares_in-withdrawal :
      shares_in pool (decrease_account account pool amount n p) ≡ shares_in pool p - n
  shares_in-withdrawal = ground (arith, shares_in-decrease_account account pool amount n p pool)

  pub balance_in-withdrawal :
      balance_in pool (decrease_account account pool amount n p) ≡ balance_in pool p - amount
  balance_in-withdrawal = ground (arith, balance_in-decrease_account account pool amount n p pool)

-- The pool is open and its numbers are u128s, with room for the amount.
pub record IsOpen (pool amount : ℕ) (p : Pools) : Type 0 where
  pub not_empty : 0 < shares_in pool p
  pub shares_fit : shares_in pool p + shares_for pool amount p ≤ u128_max
  pub balance_fits : balance_in pool p + amount ≤ u128_max

module _ (account pool amount : ℕ) (p : Pools) (o : IsOpen pool amount p) where
  -- Depositing into an open pool lowers the worth of no number of shares: nobody is diluted.
  pub deposit_keeps_value :
      (h : ℕ)
      → h ≤ u128_max
      → balance_for pool h p
        ≤ balance_for pool h (increase_account account pool amount (shares_for pool amount p) p)
  deposit_keeps_value h fits =
      let s = shares_in pool p in
      let b = balance_in pool p in
      let n = shares_for pool amount p in
      let fair = convert_to_shares_fair s b o.not_empty (omega arith) (omega arith) amount in
      rw
        (
          shares_in-deposit account pool amount n p o.shares_fit,
          balance_in-deposit account pool amount n p o.balance_fits,
        )
        (convert_to_balance_mono h s b (s + n) (b + amount) o.not_empty (omega arith) fits
          (omega arith) o.balance_fits (omega arith))

  -- What a deposit into an open pool is given redeems, right after it, for no more than was paid.
  pub deposit_not_profitable :
      let n = shares_for pool amount p in
      balance_for pool n (increase_account account pool amount n p) ≤ amount
  deposit_not_profitable =
      let s = shares_in pool p in
      let b = balance_in pool p in
      let n = shares_for pool amount p in
      let fair = convert_to_shares_fair s b o.not_empty (omega arith) (omega arith) amount in
      rw
        (
          shares_in-deposit account pool amount n p o.shares_fit,
          balance_in-deposit account pool amount n p o.balance_fits,
        )
        (redeem_le n (s + n) (b + amount) amount (omega arith) (omega arith) o.balance_fits
          (omega (arith, fair)))

-- A withdrawal that leaves shares in the pool lowers the worth of no number of shares.
pub withdrawal_keeps_value :
    (account pool n h : ℕ) (p : Pools)
    → n < shares_in pool p
    → shares_in pool p ≤ u128_max
    → balance_in pool p ≤ u128_max
    → h ≤ u128_max
    → balance_for pool h p
      ≤ balance_for pool h (decrease_account account pool (balance_for pool n p) n p)
withdrawal_keeps_value account pool n h p below hs hb fits =
    let s = shares_in pool p in
    let b = balance_in pool p in
    let x = balance_for pool n p in
    let fair = convert_to_balance_fair s b (omega arith) hs hb n (omega arith) in
    let covered = convert_to_balance-le n s b (omega arith) (omega arith) hs hb in
    rw (shares_in-withdrawal account pool x n p, balance_in-withdrawal account pool x n p)
      (convert_to_balance_mono h s b (s - n) (b - x) (omega arith) (omega arith) fits hb
        (omega arith) (remaining_price s b n x (omega arith) covered fair))
