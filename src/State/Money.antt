-- ===== src/State/Money.antt =====
-- The balances of the chain, `T::Currency`: a pallet of another repository, so a parameter. The
-- operations are the ones that the network pallet calls, over a state of any type; account ids are
-- numbers, since they are only compared.
use hypertensor_blockchain.Common.{ℕ, ◌+◌, ◌≤◌, ◌≡◌, Option, some, Bool}

pub record Currency (B : Type 0) : Type 0 where
  -- the largest value of `Currency::Balance`
  pub max_balance : ℕ
  pub minimum_balance : ℕ
  pub free_balance : ℕ → B → ℕ
  pub total_issuance : B → ℕ
  -- `ensure_can_withdraw(who, amount, reasons, new_balance).is_ok()`
  pub ensure_can_withdraw : ℕ → ℕ → ℕ → B → Bool
  -- `withdraw(who, amount, reasons, KeepAlive)`, whose imbalance the pallet drops
  pub withdraw : ℕ → ℕ → B → Option B
  -- `deposit_creating(who, amount)`, whose imbalance the pallet drops
  pub deposit_creating : ℕ → ℕ → B → B

-- What the documentation of `Currency` promises of the two operations that move money: dropping the
-- imbalance of a withdrawal burns it and dropping that of a deposit issues it, and a deposit of the
-- minimum balance or more is never refused.
pub record IsCurrency {B : Type 0} (c : Currency B) : Type 0 where
  pub withdraw-free_balance :
      (a x : ℕ) (b b' : B)
      → c.withdraw a x b ≡ some b'
      → c.free_balance a b' + x ≡ c.free_balance a b
  pub withdraw-total_issuance :
      (a x : ℕ) (b b' : B)
      → c.withdraw a x b ≡ some b'
      → c.total_issuance b' + x ≡ c.total_issuance b
  pub deposit-free_balance :
      (a x : ℕ) (b : B)
      → c.minimum_balance ≤ x
      → c.free_balance a (c.deposit_creating a x b) ≡ c.free_balance a b + x
  pub deposit-total_issuance :
      (a x : ℕ) (b : B)
      → c.minimum_balance ≤ x
      → c.total_issuance (c.deposit_creating a x b) ≡ c.total_issuance b + x
