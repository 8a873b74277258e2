-- ===== src/Rewards/Payout.antt =====
-- What a node's reward is paid into: nothing is lost, and nothing is made.
use hypertensor_blockchain.Common.{
  ℕ, ◌+◌, ◌≤◌, ◌≡◌, Option, none, some, arith, u128_max, refl, sym, subst, ◌∙◌,
}
use hypertensor_blockchain.Math.{percentage_factor}
use hypertensor_blockchain.Math.Exact.{percent_mul-le}
use hypertensor_blockchain.NodeStake.{increase_node_stake}
use hypertensor_blockchain.NodeStake.Totals.{IsTotalled, increase_node_stake-IsTotalled}
use hypertensor_blockchain.Pools.{donate, mint_dead_shares}
use hypertensor_blockchain.DelegateAccount.{increase_delegate_account_balance}
use hypertensor_blockchain.Rewards.{
  Payees, Recipient, DelegateAccount, handle_validator_delegate_stake, handle_delegate_account,
  share_with_delegators, share_with_account, split_reward, pay_node,
}

-- All that the payees hold.
abbrev pub payees_sum : Payees → ℕ
payees_sum y =
    y.node_stake.total_stake + y.validator_pools.total_balance + y.delegate_accounts.total_of

-- The rates of a recipient are at most 100%.
abbrev pub IsFairAccount : Option DelegateAccount → Type 0
IsFairAccount none = Unit
IsFairAccount (some d) = d.rate ≤ percentage_factor

abbrev pub IsFair : Option Recipient → Type 0
IsFair none = Unit
IsFair (some v) = (v.delegate_reward_rate ≤ percentage_factor) × IsFairAccount v.delegate_account

-- What is left of the reward and what the payees hold more are the reward.
abbrev pub IsConserved : ℕ → Payees → ℕ × Payees → Type 0
IsConserved reward y out =
    (out.0 + payees_sum out.1 ≡ payees_sum y + reward)
    × (out.0 ≤ reward)
    × (out.1.node_stake ≡ y.node_stake)

share_with_delegators-IsConserved :
    (reward : ℕ) (v : Recipient) (y : Payees)
    → v.delegate_reward_rate ≤ percentage_factor
    → payees_sum y + reward ≤ u128_max
    → IsConserved reward y (share_with_delegators reward v y)
unfolding share_with_delegators handle_validator_delegate_stake donate mint_dead_shares
share_with_delegators-IsConserved reward v y rate fits =
    let part = percent_mul-le reward v.delegate_reward_rate (omega arith) rate in
    (ground arith, ground arith, ground arith)

share_with_account-IsConserved :
    (reward : ℕ) (d : Option DelegateAccount) (y : Payees)
    → IsFairAccount d
    → payees_sum y + reward ≤ u128_max
    → IsConserved reward y (share_with_account reward d y)
unfolding share_with_account handle_delegate_account increase_delegate_account_balance
share_with_account-IsConserved reward none y rate fits = (omega arith, omega arith, refl)
share_with_account-IsConserved reward (some d) y rate fits =
    let part = percent_mul-le reward d.rate (omega arith) rate in (omega arith, omega arith, refl)

split_reward-IsConserved :
    (reward : ℕ) (v : Option Recipient) (y : Payees)
    → IsFair v
    → payees_sum y + reward ≤ u128_max
    → IsConserved reward y (split_reward reward v y)
unfolding split_reward
split_reward-IsConserved reward none y fair fits = (omega arith, omega arith, refl)
split_reward-IsConserved reward (some v) y (rate, fair) fits =
    let first = share_with_delegators-IsConserved reward v y rate fits in
    let (left, y') = share_with_delegators reward v y in
    let second = share_with_account-IsConserved left v.delegate_account y' fair (omega arith) in
    (omega arith, omega arith, second.2 ∙ first.2)

-- Where the rates of the validator and of its delegate account are at most 100%, the stakes of the
-- nodes add up, and the stakes, the validators' pools and the delegate accounts stay within a u128
-- together: paying a node adds exactly its reward to the three, and the stakes still add up.
pub pay_node_lem :
    (s x reward : ℕ) (v : Option Recipient) (y : Payees)
    → IsFair v
    → IsTotalled y.node_stake
    → payees_sum y + reward ≤ u128_max
    → let y' = pay_node s x reward v y in
      (payees_sum y' ≡ payees_sum y + reward) × IsTotalled y'.node_stake
unfolding pay_node increase_node_stake
pay_node_lem s x reward v y fair totalled fits =
    let split = split_reward-IsConserved reward v y fair fits in
    let (left, y') = split_reward reward v y in
    (
      omega arith,
      increase_node_stake-IsTotalled x s left (subst IsTotalled (sym split.2) totalled)
          (omega arith),
    )
