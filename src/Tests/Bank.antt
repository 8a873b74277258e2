-- ===== src/Tests/Bank.antt =====
-- Balances for the tests: a map of free balances, whose sum is the issuance.
use hypertensor_blockchain.Common.{ℕ, ◌+◌, ◌-◌, none, some, arith, u128_max, leb, if◌then◌else◌}
use hypertensor_blockchain.Common.Map
use hypertensor_blockchain.State.{Currency, IsCurrency}

abbrev pub Bank : Type 0
Bank = Map.Map ℕ

abbrev pub issued : Bank → ℕ
issued b = Map.total_by (λ n. n) b

instance abbrev pub bank : Currency Bank
bank = record {
  max_balance = u128_max;
  minimum_balance = 1;
  free_balance = Map.get;
  total_issuance = issued;
  ensure_can_withdraw = λ a x left b. leb x (Map.get a b);
  withdraw = λ a x b. if leb x (Map.get a b) then some (Map.insert a (Map.get a b - x) b) else none;
  deposit_creating = λ a x b. Map.insert a (Map.get a b + x) b;
}

pub bank-IsCurrency : IsCurrency bank
bank-IsCurrency = record {
  withdraw-free_balance =
      λ a x b b' done. ground (arith, Map.lookup-insert a a (Map.get a b - x) b);
  withdraw-total_issuance =
      λ a x b b' done. ground (arith, Map.total_by-insert (λ (n : ℕ). n) a (Map.get a b - x) b);
  deposit-free_balance = λ a x b enough. ground (arith, Map.lookup-insert a a (Map.get a b + x) b);
  deposit-total_issuance =
      λ a x b enough. ground (arith, Map.total_by-insert (λ (n : ℕ). n) a (Map.get a b + x) b);
}
