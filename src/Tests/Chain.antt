-- ===== src/Tests/Chain.antt =====
-- A chain at block 1000: one subnet with one node, one validator whose coldkey is account 1, pools
-- that hold stake, a ledger with a due and a later entry, and a queue with a ready swap and a later
-- one.
use hypertensor_blockchain.Common.{◌*◌, ◌^◌, refl, false, [], ◌∷◌, arith}
use hypertensor_blockchain.Common.Lists.{All}
use hypertensor_blockchain.Common.Map
use hypertensor_blockchain.Common.BTreeMap
use hypertensor_blockchain.State.{
  State, Params, Registry, SubnetState, Unbonding, Pools, SwapQueue, swap_to_subnet_delegate_stake,
  swap_to_validator_delegate_stake,
}
use hypertensor_blockchain.Unbonding.{unbondings_of}
use hypertensor_blockchain.Unbonding.Claims.{IsPayable}
use hypertensor_blockchain.Unbonding.Balance.{IsBalanced}
use hypertensor_blockchain.NodeStake.Totals.{IsTotalled}
use hypertensor_blockchain.Pools.Backed.{IsBacked}
use hypertensor_blockchain.SwapQueue.Order.{IsQueue}
use hypertensor_blockchain.Tests.Bank.{Bank, bank}

abbrev pub params : Params
params = record {
  epoch_length = 100;
  max_swap_queue_length = 4;
  tx_pause = false;
  tx_rate_limit = 0;
  max_unbondings = 2;
  stake_cooldown_epochs = 1;
  delegate_stake_cooldown_epochs = 1;
  min_delegate_stake_deposit = 1000;
  overwatch_min_stake_balance = 100;
  max_swap_queue_calls_per_block = 2;
  min_subnet_delegate_stake_factor = 10 ^ 15;
  min_subnet_nodes = 3;
  max_subnet_nodes = 10;
  max_min_delegate_stake_multiplier = 4 * 10 ^ 18;
}

abbrev pub registry : Registry
registry = record {
  subnets_data = (1, record { friendly_id = 1; state = SubnetState.active; start_epoch = 0 }) ∷ [];
  subnet_min_stake_balance = (1, 100) ∷ [];
  subnet_max_stake_balance = (1, 100000) ∷ [];
  subnet_node_election_slots = (1, 1 ∷ []) ∷ [];
  subnet_node_validator_id = (1, (1, 1) ∷ []) ∷ [];
  subnet_node_reputation = (1, (1, 10 ^ 18) ∷ []) ∷ [];
  validators_data =
      (1, record { hotkey = 11; delegate_reward_rate = 0; last_delegate_reward_rate_update = 0 })
      ∷ [];
  validator_coldkey = (1, 1) ∷ [];
  validator_subnet_nodes = (1, (1, 1 ∷ []) ∷ []) ∷ [];
  overwatch_node_validator_id = (1, 1) ∷ [];
  overwatch_nodes = (1, 9) ∷ [];
}

-- Account 1 holds 900000 of the 901000 shares of a pool of 1000000; 1000 shares are dead.
abbrev pub pools : Pools
pools = record {
  account_shares = (1, (1, 900000) ∷ []) ∷ [];
  pool_shares = (1, 901000) ∷ [];
  pool_balance = (1, 1000000) ∷ [];
  total_balance = 1000000;
}

abbrev pub unbonding : Unbonding
unbonding = record {
  stake_unbonding_ledger = (1, (900, 50) ∷ (1050, 70) ∷ []) ∷ [];
  total_unbonding_balance = 120;
}

abbrev pub queue : SwapQueue
queue = record {
  swap_queue_order = 0 ∷ 1 ∷ [];
  swap_call_queue =
      (
        0,
        record {
          id = 0;
          call = swap_to_subnet_delegate_stake 2 1 5000;
          queued_at_block = 800;
          execute_after_blocks = 100;
        },
      )
      ∷ (
        1,
        record {
          id = 1;
          call = swap_to_validator_delegate_stake 1 1 7000;
          queued_at_block = 950;
          execute_after_blocks = 100;
        },
      )
      ∷ [];
  next_swap_queue_id = 2;
}

abbrev pub chain : State Bank
chain = record {
  balances = (1, 20000) ∷ (2, 5000) ∷ [];
  block_number = 1000;
  params = params;
  registry = registry;
  last_tx_block = [];
  unbonding = unbonding;
  node_stake = record {
    node_subnet_stake = (1, (1, 500) ∷ []) ∷ [];
    total_subnet_stake = (1, 500) ∷ [];
    total_stake = 500;
  };
  subnet_pools = pools;
  subnet_net_flow = [];
  validator_pools = pools;
  overwatch_stake = record { balance_of = (1, 300) ∷ []; total_of = 300 };
  delegate_accounts = record { balance_of = (1, 40) ∷ (2, 60) ∷ []; total_of = 100 };
  total_node_delegate_stake = 0;
  swap_queue = queue;
}

pub pools-IsBacked : IsBacked pools
unfolding Map.column_sum Map.total_by Map.lookup
pools-IsBacked = record { shares = λ j. ground arith; total_lem = refl }

pub stake-IsTotalled : IsTotalled chain.node_stake
unfolding Map.column_sum Map.grand_sum Map.total_by Map.lookup
stake-IsTotalled = record { subnets = λ j. ground arith; overall = refl }

pub unbonding-IsBalanced : IsBalanced unbonding
unfolding Map.total_by Map.lookup BTreeMap.values_sum
unbonding-IsBalanced = record { total_lem = refl; sorted = λ a. ground arith }

pub unbonding-IsPayable : All (IsPayable bank) (unbondings_of 1 unbonding)
unfolding Map.lookup
unbonding-IsPayable = ((omega arith, omega arith), ((omega arith, omega arith), tt))

pub queue-IsQueue : IsQueue 4 queue
unfolding Map.lookup
queue-IsQueue =
    ((omega arith, omega arith, refl, (omega arith, omega arith, refl, tt)), omega arith)
