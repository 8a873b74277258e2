-- ===== src/Tests/Network.antt =====
-- A subnet at block 1000, in the middle of its epoch 9: three nodes of class Validator, of which
-- node 2 is elected, and floats as fixed-point numbers.
use hypertensor_blockchain.Common.{
  ℕ, zero, suc, ◌↔◌, ◌+◌, ◌-◌, ◌*◌, ◌/◌, ◌^◌, ◌≡◌, refl, none, some, [], ◌∷◌, arith, ltb, leb,
}
use hypertensor_blockchain.Common.Map
use hypertensor_blockchain.State.{NodeStake}
use hypertensor_blockchain.Math.Floats.{Floats}
use hypertensor_blockchain.Epochs.{Clock}
use hypertensor_blockchain.Nodes.{Nodes, SubnetNode, SubnetNodeClass, ElectionSlots}
use hypertensor_blockchain.Nodes.Slots.{contains, get_elem?}
use hypertensor_blockchain.Nodes.Index.{IsIndexed}
use hypertensor_blockchain.Nodes.Removed.{IsStaffed}
use hypertensor_blockchain.NodeStake.Totals.{IsTotalled}
use hypertensor_blockchain.Consensus.{Consensus, ConsensusParams}
use hypertensor_blockchain.Consensus.Steps.{AllSound}

-- Numbers with eighteen decimals; `pow` and `exp` are the identity.
abbrev pub fixed : Floats ℕ
fixed = record {
  of_u128 = λ n. n * 10 ^ 18;
  as_u128 = λ x. x / 10 ^ 18;
  add = λ x y. x + y;
  sub = λ x y. x - y;
  mul = λ x y. x * y / 10 ^ 18;
  div = λ x y. x * 10 ^ 18 / y;
  abs = λ x. x;
  lt = ltb;
  le = leb;
  pow = λ x y. x;
  exp = λ x. x;
}

abbrev pub clock : Clock
clock = record {
  block_number = 1000;
  epoch_length = 100;
  overwatch_epoch_length_multiplier = 10;
  overwatch_commit_cutoff_percent = 5 * 10 ^ 17;
  subnet_slot = (1, 50) ∷ [];
}

abbrev pub node : ℕ → SubnetNode
node i = record {
  id = i;
  validator_id = i;
  peer_info = record { peer_id = i; multiaddr = none };
  bootnode_peer_info = none;
  client_peer_info = none;
  classification = record { node_class = SubnetNodeClass.validator; start_epoch = 1 };
  unique = none;
  non_unique = none;
}

abbrev pub slots : ElectionSlots
slots = record {
  node_ids = (1, 1 ∷ 2 ∷ 3 ∷ []) ∷ [];
  node_slot_index = (1, (1, 0) ∷ (2, 1) ∷ (3, 2) ∷ []) ∷ [];
  total_subnet_electable_nodes = (1, 3) ∷ [];
  total_electable_nodes = 3;
}

abbrev pub nodes : Nodes
nodes = record {
  subnet_nodes_data = (1, (1, node 1) ∷ (2, node 2) ∷ (3, node 3) ∷ []) ∷ [];
  registered_subnet_nodes_data = [];
  subnet_node_queue = [];
  slots = slots;
  emergency_subnet_node_election_data = [];
  uniques = record {
    unique_param_subnet_node_id = [];
    peer_id_subnet_node_id = (1, (1, 1) ∷ (2, 2) ∷ (3, 3) ∷ []) ∷ [];
    bootnode_peer_id_subnet_node_id = [];
    client_peer_id_subnet_node_id = [];
    multiaddr_subnet_node_id = [];
  };
  subnet_node_id_hotkey = [];
  validator_id_hotkey = (1, 11) ∷ (2, 12) ∷ (3, 13) ∷ [];
  subnet_node_validator_id = (1, (1, 1) ∷ (2, 2) ∷ (3, 3) ∷ []) ∷ [];
  subnet_node_reputation = (1, (1, 10 ^ 18) ∷ (2, 10 ^ 17) ∷ (3, 10 ^ 18) ∷ []) ∷ [];
  subnet_node_idle_consecutive_epochs = [];
  subnet_node_consecutive_included_epochs = [];
  validator_subnet_nodes = (1, (1, 1 ∷ []) ∷ []) ∷ (2, (1, 2 ∷ []) ∷ []) ∷ [];
  validator_reputation = [];
  counts = record {
    total_active_subnet_nodes = (1, 3) ∷ [];
    total_active_nodes = 3;
    total_subnet_nodes = (1, 3) ∷ [];
    total_nodes = 3;
  };
}

abbrev pub consensus_params : ConsensusParams
consensus_params = record {
  base_slash_percentage = 10 ^ 17;
  max_slash_amount = 10 ^ 18;
  min_attestation_percentage = 66 * 10 ^ 16;
  base_validator_reward = 10 ^ 18;
  validator_reward_k = 12;
  validator_reward_midpoint = 5 * 10 ^ 17;
  attestor_min_reward_factor = 10 ^ 17;
  attestor_reward_exponent = 2;
  queue_immunity_epochs = [];
}

abbrev pub stake : NodeStake
stake = record {
  node_subnet_stake = (1, (1, 500) ∷ []) ∷ (2, (1, 700) ∷ []) ∷ [];
  total_subnet_stake = (1, 1200) ∷ [];
  total_stake = 1200;
}

abbrev pub consensus : Consensus
consensus = record {
  clock = clock;
  params = consensus_params;
  nodes = nodes;
  node_stake = stake;
  subnet_elected_validator = (1, (9, 2) ∷ []) ∷ [];
  subnet_consensus_submission = [];
}

nodes_inverse :
    (n i : ℕ)
    → (Map.lookup n ((1, 0) ∷ (2, 1) ∷ (3, 2) ∷ []) ≡ some i)
      ↔ (get_elem? (1 ∷ 2 ∷ 3 ∷ []) i ≡ some n)
unfolding Map.lookup
nodes_inverse n zero = ground arith
nodes_inverse n (suc zero) = ground arith
nodes_inverse n (suc (suc zero)) = ground arith
nodes_inverse n (suc (suc (suc i))) = ground arith

pub slots-IsIndexed : (b : ℕ) → IsIndexed b slots
unfolding Map.lookup
slots-IsIndexed b = record {
  inverse = λ n i. ground (arith, nodes_inverse n i);
  count = ground arith;
  fits = ground arith;
}

pub nodes-IsStaffed : IsStaffed nodes
unfolding Map.lookup contains
nodes-IsStaffed b y h = ground arith

pub stake-IsTotalled : IsTotalled stake
unfolding Map.column_sum Map.grand_sum Map.total_by Map.lookup
stake-IsTotalled = record { subnets = λ j. ground arith; overall = refl }

pub consensus-AllSound : AllSound consensus
unfolding Map.lookup
consensus-AllSound s e sub h = absurd (ground arith)
