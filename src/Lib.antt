-- ===== src/Lib.antt =====
-- Two parts of the network pallet. Staking: node stake, the pools of delegate stake of subnets and of
-- validators, overwatch stake, delegate balances, the unbonding ledger that every withdrawal goes
-- through, the queue of swaps between pools, and the dispatchable calls over them. Consensus: the
-- epochs, the nodes of a subnet with their election slots, reputations, proposals, attestations and
-- slashes, and the weights that overwatch nodes commit to and reveal.
--
-- How the parts interact. A dispatchable (StakingCalls) tests the pause and its target and calls a
-- `do_` function of a component. A deposit takes money from the caller's balance (Accounts, over the
-- interface `Currency` of State/Money) and gives stake (NodeStake, OverwatchStake) or shares of a pool
-- (DelegateStake, ValidatorStake, over Pools). A withdrawal makes room in the caller's ledger, which
-- may pay due entries, takes the stake, and writes an entry to the ledger (Unbonding). A swap takes
-- shares of one pool and puts the balance into the queue (SwapQueue); each block executes ready
-- swaps, which deposit into the target pool.
--
-- The elected validator of a subnet's epoch (Epochs) proposes scores, and nodes that hold an election
-- slot (Nodes) attest to them (Consensus). A validator whose proposal was not attested loses stake
-- (NodeStake) and reputation (Reputation), and below a threshold its node is removed (Nodes), which
-- takes it out of the slots. Where the proposal was attested, the nodes are paid by their scores
-- (Rewards), into their stake, their validators' pools and delegate accounts. Overwatch nodes weigh the subnets by commit and reveal (Overwatch), in
-- two periods of an overwatch epoch (Epochs). The record `Consensus` holds the storage of the nodes,
-- the node stake and the submissions; the staking record `State` holds what staking reads of the
-- nodes; the two share NodeStake.
--
-- Files and code:
--   Common            lists, storage maps, ascending maps, u32 and u128 arithmetic, i128 flows
--   Math              percent_mul, percent_div, checked_mul_div, and two curves over floats:
--                     pallets/network/src/utilities/math.rs
--   Shares            convert_to_shares, convert_to_balance: pallets/network/src/stake/staking_utils.rs
--   State             the storage of pallets/network/src/lib.rs, errors, calls, and `Currency`
--   Accounts          balances of accounts (stake/staking_utils.rs), rate limit, pause and issuance
--                     (pallets/network/src/utilities/misc.rs)
--   Unbonding         the ledger: pallets/network/src/stake/staking_utils.rs
--   NodeStake         pallets/network/src/stake/node_staking.rs, and clean_validator_subnet_nodes of
--                     pallets/network/src/utilities/subnet_node.rs
--   Pools             the code that delegate_staking.rs and validator_delegate_staking.rs share
--   DelegateStake     pallets/network/src/stake/delegate_staking.rs
--   ValidatorStake    pallets/network/src/stake/validator_delegate_staking.rs
--   OverwatchStake    pallets/network/src/stake/overwatch_node_staking.rs
--   DelegateAccount   pallets/network/src/stake/delegate_account.rs
--   MinDelegateStake  pallets/network/src/utilities/delegate_staking.rs
--   SwapQueue         pallets/network/src/stake/staking_queue.rs and transfer_utils.rs, and
--                     execute_ready_swap_calls of pallets/network/src/lib.rs
--   StakingCalls      the calls 52 to 68, 77 and 78 of pallets/network/src/lib.rs
--   Epochs            the epoch arithmetic of pallets/network/src/utilities/era.rs
--   Nodes             classes, election slots, graduation and removal of nodes:
--                     pallets/network/src/utilities/subnet_node.rs
--   Reputation        pallets/network/src/utilities/reputation.rs
--   Consensus         pallets/network/src/consensus/subnet_validator.rs
--   Overwatch         pallets/network/src/overwatch_nodes/commit_reveal.rs, and the hotkeys of
--                     pallets/network/src/utilities/overwatch_node.rs
--   Rewards           precheck_subnet_consensus_submission and calculate_rewards of
--                     pallets/network/src/utilities/slot.rs, and the payment of a validator and of a
--                     node by pallets/network/src/bank/rewards.rs
--   Tests             concrete runs, which show that the conditions of the theorems can be met
-- The functions keep their names. A function of the pallet is a state function that returns a result
-- and a state (`Call` of State/Dispatch); what was written before an error stays written in it, and
-- only the dispatch of a call takes it back.
--
-- Numbers are natural numbers; saturation and wrap-around at u32 and u128 are written out. A product
-- or a sum of two u32s without a method wraps, as in a release build. A storage map is an
-- association list whose order is never read; account ids are numbers, which are only compared.
-- `T::Currency` is a parameter, and `IsCurrency` states what its documentation promises of
-- withdrawals and deposits. The chain's weights are a parameter too (`Meter`), and so are f64 with
-- libm (`Floats`) and the hash of a revealed weight. Byte strings are numbers, which are only
-- compared. A division by an epoch length of 0 panics; the theorems on epochs ask for a length
-- above 0.
--
-- Loops: the claim of a ledger recurses on the entries, and the execution of the queue on the rounds
-- that the limit of a block leaves, which is the bound of the loop in the code; no fuel is needed.
--
-- Not modelled: events, weights of calls, names and texts of subnets and validators; registration and
-- activation of subnets, nodes and validators, and removal of subnets; the election of validators,
-- which draws on a hash of another repository; the round of rewards as a whole, which skips removals
-- that its weight meter does not allow, emission and inflation; registration of overwatch nodes;
-- administration; the node, the runtime and the precompiles, which are glue.
pub mod Common
pub mod Math
pub mod Shares
pub mod State
pub mod Accounts
pub mod Unbonding
pub mod NodeStake
pub mod Pools
pub mod DelegateStake
pub mod ValidatorStake
pub mod OverwatchStake
pub mod DelegateAccount
pub mod MinDelegateStake
pub mod SwapQueue
pub mod StakingCalls
pub mod Epochs
pub mod Nodes
pub mod Reputation
pub mod Consensus
pub mod Overwatch
pub mod Rewards
pub mod Tests
