-- ===== src/Tests.antt =====
-- Runs of the development at concrete states: for each theorem with conditions, a state that meets
-- them. The chain's balances are a map of free balances here, whose sum is the issuance.
mod Network
mod Epochs
mod Nodes
mod Ratings
mod Rounds
mod Watch
mod Payments
mod Bank
mod Chain
mod Delegates
mod Validators
mod Stake
mod Ledger
mod Numbers
mod Queue
mod Guards
