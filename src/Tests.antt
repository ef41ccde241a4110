-- ===== src/Tests.antt =====
-- Runs of the model at concrete inputs.
mod Sample
mod Transactions
mod Scheduled
mod Construction
mod Blocks
mod Tokens
mod Observer
mod Provider
mod Genesis
mod Balances
mod Submission
mod Status
mod Start
