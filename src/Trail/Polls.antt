-- ===== src/Trail/Polls.antt =====
-- The state of contracts/eosio.trail as its voting actions see it: the tables of
-- contracts/eosio.trail/include/trail.voting.hpp beside those of the tokens.
pub mod Registration
pub mod Candidates
pub mod Closing
pub mod Votes
pub mod Mirror
pub mod Tally
pub mod Counted
pub mod Recast
mod Tests
use telos_arbitration_fix.Prelude.{ℕ}
use telos_arbitration_fix.Eosio.{Name, Table}
use telos_arbitration_fix.Trail.Tokens.{Wallets}
use telos_arbitration_fix.Trail.Voting.{VoteReceipt, Proposal, Elections}

-- `env_struct.totals`: proposals, elections and leaderboards.
pub record Totals : Type 0 where
  pub proposals : ℕ
  pub elections : ℕ
  pub leaderboards : ℕ

-- `env`, whose `time_now` the constructor sets to the time of the host.
pub record Env : Type 0 where
  pub publisher : Name
  pub totals : Totals
  pub last_ballot_id : ℕ

-- Receipts are scoped by the voter and keyed by the ballot.
pub record Polls : Type 0 where
  pub wallets : Wallets
  pub boards : Elections
  pub proposals : Table Proposal
  pub votereceipts : Table (Table VoteReceipt)
  pub env : Env
