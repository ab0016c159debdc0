-- ===== src/Trail/Voting.antt =====
-- The voting tables of contracts/eosio.trail/include/trail.voting.hpp, which eosio.trail keeps and
-- the arbitration contract reads.
use telos_arbitration_fix.Prelude.{ℕ, List, String}
use telos_arbitration_fix.Eosio.{Name, Asset, Symbol, Table}

pub record VoteReceipt : Type 0 where
  pub ballot_id : ℕ
  pub directions : List ℕ
  pub weight : Asset
  pub expiration : ℕ

pub record Candidate : Type 0 where
  pub member : Name
  pub info_link : String
  pub votes : Asset
  pub status : ℕ

pub record Ballot : Type 0 where
  pub ballot_id : ℕ
  pub table_id : ℕ
  pub reference_id : ℕ

pub record Proposal : Type 0 where
  pub prop_id : ℕ
  pub publisher : Name
  pub info_url : String
  pub no_count : Asset
  pub yes_count : Asset
  pub abstain_count : Asset
  pub unique_voters : ℕ
  pub begin_time : ℕ
  pub end_time : ℕ
  pub cycle_count : ℕ
  pub status : ℕ

pub record Leaderboard : Type 0 where
  pub board_id : ℕ
  pub publisher : Name
  pub info_url : String
  pub candidates : List Candidate
  pub unique_voters : ℕ
  pub voting_symbol : Symbol
  pub available_seats : ℕ
  pub begin_time : ℕ
  pub end_time : ℕ
  pub status : ℕ

-- The two tables of eosio.trail that an election reads.
pub record Elections : Type 0 where
  pub ballots : Table Ballot
  pub leaderboards : Table Leaderboard
