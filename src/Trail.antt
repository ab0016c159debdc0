-- ===== src/Trail.antt =====
-- The voting contract eosio.trail.
pub mod Voting
pub mod Tokens
pub mod Polls
