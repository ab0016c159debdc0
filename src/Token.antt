-- ===== src/Token.antt =====
-- The token contract: contracts/eosio.token.
pub mod Types
pub mod Queries
pub mod Actions
pub mod Supply
pub mod Sound
pub mod Reachable
pub mod Transfer
mod Tests
