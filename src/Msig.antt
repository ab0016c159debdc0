-- ===== src/Msig.antt =====
-- The multi-signature contract: contracts/eosio.msig.
pub mod Types
pub mod Actions
pub mod Parties
pub mod Execution
mod Tests
