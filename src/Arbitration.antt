-- ===== src/Arbitration.antt =====
-- The arbitration contract: contracts/eosio.arbitration.
pub mod CaseState
pub mod ArbStatus
pub mod Types
pub mod Helpers
pub mod Claims
pub mod Elections
pub mod Endelection
pub mod CaseSetup
pub mod CaseProgress
pub mod ArbActions
pub mod Dispatch
pub mod Delivery
pub mod Cases
pub mod Keys
pub mod Reachable
pub mod Seats
pub mod Balances
mod Tests
