-- ===== src/Eosio.antt =====
-- What the contracts use of their host chain: failure of an action, multi-index tables, names and
-- assets, and the host itself as a parameter.
mod Outcome
mod MultiIndex
mod Platform
pub mod Sums
pub mod Accounts
pub mod Example
pub mod Names
pub use Outcome.*
pub use MultiIndex.*
pub use Platform.*
