-- ===== src/Trail/Tokens.antt =====
-- The tables of contracts/eosio.trail/include/trail.tokens.hpp.
pub mod Actions
pub mod Voters
pub mod Transfers
pub mod Seizure
mod Tests
use telos_arbitration_fix.Prelude.{ℕ, Bool, String}
use telos_arbitration_fix.Eosio.{Name, Asset, Table}

pub record TokenSettings : Type 0 where
  pub is_destructible : Bool
  pub is_proxyable : Bool
  pub is_burnable : Bool
  pub is_seizable : Bool
  pub is_max_mutable : Bool
  pub is_transferable : Bool
  pub is_recastable : Bool
  pub is_initialized : Bool
  pub counterbal_decay_rate : ℕ
  pub lock_after_initialize : Bool

pub record Registry : Type 0 where
  pub max_supply : Asset
  pub supply : Asset
  pub total_voters : ℕ
  pub total_proxies : ℕ
  pub publisher : Name
  pub info_url : String
  pub settings : TokenSettings

pub record Balance : Type 0 where
  pub owner : Name
  pub tokens : Asset

pub record Airgrab : Type 0 where
  pub recipient : Name
  pub tokens : Asset

pub record CounterBalance : Type 0 where
  pub owner : Name
  pub decayable_cb : Asset
  pub persistent_cb : Asset
  pub last_decay : ℕ

-- Registries are keyed by the token's code. Balances and counterbalances are scoped by the code and
-- keyed by the owner, airgrabs scoped by the publisher and keyed by the recipient.
pub record Wallets : Type 0 where
  pub registries : Table Registry
  pub balances : Table (Table Balance)
  pub airgrabs : Table (Table Airgrab)
  pub counterbals : Table (Table CounterBalance)
