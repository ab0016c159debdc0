-- ===== src/Token/Types.antt =====
-- The tables of contracts/eosio.token/include/eosio.token/eosio.token.hpp.
use telos_arbitration_fix.Prelude.{List}
use telos_arbitration_fix.Eosio.{Name, Asset, Table}

pub record CurrencyStats : Type 0 where
  pub supply : Asset
  pub max_supply : Asset
  pub issuer : Name

-- `stats` is scoped and keyed by the token's code, `accounts` scoped by the owner and keyed by the
-- code. `notified` lists the accounts that transfers notify, oldest first.
pub record Ledger : Type 0 where
  pub stats : Table (Table CurrencyStats)
  pub accounts : Table (Table Asset)
  pub notified : List Name
