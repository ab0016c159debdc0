-- ===== src/System/Rex.antt =====
-- The resource exchange of contracts/eosio.system/src/rex.cpp: its tables, from
-- contracts/eosio.system/include/eosio.system/eosio.system.hpp. The amounts are those of the core
-- token, or of REX where a field says so, and every balance has its own symbol for good. An int64_t
-- is an integer without bounds; the products of the code are of uint128_t and wrap.
pub mod Pool
pub mod Funds
pub mod Buckets
pub mod Balances
pub mod Orders
pub mod Loans
pub mod Actions
pub mod Holders
pub mod Surplus
pub mod Settled
pub mod Renewed
pub mod Expired
pub mod Filled
pub mod Executed
pub mod Traded
pub mod Sold
pub mod Rented
pub mod Solvent
pub mod Totals
pub mod Drained
pub mod Savings
pub mod Price
mod Tests
use telos_arbitration_fix.Prelude.{ℕ, Bool, List, Option}
use telos_arbitration_fix.Prelude.Int.{ℤ}
use telos_arbitration_fix.Eosio.{Name, Table, Symbol}
use telos_arbitration_fix.System.Limits.{Accounts}

pub record RexPool : Type 0 where
  pub total_lent : ℤ
  pub total_unlent : ℤ
  pub total_rent : ℤ
  pub total_lendable : ℤ
  pub total_rex : ℤ
  pub namebid_proceeds : ℤ
  pub loan_num : ℕ

-- The buckets, which hold REX by the second when it matures.
abbrev pub Buckets : Type 0
Buckets = List (ℕ × ℤ)

pub record RexBalance : Type 0 where
  pub owner : Name
  pub vote_stake : ℤ
  pub rex_balance : ℤ
  pub matured_rex : ℤ
  pub rex_maturities : Buckets

-- The expiration is in microseconds, as is the time of an order.
pub record RexLoan : Type 0 where
  pub from : Name
  pub receiver : Name
  pub payment : ℤ
  pub balance : ℤ
  pub total_staked : ℤ
  pub expiration : ℕ

pub record RexOrder : Type 0 where
  pub owner : Name
  pub rex_requested : ℤ
  pub proceeds : ℤ
  pub stake_change : ℤ
  pub order_time : ℕ
  pub is_open : Bool

pub record RexOrderOutcome : Type 0 where
  pub success : Bool
  pub proceeds : ℤ
  pub stake_change : ℤ

-- The pool is the one row of its table. The loans are keyed by their numbers, and the other tables
-- by the owner.
pub record RexState : Type 0 where
  pub accounts : Accounts
  pub rexpool : Option RexPool
  pub rexfunds : Table ℤ
  pub rexbalance : Table RexBalance
  pub rexorders : Table RexOrder
  pub cpu_loans : Table RexLoan
  pub net_loans : Table RexLoan

-- The symbol (REX, 4).
abbrev pub rex_symbol : Symbol
rex_symbol = record { code = 5784914; precision = 4 }
