-- ===== src/Msig/Types.antt =====
-- The tables of contracts/eosio.msig/include/eosio.msig/eosio.msig.hpp.
use telos_arbitration_fix.Prelude.{ℕ, Bool, ◌==◌, ◌&&◌, List}
use telos_arbitration_fix.Eosio.{Name, Table, Host}

pub record PermissionLevel : Type 0 where
  pub actor : Name
  pub permission : Name

abbrev pub level_eq : PermissionLevel → PermissionLevel → Bool
level_eq a b = a.actor == b.actor && a.permission == b.permission

-- A packed transaction, byte by byte.
abbrev pub Packed : Type 0
Packed = List ℕ

pub record Proposal : Type 0 where
  pub proposal_name : Name
  pub packed_transaction : Packed

pub record OldApprovals : Type 0 where
  pub proposal_name : Name
  pub requested_approvals : List PermissionLevel
  pub provided_approvals : List PermissionLevel

-- The time is in microseconds.
pub record Approval : Type 0 where
  pub level : PermissionLevel
  pub time : ℕ

pub record Approvals : Type 0 where
  pub version : ℕ
  pub proposal_name : Name
  pub requested_approvals : List Approval
  pub provided_approvals : List Approval

pub record Invalidation : Type 0 where
  pub account : Name
  pub last_invalidation_time : ℕ

-- A transaction handed to `send_deferred`: its id, who pays, and its bytes.
pub record Deferred : Type 0 where
  pub sender_id : ℕ
  pub payer : Name
  pub transaction : Packed

-- Proposals and approvals are scoped by the proposer and keyed by the proposal's name.
pub record State : Type 0 where
  pub proposals : Table (Table Proposal)
  pub approvals : Table (Table Approvals)
  pub old_approvals : Table (Table OldApprovals)
  pub invalidations : Table Invalidation
  pub deferred : List Deferred

-- The host, with what the contract asks of it about packed transactions: the expiration in their
-- header, in seconds, whether levels authorise them, and whether a hash is theirs.
pub record MsigHost : Type 0 where
  pub host : Host
  pub open host use *
  pub expiration : Packed → ℕ
  pub authorises : Packed → List PermissionLevel → Bool
  pub sha256_matches : Packed → ℕ → Bool
