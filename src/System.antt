-- ===== src/System.antt =====
-- The tables and singletons of contracts/eosio.system that its producers concern, from
-- contracts/eosio.system/include/eosio.system/eosio.system.hpp and native.hpp. A block_timestamp is
-- its slot, of half a second, and a time_point its microseconds.
pub mod Floats
pub mod Producers
pub mod Rotation
pub mod Schedule
pub mod Swaps
pub mod Turns
pub mod Doubles
pub mod Elected
pub mod Missed
pub mod Kicked
pub mod Penalty
pub mod Pay
pub mod Payments
pub mod Snapshot
pub mod Overdrawn
pub mod Voting
pub mod Proxies
pub mod Limits
pub mod Rex
pub mod Stake
pub mod Custody
pub mod Refunds
pub mod Staked
pub mod Managed
pub mod Bidding
pub mod Auction
mod Tests
pub mod Kicking
use telos_arbitration_fix.Prelude.{ℕ, Bool, List, String}
use telos_arbitration_fix.Prelude.Int.{ℤ}
use telos_arbitration_fix.Eosio.{Name, Symbol, Asset, Host, Table}
use telos_arbitration_fix.Token.Types.{Ledger}

-- A double is the number whose binary digits are its 64 bits. Public keys are numbered, from the
-- default key 0.
pub record ProducerInfo : Type 0 where
  pub owner : Name
  pub total_votes : ℕ
  pub producer_key : ℕ
  pub is_active : Bool
  pub unreg_reason : String
  pub url : String
  pub unpaid_blocks : ℕ
  pub lifetime_produced_blocks : ℕ
  pub missed_blocks_per_rotation : ℕ
  pub lifetime_missed_blocks : ℕ
  pub last_claim_time : ℕ
  pub location : ℕ
  pub kick_reason_id : ℕ
  pub kick_reason : String
  pub times_kicked : ℕ
  pub kick_penalty_hours : ℕ
  pub last_time_kicked : ℕ

-- `eosio::producer_key`, of the schedules.
pub record ProducerKey : Type 0 where
  pub producer_name : Name
  pub block_signing_key : ℕ

pub record ProducerMetric : Type 0 where
  pub bp_name : Name
  pub missed_blocks_per_cycle : ℕ

pub record ScheduleMetrics : Type 0 where
  pub last_onblock_caller : Name
  pub block_counter_correction : ℤ
  pub producers_metric : List ProducerMetric

pub record RotationState : Type 0 where
  pub bp_currently_out : Name
  pub sbp_currently_in : Name
  pub bp_out_index : ℕ
  pub sbp_in_index : ℕ
  pub next_rotation_time : ℕ
  pub last_rotation_time : ℕ

pub record PaymentInfo : Type 0 where
  pub bp : Name
  pub pay : Asset

pub record Payrates : Type 0 where
  pub bpay_rate : ℕ
  pub worker_amount : ℕ

-- `eosio_global_state`, its fields on schedules, votes and pay.
pub record GlobalState : Type 0 where
  pub last_producer_schedule_update : ℕ
  pub last_proposed_schedule_update : ℕ
  pub last_pervote_bucket_fill : ℕ
  pub perblock_bucket : ℤ
  pub total_unpaid_blocks : ℕ
  pub thresh_activated_stake_time : ℕ
  pub last_producer_schedule_size : ℕ
  pub total_activated_stake : ℤ
  pub total_producer_vote_weight : ℕ
  pub last_name_close : ℕ
  pub block_num : ℕ
  pub last_claimrewards : ℕ

-- `voter_info`, without its reserved fields.
pub record VoterInfo : Type 0 where
  pub owner : Name
  pub proxy : Name
  pub producers : List Name
  pub staked : ℤ
  pub last_stake : ℤ
  pub last_vote_weight : ℕ
  pub proxied_vote_weight : ℕ
  pub is_proxy : Bool
  pub flags1 : ℕ

-- The actions that the contract sends to eosio.token.
pub data Sent : Type 0 where
  transfer : Name → Name → Asset → String → Sent
  issue : Name → Asset → String → Sent

pub record State : Type 0 where
  pub voters : Table VoterInfo
  pub producers : Table ProducerInfo
  pub gstate : GlobalState
  pub schedule_metrics : ScheduleMetrics
  pub rotation : RotationState
  pub payrate : Payrates
  pub payments : Table PaymentInfo
  pub proposed : List ProducerKey
  pub sent : List Sent

-- What the contract reads of the chain beside the host: the conversions between time points and
-- slots, the schedule in force, the answer to a proposed schedule, the order of the index
-- prototalvote, a conversion of a double that no uint32_t holds, the arithmetic of doubles with
-- the sine, M_PI and M_PI_2, the depth of calls, the core symbol, and the tables of eosio.token.
pub record Chain : Type 0 where
  pub host : Host
  pub to_time_point : ℕ → ℕ
  pub to_slot : ℕ → ℕ
  pub active_producers : List Name
  pub set_proposed_producers : List ProducerKey → Bool
  pub by_votes : Table ProducerInfo → List ProducerInfo
  pub uint32_of_large : ℕ
  pub double_of : ℤ → ℕ
  pub double_mul : ℕ → ℕ → ℕ
  pub double_div : ℕ → ℕ → ℕ
  pub double_add : ℕ → ℕ → ℕ
  pub double_sub : ℕ → ℕ → ℕ
  pub double_sin : ℕ → ℕ
  pub pi : ℕ
  pub half_pi : ℕ
  pub int64_of : ℕ → ℤ
  pub call_depth : ℕ
  pub core_symbol : Symbol
  pub ledger : Ledger
