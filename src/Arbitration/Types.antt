-- ===== src/Arbitration/Types.antt =====
-- The enums, tables and state of contracts/eosio.arbitration/include/eosio.arbitration/
-- eosio.arbitration.hpp. Statuses stay numbers, since the code compares and increments them.
use telos_arbitration_fix.Prelude.{ℕ, Bool, List, String}
use telos_arbitration_fix.Prelude.Int.{ℤ}
use telos_arbitration_fix.Eosio.{Name, Asset, Symbol, Table}

-- The bounds of enum claim_class that the code names.
abbrev pub undecided : ℕ
undecided = 1

abbrev pub misc : ℕ
misc = 15

-- CLOSED of enum election_status
abbrev pub closed : ℕ
closed = 3

abbrev pub max_unread_claims : ℕ
max_unread_claims = 21

-- MIN_VOTE_THRESHOLD
abbrev pub min_vote_threshold : ℕ
min_vote_threshold = 1

pub record Nominee : Type 0 where
  pub nominee_name : Name
  pub credentials_link : String
  pub application_time : ℕ

pub record Arbitrator : Type 0 where
  pub arb : Name
  pub arb_status : ℕ
  pub open_case_ids : List ℕ
  pub closed_case_ids : List ℕ
  pub credentials_link : String
  pub elected_time : ℕ
  pub term_expiration : ℕ
  pub languages : List ℕ

pub record Claim : Type 0 where
  pub claim_id : ℕ
  pub claim_summary : String
  pub decision_link : String
  pub response_link : String
  pub decision_class : ℕ

pub record Casefile : Type 0 where
  pub case_id : ℕ
  pub case_status : ℕ
  pub claimant : Name
  pub respondant : Name
  pub arbitrators : List Name
  pub approvals : List Name
  pub required_langs : List ℕ
  pub unread_claims : List Claim
  pub accepted_claims : List ℕ
  pub case_ruling : String
  pub last_edit : ℕ

pub record Config : Type 0 where
  pub publisher : Name
  pub max_elected_arbs : ℕ
  pub election_duration : ℕ
  pub election_start : ℕ
  pub fee_structure : List ℤ
  pub arb_term_length : ℕ
  pub last_time_edited : ℕ
  pub current_ballot_id : ℕ
  pub auto_start_election : Bool

-- permission_level_weight
pub record PermissionWeight : Type 0 where
  pub actor : Name
  pub permission : Name
  pub weight : ℕ

-- The accounts of an `authority`; the code leaves its keys and waits empty.
pub record Authority : Type 0 where
  pub threshold : ℕ
  pub accounts : List PermissionWeight

-- The inline actions that the contract sends, with the contract that receives each.
pub data Sent : Type 0 where
  -- eosio.trail: publisher, ballot_type, voting_symbol, begin_time, end_time, info_url
  regballot : Name → ℕ → Symbol → ℕ → ℕ → String → Sent
  -- eosio.trail: publisher, ballot_id, num_seats
  setseats : Name → ℕ → ℕ → Sent
  -- eosio.trail: publisher, ballot_id, candidate, info_link
  addcandidate : Name → ℕ → Name → String → Sent
  -- eosio.trail: publisher, ballot_id, candidate
  rmvcandidate : Name → ℕ → Name → Sent
  -- eosio.trail: publisher, ballot_id, pass
  closeballot : Name → ℕ → ℕ → Sent
  -- eosio.token: from, to, quantity, memo
  transfer : Name → Name → Asset → String → Sent
  -- eosio: account, permission, parent, auth
  updateauth : Name → Name → Name → Authority → Sent
  -- eosio.arb: new_case_id, claimant, claim_link, lang_codes, respondant
  execfile : ℕ → Name → String → List ℕ → Name → Sent
  -- self: new_claim_id, case_id, assigned_arb, claim_hash, decision_link, decision_class
  execclaim : ℕ → ℕ → Name → String → String → ℕ → Sent

-- `_config`, the tables, and the actions sent so far, oldest first. The balances of `accounts` are
-- scoped by their owner and keyed by the token's code.
pub record State : Type 0 where
  pub config : Config
  pub nominees : Table Nominee
  pub arbitrators : Table Arbitrator
  pub casefiles : Table Casefile
  pub claims : Table Claim
  pub accounts : Table (Table Asset)
  pub sent : List Sent
