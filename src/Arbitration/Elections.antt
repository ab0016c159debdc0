-- ===== src/Arbitration/Elections.antt =====
-- The region Arb_Elections of contracts/eosio.arbitration/src/eosio.arbitration.cpp. `e` holds the
-- tables of eosio.trail as they stand when the action runs; inline actions change them later.
use telos_arbitration_fix.Prelude.{
  ℕ, true, false, not, ◌||◌, none, some, List, String, ◌==◌, ltb, if◌then◌else◌,
}
use telos_arbitration_fix.Prelude.Int.{ℤ}
use telos_arbitration_fix.Eosio.{
  Result, ok, check, or_fail, ◌>>=◌, ◌>>◌, find, modify, erase, emplace, keys, Name, Host,
}
use telos_arbitration_fix.Eosio.Names
use telos_arbitration_fix.Trail.Voting.{Leaderboard, Elections}
use telos_arbitration_fix.Arbitration.Types.{Sent, State, closed}
use telos_arbitration_fix.Arbitration.ArbStatus.{seat_expired}
use telos_arbitration_fix.Arbitration.Helpers.{
  send, validate_ipfs_url, has_available_seats, start_new_election,
}

-- `ballots.get` and `leaderboards.get` of the current ballot
unfoldable pub current_board : Elections → State → Result Leaderboard
current_board e s = do
  bal ← or_fail (find s.config.current_ballot_id e.ballots) "Ballot doesn't exist"
  or_fail (find bal.reference_id e.leaderboards) "Leaderboard doesn't exist"

unfoldable pub setconfig : Host → ℕ → ℕ → ℕ → ℕ → List ℤ → State → Result State
setconfig h max_elected_arbs election_duration election_start arbitrator_term_length fees s = do
  check (h.has_auth Names.eosio) "missing authority"
  check (ltb 0 max_elected_arbs) "Arbitrators must be greater than 0"
  ok (record s {
    config = record {
      publisher = h.self;
      max_elected_arbs = max_elected_arbs;
      election_duration = election_duration;
      election_start = election_start;
      fee_structure = fees;
      arb_term_length = arbitrator_term_length;
      last_time_edited = h.now;
      current_ballot_id = s.config.current_ballot_id;
      auto_start_election = s.config.auto_start_election;
    };
  })

unfoldable pub initelection : Host → Elections → State → Result State
unfolding has_available_seats start_new_election
initelection h e s = do
  check (h.has_auth Names.eosio) "missing authority"
  check (not s.config.auto_start_election) "Election is on auto start mode."
  let s₁ = record s {
    config = record (s.config) {
      current_ballot_id = h.available_primary_key (keys e.ballots);
      auto_start_election = true;
    };
  }
  let (available_seats, s₂) = has_available_seats h s₁
  ok (if ltb 0 available_seats then start_new_election h available_seats s₂ else s₂)

-- Marks the seat of a nominee who was an arbitrator, if the term is over.
unfoldable pub expire_own_seat : Host → Name → State → Result State
expire_own_seat h nominee s = elim (find nominee s.arbitrators) [
  | none ↦ ok s
  | some arb ↦ do
    check (ltb arb.term_expiration h.now)
        "Nominee is already an Arbitrator and the seat hasn't expired"
    ok (record s {
      arbitrators = modify nominee (λ a. record a { arb_status = seat_expired }) s.arbitrators;
    })
]

unfoldable pub regarb : Host → Name → String → State → Result State
unfolding validate_ipfs_url expire_own_seat
regarb h nominee credentials_link s = do
  check (h.has_auth nominee) "missing authority"
  validate_ipfs_url credentials_link
  check (elim (find nominee s.nominees) [ none ↦ true | some _ ↦ false ])
      "Nominee is already an applicant"
  s₁ ← expire_own_seat h nominee s
  nominees ←
      emplace nominee
        (record {
          nominee_name = nominee;
          credentials_link = credentials_link;
          application_time = h.now;
        })
        s₁.nominees
  ok (record s₁ { nominees = nominees })

unfoldable pub unregnominee : Host → Elections → Name → State → Result State
unfolding current_board
unregnominee h e nominee s = do
  check (h.has_auth nominee) "missing authority"
  or_fail (find nominee s.nominees) "Nominee isn't an applicant"
  board ← current_board e s
  check (not s.config.auto_start_election || ltb h.now board.begin_time)
      "Cannot unregister while election is in progress"
  ok (record s { nominees = erase nominee s.nominees })

unfoldable pub candaddlead : Host → Elections → Name → String → State → Result State
unfolding validate_ipfs_url current_board
candaddlead h e nominee credentials_link s = do
  check (h.has_auth nominee) "missing authority"
  validate_ipfs_url credentials_link
  check s.config.auto_start_election "there is no active election"
  or_fail (find nominee s.nominees)
      "Nominee isn't an applicant. Use regarb action to register as a nominee"
  board ← current_board e s
  check (not (board.status == closed))
      "A new election hasn't started. Use initelection action to start a new election."
  ok (send (Sent.addcandidate h.self s.config.current_ballot_id nominee credentials_link) s)

unfoldable pub candrmvlead : Host → Name → State → Result State
candrmvlead h nominee s = do
  check (h.has_auth nominee) "missing authority"
  or_fail (find nominee s.nominees) "Nominee isn't an applicant."
  ok (send (Sent.rmvcandidate h.self s.config.current_ballot_id nominee) s)
