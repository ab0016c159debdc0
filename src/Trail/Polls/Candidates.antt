-- ===== src/Trail/Polls/Candidates.antt =====
-- The actions on candidates and seats of the region Ballot_Actions of
-- contracts/eosio.trail/src/eosio.trail.cpp.
use telos_arbitration_fix.Prelude.{
  ℕ, Bool, false, not, List, [], ◌∷◌, ◌++◌, String, ◌==◌, ◌||◌, ltb, length, if◌then◌else◌,
}
use telos_arbitration_fix.Prelude.Int.{pos}
use telos_arbitration_fix.Eosio.{Result, ok, check, or_fail, ◌>>=◌, ◌>>◌, find, modify, Name, Host}
use telos_arbitration_fix.Trail.Voting.{Candidate, Ballot, Leaderboard}
use telos_arbitration_fix.Trail.Polls.{Polls}

-- `std::find_if` by the member
unfoldable pub has_member : Name → List Candidate → Bool
has_member n [] = false
has_member n (c ∷ cs) = c.member == n || has_member n cs

-- The loop of `rmvcandidate`: the first candidate of the name goes.
unfoldable pub erase_member : Name → List Candidate → List Candidate
erase_member n [] = []
erase_member n (c ∷ cs) = if c.member == n then cs else c ∷ erase_member n cs

-- The leaderboard of a ballot, which these actions look up and check alike.
unfoldable pub board_of : ℕ → Polls → Result (Ballot × Leaderboard)
board_of ballot_id s = do
  bal ← or_fail (find ballot_id s.boards.ballots) "ballot with given ballot_id doesn't exist"
  check (bal.table_id == 2) "ballot type doesn't support candidates"
  board ← or_fail (find bal.reference_id s.boards.leaderboards) "leaderboard doesn't exist"
  ok (bal, board)

abbrev pub update_board : ℕ → (Leaderboard → Leaderboard) → Polls → Polls
update_board id f s = record s {
  boards = record (s.boards) { leaderboards = modify id f s.boards.leaderboards };
}

unfoldable pub addcandidate : Host → Name → ℕ → Name → String → Polls → Result Polls
unfolding board_of has_member
addcandidate h publisher ballot_id new_candidate info_link s = do
  check (h.has_auth publisher) "missing authority"
  check (h.is_account new_candidate) "new candidate is not an account"
  (bal, board) ← board_of ballot_id s
  check (ltb 0 board.available_seats) "num_seats must be a non-zero number"
  check (board.publisher == publisher) "cannot add candidate to another account's leaderboard"
  check (ltb h.now board.begin_time) "cannot add candidates once voting has begun"
  check (not (has_member new_candidate board.candidates)) "candidate already in leaderboard"
  zero ← h.make_asset (pos 0) board.voting_symbol
  let new_candidate_struct : Candidate = record {
    member = new_candidate;
    info_link = info_link;
    votes = zero;
    status = 0;
  }
  ok (
      update_board bal.reference_id
        (λ a. record a { candidates = a.candidates ++ new_candidate_struct ∷ [] }) s)

unfoldable pub setallcands : Host → Name → ℕ → List Candidate → Polls → Result Polls
unfolding board_of
setallcands h publisher ballot_id new_candidates s = do
  check (h.has_auth publisher) "missing authority"
  (bal, board) ← board_of ballot_id s
  check (board.publisher == publisher) "cannot change candidates on another account's leaderboard"
  check (ltb h.now board.begin_time) "cannot change candidates once voting has begun"
  ok (update_board bal.reference_id (λ a. record a { candidates = new_candidates }) s)

-- The loop of `set_candidate_statuses`, over lists of one length.
unfoldable pub zip_statuses : List Candidate → List ℕ → List Candidate
zip_statuses [] ns = []
zip_statuses (c ∷ cs) [] = c ∷ cs
zip_statuses (c ∷ cs) (n ∷ ns) = record c { status = n } ∷ zip_statuses cs ns

unfoldable pub set_candidate_statuses : List Candidate → List ℕ → Result (List Candidate)
unfolding zip_statuses
set_candidate_statuses candidate_list new_status_list = do
  check (length candidate_list == length new_status_list)
      "status list does not correctly map to candidate list"
  ok (zip_statuses candidate_list new_status_list)

unfoldable pub setallstats : Host → Name → ℕ → List ℕ → Polls → Result Polls
unfolding board_of set_candidate_statuses
setallstats h publisher ballot_id new_cand_statuses s = do
  check (h.has_auth publisher) "missing authority"
  (bal, board) ← board_of ballot_id s
  check (board.publisher == publisher)
      "cannot change candidate statuses on another account's leaderboard"
  check (ltb board.end_time h.now) "cannot change candidate statuses until voting has ended"
  new_cands ← set_candidate_statuses board.candidates new_cand_statuses
  ok (update_board bal.reference_id (λ a. record a { candidates = new_cands }) s)

unfoldable pub rmvcandidate : Host → Name → ℕ → Name → Polls → Result Polls
unfolding board_of has_member erase_member
rmvcandidate h publisher ballot_id candidate s = do
  check (h.has_auth publisher) "missing authority"
  (bal, board) ← board_of ballot_id s
  check (board.publisher == publisher) "cannot remove candidate from another account's leaderboard"
  check (ltb h.now board.begin_time) "cannot remove candidates once voting has begun"
  check (has_member candidate board.candidates) "candidate not found in leaderboard list"
  ok (
      update_board bal.reference_id
        (λ a. record a { candidates = erase_member candidate board.candidates }) s)

-- It does not ask what kind of ballot it is, and reads the reference as one to a leaderboard.
unfoldable pub setseats : Host → Name → ℕ → ℕ → Polls → Result Polls
setseats h publisher ballot_id num_seats s = do
  check (h.has_auth publisher) "missing authority"
  check (ltb 0 num_seats) "num seats must be greater than 0"
  bal ← or_fail (find ballot_id s.boards.ballots) "ballot with given ballot_id doesn't exist"
  board ← or_fail (find bal.reference_id s.boards.leaderboards) "leaderboard doesn't exist"
  check (ltb h.now board.begin_time) "cannot set seats after voting has begun"
  check (board.publisher == publisher) "cannot set seats for another account's leaderboard"
  ok (update_board bal.reference_id (λ a. record a { available_seats = num_seats }) s)
