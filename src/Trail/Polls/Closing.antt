-- ===== src/Trail/Polls/Closing.antt =====
-- `closeballot` and `nextcycle` of contracts/eosio.trail/src/eosio.trail.cpp.
use telos_arbitration_fix.Prelude.{ℕ, ◌+◌, ◌%◌, ◌^◌, ◌==◌, ltb, ◌||◌, if◌then◌else◌}
use telos_arbitration_fix.Prelude.Int.{pos}
use telos_arbitration_fix.Eosio.{
  Result, ok, err, check, or_fail, ◌>>=◌, ◌>>◌, find, modify, Name, Host,
}
use telos_arbitration_fix.Trail.Voting.{Proposal}
use telos_arbitration_fix.Trail.Polls.{Polls}
use telos_arbitration_fix.Trail.Polls.Candidates.{update_board}

abbrev pub update_proposal : ℕ → (Proposal → Proposal) → Polls → Polls
update_proposal id f s = record s { proposals = modify id f s.proposals }

unfoldable pub close_proposal : Host → ℕ → ℕ → Name → Polls → Result Polls
close_proposal h prop_id pass publisher s = do
  prop ← or_fail (find prop_id s.proposals) "proposal doesn't exist"
  check (ltb prop.end_time h.now) "can't close proposal while voting is still open"
  check (prop.publisher == publisher) "cannot close another account's proposal"
  ok (update_proposal prop_id (λ a. record a { status = pass }) s)

unfoldable pub close_leaderboard : Host → ℕ → ℕ → Name → Polls → Result Polls
close_leaderboard h board_id pass publisher s = do
  board ← or_fail (find board_id s.boards.leaderboards) "leaderboard doesn't exist"
  check (ltb board.end_time h.now) "cannot close leaderboard while voting is still open"
  check (board.publisher == publisher) "cannot close another account's leaderboard"
  ok (update_board board_id (λ a. record a { status = pass }) s)

unfoldable pub closeballot : Host → Name → ℕ → ℕ → Polls → Result Polls
unfolding close_proposal close_leaderboard
closeballot h publisher ballot_id pass s = do
  check (h.has_auth publisher) "missing authority"
  bal ← or_fail (find ballot_id s.boards.ballots) "ballot with given ballot_id doesn't exist"
  if bal.table_id == 0
      then close_proposal h bal.reference_id pass publisher s
      else if bal.table_id == 1
      then err "feature still in development..."
      else if bal.table_id == 2
      then close_leaderboard h bal.reference_id pass publisher s
      else ok s

-- Any account may call it; `cycle_count` is a uint16_t.
unfoldable pub nextcycle : Host → Name → ℕ → ℕ → ℕ → Polls → Result Polls
nextcycle h publisher ballot_id new_begin_time new_end_time s = do
  check (h.has_auth publisher) "missing authority"
  check (ltb new_begin_time new_end_time) "begin time must be less than end time"
  bal ← or_fail (find ballot_id s.boards.ballots) "Ballot Doesn't Exist"
  check (bal.table_id == 0) "ballot type doesn't support cycles"
  prop ← or_fail (find bal.reference_id s.proposals) "proposal doesn't exist"
  check (ltb h.now prop.begin_time || ltb prop.end_time h.now)
      "a proposal can only be cycled before begin_time or after end_time"
  zero ← h.make_asset (pos 0) prop.no_count.symbol
  ok (
      update_proposal bal.reference_id
        (λ a. record a {
          no_count = zero;
          yes_count = zero;
          abstain_count = zero;
          unique_voters = 0;
          begin_time = new_begin_time;
          end_time = new_end_time;
          cycle_count = (a.cycle_count + 1) % 2 ^ 16;
          status = 0;
        })
        s)
