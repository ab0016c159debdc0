-- ===== src/Trail/Polls/Registration.antt =====
-- The region Ballot_Registration of contracts/eosio.trail/src/eosio.trail.cpp and its helpers.
use telos_arbitration_fix.Prelude.{ℕ, ◌+◌, ◌-◌, ◌%◌, ◌^◌, [], String, ◌==◌, ltb, leb, if◌then◌else◌}
use telos_arbitration_fix.Prelude.Int.{pos}
use telos_arbitration_fix.Eosio.{
  Result, ok, err, check, or_fail, ◌>>=◌, ◌>>◌, find, erase, emplace, keys, Name, Symbol, Host,
}
use telos_arbitration_fix.Trail.Polls.{Polls}

-- The id of the new proposal, and the state with it.
unfoldable pub make_proposal : Host → Name → Symbol → ℕ → ℕ → String → Polls → Result (ℕ × Polls)
make_proposal h publisher voting_symbol begin_time end_time info_url s = do
  let new_prop_id = h.available_primary_key (keys s.proposals)
  zero ← h.make_asset (pos 0) voting_symbol
  proposals ←
      emplace new_prop_id
        (record {
          prop_id = new_prop_id;
          publisher = publisher;
          info_url = info_url;
          no_count = zero;
          yes_count = zero;
          abstain_count = zero;
          unique_voters = 0;
          begin_time = begin_time;
          end_time = end_time;
          cycle_count = 0;
          status = 0;
        })
        s.proposals
  ok (new_prop_id, record s { proposals = proposals })

unfoldable pub delete_proposal : Host → ℕ → Name → Polls → Result Polls
delete_proposal h prop_id publisher s = do
  prop ← or_fail (find prop_id s.proposals) "proposal doesn't exist"
  check (ltb h.now prop.begin_time) "cannot delete proposal once voting has begun"
  check (prop.publisher == publisher) "cannot delete another account's proposal"
  check (prop.cycle_count == 0) "proposal must be on initial cycle to delete"
  ok (record s { proposals = erase prop_id s.proposals })

-- The id of the new leaderboard, and the state with it.
unfoldable pub make_leaderboard : Host → Name → Symbol → ℕ → ℕ → String → Polls → Result (ℕ × Polls)
make_leaderboard h publisher voting_symbol begin_time end_time info_url s = do
  check (h.has_auth publisher) "missing authority"
  let new_board_id = h.available_primary_key (keys s.boards.leaderboards)
  leaderboards ←
      emplace new_board_id
        (record {
          board_id = new_board_id;
          publisher = publisher;
          info_url = info_url;
          candidates = [];
          unique_voters = 0;
          voting_symbol = voting_symbol;
          available_seats = 0;
          begin_time = begin_time;
          end_time = end_time;
          status = 0;
        })
        s.boards.leaderboards
  ok (new_board_id, record s { boards = record (s.boards) { leaderboards = leaderboards } })

unfoldable pub delete_leaderboard : Host → ℕ → Name → Polls → Result Polls
delete_leaderboard h board_id publisher s = do
  board ← or_fail (find board_id s.boards.leaderboards) "leaderboard doesn't exist"
  check (ltb h.now board.begin_time) "cannot delete leaderboard once voting has begun"
  check (board.publisher == publisher) "cannot delete another account's leaderboard"
  ok (record s {
    boards = record (s.boards) { leaderboards = erase board_id s.boards.leaderboards };
  })

-- The totals are uint64_t.
abbrev pub count_up : ℕ → ℕ
count_up n = (n + 1) % 2 ^ 64

abbrev pub count_down : ℕ → ℕ
count_down n = (n + (2 ^ 64 - 1)) % 2 ^ 64

-- The first `switch` of `regballot`: what the ballot refers to.
unfoldable pub make_reference :
    Host → Name → ℕ → Symbol → ℕ → ℕ → String → Polls → Result (ℕ × Polls)
unfolding make_proposal make_leaderboard
make_reference h publisher ballot_type voting_symbol begin_time end_time info_url s =
    if ballot_type == 0
    then (do
      (new_ref_id, s₁) ← make_proposal h publisher voting_symbol begin_time end_time info_url s
      let e = s₁.env
      let totals = record (e.totals) { proposals = count_up e.totals.proposals }
      ok (new_ref_id, record s₁ { env = record e { totals = totals } }))
    else if ballot_type == 1
    then err "feature still in development..."
    else (do
      (new_ref_id, s₁) ← make_leaderboard h publisher voting_symbol begin_time end_time info_url s
      let e = s₁.env
      let totals = record (e.totals) { leaderboards = count_up e.totals.leaderboards }
      ok (new_ref_id, record s₁ { env = record e { totals = totals } }))

unfoldable pub regballot : Host → Name → ℕ → Symbol → ℕ → ℕ → String → Polls → Result Polls
unfolding make_reference
regballot h publisher ballot_type voting_symbol begin_time end_time info_url s = do
  check (h.has_auth publisher) "missing authority"
  check (leb ballot_type 2) "invalid ballot type"
  check (ltb begin_time end_time) "begin time must be less than end time"
  or_fail (find voting_symbol.code s.wallets.registries)
      "Token registry with that symbol doesn't exist in Trail"
  (new_ref_id, s₁) ←
      make_reference h publisher ballot_type voting_symbol begin_time end_time info_url s
  let new_ballot_id = h.available_primary_key (keys s₁.boards.ballots)
  ballots ←
      emplace new_ballot_id
        (record { ballot_id = new_ballot_id; table_id = ballot_type; reference_id = new_ref_id })
        s₁.boards.ballots
  ok (record s₁ {
    boards = record (s₁.boards) { ballots = ballots };
    env = record (s₁.env) { last_ballot_id = new_ballot_id };
  })

abbrev pub erase_ballot : ℕ → Polls → Polls
erase_ballot id s = record s { boards = record (s.boards) { ballots = erase id s.boards.ballots } }

unfoldable pub unregballot : Host → Name → ℕ → Polls → Result Polls
unfolding delete_proposal delete_leaderboard
unregballot h publisher ballot_id s = do
  check (h.has_auth publisher) "missing authority"
  bal ← or_fail (find ballot_id s.boards.ballots) "Ballot Doesn't Exist"
  if bal.table_id == 0
      then (do
        s₁ ← delete_proposal h bal.reference_id publisher s
        let e = s₁.env
        let totals = record (e.totals) { proposals = count_down e.totals.proposals }
        ok (erase_ballot ballot_id (record s₁ { env = record e { totals = totals } })))
      else if bal.table_id == 1
      then err "feature still in development..."
      else if bal.table_id == 2
      then (do
        s₁ ← delete_leaderboard h bal.reference_id publisher s
        let e = s₁.env
        let totals = record (e.totals) { leaderboards = count_down e.totals.leaderboards }
        ok (erase_ballot ballot_id (record s₁ { env = record e { totals = totals } })))
      else ok s
