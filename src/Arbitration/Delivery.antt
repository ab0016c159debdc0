-- ===== src/Arbitration/Delivery.antt =====
-- The inline actions that contracts/eosio.arbitration sends to contracts/eosio.trail, carried out
-- there: in the order in which they were sent, at the time of the action that sent them.
use mathlib.Core.List.{append_assoc}
use telos_arbitration_fix.Prelude.{
  ◌∙◌, ℕ, ◌+◌, ◌%◌, ◌^◌, ◌<◌, ◌≡◌, refl, sym, true, none, some, List, [], ◌∷◌, ◌++◌, arith,
}
use telos_arbitration_fix.Eosio.{
  Result, ok, ◌>>=◌, find, insert, modify, keys, Symbol, Host, IsDocumented, vote, find-insert,
  find-modify, find-keys,
}
use telos_arbitration_fix.Trail.Tokens.{Registry}
use telos_arbitration_fix.Trail.Voting.{Ballot, Leaderboard, Elections}
use telos_arbitration_fix.Trail.Polls.{Polls}
use telos_arbitration_fix.Trail.Polls.Registration.{
  make_reference, make_leaderboard, make_proposal, regballot, count_up,
}
use telos_arbitration_fix.Trail.Polls.Candidates.{addcandidate, rmvcandidate, setseats}
use telos_arbitration_fix.Trail.Polls.Closing.{closeballot}
use telos_arbitration_fix.Arbitration.Types.{Sent, State}
use telos_arbitration_fix.Arbitration.Helpers.{has_available_seats, start_new_election}
use telos_arbitration_fix.Arbitration.Elections.{current_board, initelection}

-- What eosio.trail does with an action; those to other contracts do not concern it.
unfoldable pub deliver_one : Host → Sent → Polls → Result Polls
deliver_one h (Sent.regballot publisher ballot_type voting_symbol begin_time end_time info_url) s =
    regballot h publisher ballot_type voting_symbol begin_time end_time info_url s
deliver_one h (Sent.setseats publisher ballot_id num_seats) s =
    setseats h publisher ballot_id num_seats s
deliver_one h (Sent.addcandidate publisher ballot_id candidate info_link) s =
    addcandidate h publisher ballot_id candidate info_link s
deliver_one h (Sent.rmvcandidate publisher ballot_id candidate) s =
    rmvcandidate h publisher ballot_id candidate s
deliver_one h (Sent.closeballot publisher ballot_id pass) s =
    closeballot h publisher ballot_id pass s
deliver_one h (Sent.transfer _ _ _ _) s = ok s
deliver_one h (Sent.updateauth _ _ _ _) s = ok s
deliver_one h (Sent.execfile _ _ _ _ _) s = ok s
deliver_one h (Sent.execclaim _ _ _ _ _ _) s = ok s

-- One that fails undoes them all.
unfoldable pub deliver : Host → List Sent → Polls → Result Polls
unfolding deliver_one
deliver h [] s = ok s
deliver h (a ∷ rest) s = do s₁ ← deliver_one h a s; deliver h rest s₁

-- The leaderboard that a contract registers and gives seats.
abbrev pub new_board : Host → ℕ → Symbol → ℕ → ℕ → ℕ → Leaderboard
new_board h id sym begin_time end_time seats = record {
  board_id = id;
  publisher = h.self;
  info_url = "";
  candidates = [];
  unique_voters = 0;
  voting_symbol = sym;
  available_seats = seats;
  begin_time = begin_time;
  end_time = end_time;
  status = 0;
}

-- A leaderboard is registered under the free keys, and its seats are set.
registered :
    (h : Host) (sym : Symbol) (b e seats : ℕ) (p : Polls) (reg : Registry)
    → IsDocumented h
    → h.has_auth h.self ≡ true
    → find sym.code p.wallets.registries ≡ some reg
    → h.now < b
    → b < e
    → 0 < seats
    → let ballot = h.available_primary_key (keys p.boards.ballots) in
      let id = h.available_primary_key (keys p.boards.leaderboards) in
      (p' : Polls) × (deliver h
          (Sent.regballot h.self 2 sym b e "" ∷ Sent.setseats h.self ballot seats ∷ [])
          p
        ≡ ok p')
      × (find ballot p'.boards.ballots
          ≡ some (record { ballot_id = ballot; table_id = 2; reference_id = id }))
      × (find id p'.boards.leaderboards ≡ some (new_board h id sym b e seats))
unfolding deliver regballot make_reference make_leaderboard make_proposal setseats
registered h sym b e seats p reg d auth found later longer some_seats =
    let ballot = h.available_primary_key (keys p.boards.ballots) in
    let id = h.available_primary_key (keys p.boards.leaderboards) in
    let free_ballot : find ballot p.boards.ballots ≡ none =
      find-keys ballot p.boards.ballots (d.fresh_key (keys p.boards.ballots)) in
    let free_board : find id p.boards.leaderboards ≡ none =
      find-keys id p.boards.leaderboards (d.fresh_key (keys p.boards.leaderboards)) in
    let row : Ballot = record { ballot_id = ballot; table_id = 2; reference_id = id } in
    let board = new_board h id sym b e 0 in
    let boards = insert id board p.boards.leaderboards in
    let f = λ (a : Leaderboard). record a { available_seats = seats } in
    let env = p.env in
    (
      record p {
        boards = record {
          ballots = insert ballot row p.boards.ballots;
          leaderboards = modify id f boards;
        };
        env = record env {
          totals = record (env.totals) { leaderboards = count_up env.totals.leaderboards };
          last_ballot_id = ballot;
        };
      },
      ground (
        arith,
        free_ballot,
        free_board,
        find-insert ballot ballot row p.boards.ballots,
        find-insert id id board p.boards.leaderboards,
      ),
      ground (arith, free_ballot, find-insert ballot ballot row p.boards.ballots),
      ground (
        arith,
        free_board,
        find-modify id id f boards,
        find-insert id id board p.boards.leaderboards,
      ),
    )

-- The seats that `initelection` finds free.
abbrev pub free_seats : Host → Elections → State → ℕ
free_seats h e s =
    (has_available_seats h (record s {
      config = record (s.config) {
        current_ballot_id = h.available_primary_key (keys e.ballots);
        auto_start_election = true;
      };
    })).0

-- The two actions that start an election of `seats` seats.
abbrev pub start_actions : Host → ℕ → ℕ → ℕ → ℕ → List Sent
start_actions h ballot b e seats =
    Sent.regballot h.self 2 vote b e "" ∷ Sent.setseats h.self ballot seats ∷ []

initelection-sent :
    (h : Host) (e : Elections) (s s' : State)
    → 0 < free_seats h e s
    → initelection h e s ≡ ok s'
    → let b = (h.now + s.config.election_start) % 2 ^ 32 in
      (s'.sent
        ≡ (s.sent
            ++ Sent.regballot h.self 2 vote b ((b + s.config.election_duration) % 2 ^ 32) "" ∷ [])
          ++ Sent.setseats h.self (h.available_primary_key (keys e.ballots)) (free_seats h e s)
            ∷ [])
      × (s'.config.current_ballot_id ≡ h.available_primary_key (keys e.ballots))
unfolding initelection start_new_election has_available_seats
initelection-sent h e s s' free done = ground arith

-- Where `initelection` succeeds and finds free seats, on a documented host that grants the contract
-- its own authority, with VOTE registered on eosio.trail, a positive start and duration, and a clock
-- that does not wrap before the end: what it sends is carried out by eosio.trail, and afterwards the
-- current ballot of the contract has a leaderboard of its own, with these seats, no candidate, and a
-- beginning in the future.
pub initelection_opens :
    (h : Host) (s s' : State) (polls : Polls) (reg : Registry)
    → IsDocumented h
    → h.has_auth h.self ≡ true
    → find vote.code polls.wallets.registries ≡ some reg
    → 0 < free_seats h polls.boards s
    → 0 < s.config.election_start
    → 0 < s.config.election_duration
    → h.now + s.config.election_start + s.config.election_duration < 2 ^ 32
    → initelection h polls.boards s ≡ ok s'
    → (new : List Sent) × (polls' : Polls) × (board : Leaderboard) × (s'.sent ≡ s.sent ++ new)
      × (deliver h new polls ≡ ok polls')
      × (current_board polls'.boards s' ≡ ok board)
      × (board.publisher ≡ h.self)
      × (board.available_seats ≡ free_seats h polls.boards s)
      × (board.candidates ≡ [])
      × (h.now < board.begin_time)
unfolding current_board
initelection_opens h s s' polls reg d auth found free soon long clock done =
    let ballot = h.available_primary_key (keys polls.boards.ballots) in
    let id = h.available_primary_key (keys polls.boards.leaderboards) in
    let b = h.now + s.config.election_start in
    let e = b + s.config.election_duration in
    let seats = free_seats h polls.boards s in
    let (sent, current) = initelection-sent h polls.boards s s' free done in
    let at_b : (h.now + s.config.election_start) % 2 ^ 32 ≡ b = omega arith in
    let at_e : (b + s.config.election_duration) % 2 ^ 32 ≡ e = omega arith in
    let (polls', carried, has_ballot, has_board) =
      registered h vote b e seats polls reg d auth found (omega arith) (omega arith) free in
    (
      start_actions h ballot b e seats,
      polls',
      new_board h id vote b e seats,
      rw (at_b, at_e) at (sent ∙ append_assoc s.sent _ _),
      carried,
      ground (arith, current, has_ballot, has_board),
      refl,
      refl,
      refl,
      omega arith,
    )
