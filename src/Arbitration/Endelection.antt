-- ===== src/Arbitration/Endelection.antt =====
-- `endelection` of contracts/eosio.arbitration/src/eosio.arbitration.cpp: the count, the ties, the
-- seats and the next election. The candidates of a leaderboard hold votes of its one symbol, so
-- votes compare by their amounts.
pub mod Ties
use telos_arbitration_fix.Prelude.{
  ℕ, ◌+◌, ◌-◌, ◌%◌, Bool, true, false, not, ◌&&◌, Option, none, some, List, [], ◌∷◌, ◌++◌, String,
  ◌==◌, ltb, leb, if◌then◌else◌, length, get_elem?, take,
}
use telos_arbitration_fix.Prelude.Int.{ℤ, pos, ltb_ℤ, eqb_ℤ}
use telos_arbitration_fix.Eosio.{
  Result, ok, err, check, or_fail, ◌>>=◌, ◌>>◌, Table, find, erase, keys, rows, Name, Host,
}
use telos_arbitration_fix.Trail.Voting.{Candidate, Leaderboard, Elections}
use telos_arbitration_fix.Arbitration.Types.{
  Nominee, Config, Sent, State, closed, min_vote_threshold,
}
use telos_arbitration_fix.Arbitration.Helpers.{
  send, has_available_seats, start_new_election, get_arb_permissions, set_permissions,
  add_arbitrator,
}
use telos_arbitration_fix.Arbitration.Elections.{current_board}

abbrev pub votes_of : Candidate → ℤ
votes_of c = c.votes.amount

-- `std::sort` by votes, the most first. Candidates with as many votes keep their order.
unfoldable pub insert_candidate : Candidate → List Candidate → List Candidate
insert_candidate c [] = c ∷ []
insert_candidate c (d ∷ ds) =
    if ltb_ℤ (votes_of c) (votes_of d) then d ∷ insert_candidate c ds else c ∷ d ∷ ds

unfoldable pub sort_candidates : List Candidate → List Candidate
unfolding insert_candidate
sort_candidates [] = []
sort_candidates (c ∷ cs) = insert_candidate c (sort_candidates cs)

-- The loop that counts `tied_cands`, a uint8_t.
unfoldable pub count_tied : ℤ → List Candidate → ℕ
count_tied votes [] = 0
count_tied votes (c ∷ cs) =
    if eqb_ℤ (votes_of c) votes then (count_tied votes cs + 1) % 256 else count_tied votes cs

-- Of a sorted board that has more candidates than seats, the seats go to its head, less all who
-- have as many votes as the first candidate out.
unfoldable pub resolve_ties : ℕ → List Candidate → List Candidate
unfolding count_tied
resolve_ties seats board = elim (get_elem? board seats) [
  | none ↦ board
  | some first_cand_out ↦
      let head = take seats board in
      take (length head - count_tied (votes_of first_cand_out) head) head
]

-- One round of the loop over the winners.
unfoldable pub elect : Host → Candidate → State → State
elect h c s = elim (find c.member s.nominees) [
  | none ↦ s
  | some _ ↦
      if ltb_ℤ (votes_of c) (pos min_vote_threshold)
      then s
      else add_arbitrator h c.member c.info_link (record s { nominees = erase c.member s.nominees })
]

unfoldable pub elect_all : Host → List Candidate → State → State
unfolding elect
elect_all h [] s = s
elect_all h (c ∷ cs) s = elect_all h cs (elect h c s)

unfoldable pub seat_winners : Host → List Candidate → State → State
unfolding elect_all get_arb_permissions set_permissions
seat_winners h [] s = s
seat_winners h (c ∷ cs) s =
    let s₁ = elect_all h (c ∷ cs) s in
    set_permissions h (get_arb_permissions (rows s₁.arbitrators)) s₁

-- The nominee struct that the code sends begins with the name that addcandidate reads.
unfoldable pub add_nominees : Host → List Nominee → State → State
add_nominees h [] s = s
add_nominees h (n ∷ ns) s =
    add_nominees h ns (
      send (Sent.addcandidate h.self s.config.current_ballot_id n.nominee_name n.credentials_link)
        s)

abbrev pub stop_elections : State → State
stop_elections s = record s {
  nominees = [];
  config = record (s.config) { auto_start_election = false };
}

-- Seats are counted only where a nominee remains.
unfoldable pub next_election : Host → Elections → State → State
unfolding has_available_seats start_new_election add_nominees
next_election h e s =
    if ltb 0 (length s.nominees)
    then (let (available_seats, s₁) = has_available_seats h s in
        if ltb 0 available_seats
        then (let s₂ = record s₁ {
          config = record (s₁.config) {
            current_ballot_id = h.available_primary_key (keys e.ballots);
          };
        } in
            add_nominees h (rows s₂.nominees) (start_new_election h available_seats s₂))
        else stop_elections s₁)
    else stop_elections s

-- `endelection` once its checks have passed.
unfoldable pub conclude_election : Host → Elections → Leaderboard → State → State
conclude_election h e board s =
    let winners = resolve_ties board.available_seats (sort_candidates board.candidates) in
    let s₁ = seat_winners h winners s in
    next_election h e (send (Sent.closeballot h.self s₁.config.current_ballot_id closed) s₁)

unfoldable pub endelection : Host → Elections → Name → State → Result State
unfolding current_board
endelection h e nominee s = do
  check (h.has_auth nominee) "missing authority"
  board ← current_board e s
  check (ltb board.end_time h.now)
      "Election hasn't ended. Please check again after the election is over"
  or_fail (find nominee s.nominees) "Nominee isn't an applicant."
  ok (conclude_election h e board s)
