-- ===== src/Trail/Polls/Votes.antt =====
-- `castvote` and `deloldvotes` of contracts/eosio.trail/src/eosio.trail.cpp, with their helpers.
use telos_arbitration_fix.Prelude.{
  ℕ, zero, suc, ◌+◌, ◌%◌, ◌^◌, true, false, none, some, List, [], ◌∷◌, ◌++◌, ◌==◌, ltb, leb, ◌&&◌,
  length, contains, get_elem?, if◌then◌else◌,
}
use telos_arbitration_fix.Prelude.Int.{pos, ltb_ℤ}
use telos_arbitration_fix.Eosio.{
  Result, ok, err, check, or_fail, ◌>>=◌, ◌>>◌, Table, find, insert, modify, put, scope, Name,
  Symbol, Asset, sym_eq, Host,
}
use telos_arbitration_fix.Trail.Tokens.{Registry}
use telos_arbitration_fix.Trail.Voting.{VoteReceipt, Candidate, Proposal, Leaderboard}
use telos_arbitration_fix.Trail.Polls.{Polls}
use telos_arbitration_fix.Trail.Polls.Candidates.{update_board}

unfoldable pub get_vote_weight : Host → Name → Symbol → Polls → Result Asset
get_vote_weight h voter voting_symbol s =
    elim (find voter (scope voting_symbol.code s.wallets.balances)) [
      | none ↦ h.make_asset (pos 0) voting_symbol
      | some bal ↦ ok bal.tokens
    ]

-- The weight of a vote, which must be positive.
unfoldable pub positive_weight : Host → Name → Symbol → Polls → Result Asset
unfolding get_vote_weight
positive_weight h voter voting_symbol s = do
  vote_weight ← get_vote_weight h voter voting_symbol s
  no_votes ← h.make_asset (pos 0) voting_symbol
  check (sym_eq vote_weight.symbol no_votes.symbol)
      "comparison of assets with different symbols is not allowed"
  check (ltb_ℤ no_votes.amount vote_weight.amount) "vote weight must be greater than 0"
  ok vote_weight

-- The two `switch`es that add a weight to a count, and take one away.
unfoldable pub add_count : Host → ℕ → Asset → Proposal → Result Proposal
add_count h direction weight prop =
    if direction == 0
    then (do n ← h.asset_add prop.no_count weight; ok (record prop { no_count = n }))
    else if direction == 1
    then (do n ← h.asset_add prop.yes_count weight; ok (record prop { yes_count = n }))
    else if direction == 2
    then (do n ← h.asset_add prop.abstain_count weight; ok (record prop { abstain_count = n }))
    else ok prop

unfoldable pub sub_count : Host → ℕ → Asset → Proposal → Result Proposal
sub_count h direction weight prop =
    if direction == 0
    then (do n ← h.asset_sub prop.no_count weight; ok (record prop { no_count = n }))
    else if direction == 1
    then (do n ← h.asset_sub prop.yes_count weight; ok (record prop { yes_count = n }))
    else if direction == 2
    then (do n ← h.asset_sub prop.abstain_count weight; ok (record prop { abstain_count = n }))
    else ok prop

-- `directions[0]`, which every receipt has, and the list with it replaced.
abbrev pub first_direction : VoteReceipt → Result ℕ
first_direction vr = or_fail (get_elem? vr.directions 0) "no direction"

abbrev pub set_first : ℕ → List ℕ → List ℕ
set_first d [] = []
set_first d (_ ∷ ds) = d ∷ ds

-- What the vote leaves to count: its weight, the proposal, and the receipts of the voter, with the
-- voters to add.
pub record Counting : Type 0 where
  pub weight : Asset
  pub prop : Proposal
  pub receipts : Table VoteReceipt
  pub new_voter : ℕ

-- The `if` of `vote_for_proposal` over the receipt of the voter.
unfoldable pub count_receipt :
    Host → Registry → ℕ → ℕ → Asset → Proposal → Table VoteReceipt → Result Counting
unfolding sub_count
count_receipt h reg ballot_id direction weight prop receipts = elim (find ballot_id receipts) [
  | none ↦ ok (record {
    weight = weight;
    prop = prop;
    receipts =
        insert ballot_id
          (record {
            ballot_id = ballot_id;
            directions = direction ∷ [];
            weight = weight;
            expiration = prop.end_time;
          })
          receipts;
    new_voter = 1;
  })
  | some vr ↦
      if vr.expiration == prop.end_time
      then (do
        check reg.settings.is_recastable "token registry disallows vote recasting"
        old ← first_direction vr
        if old == direction
            then (do
              rest ← h.asset_sub weight vr.weight
              ok (record { weight = rest; prop = prop; receipts = receipts; new_voter = 0 }))
            else (do
              without ← sub_count h old vr.weight prop
              ok (record {
                weight = weight;
                prop = without;
                receipts =
                    modify ballot_id
                      (λ a. record a {
                        directions = set_first direction vr.directions;
                        weight = weight;
                      })
                      receipts;
                new_voter = 0;
              })))
      else if ltb vr.expiration prop.end_time
      then ok (record {
        weight = weight;
        prop = prop;
        receipts =
            modify ballot_id
              (λ a. record a {
                directions = set_first direction vr.directions;
                weight = weight;
                expiration = prop.end_time;
              })
              receipts;
        new_voter = 1;
      })
      else ok (record { weight = weight; prop = prop; receipts = receipts; new_voter = 1 })
]

unfoldable pub vote_for_proposal : Host → Name → ℕ → ℕ → ℕ → Polls → Result Polls
unfolding positive_weight count_receipt add_count
vote_for_proposal h voter ballot_id prop_id direction s = do
  prop ← or_fail (find prop_id s.proposals) "proposal doesn't exist"
  reg ←
      or_fail (find prop.no_count.symbol.code s.wallets.registries)
        "Token Registry with that symbol doesn't exist"
  check (leb prop.begin_time h.now && leb h.now prop.end_time) "ballot voting window not open"
  vote_weight ← positive_weight h voter prop.no_count.symbol s
  c ← count_receipt h reg ballot_id direction vote_weight prop (scope voter s.votereceipts)
  counted ← add_count h direction c.weight c.prop
  ok (record s {
    proposals =
        modify prop_id
          (λ a. record a {
            no_count = counted.no_count;
            yes_count = counted.yes_count;
            abstain_count = counted.abstain_count;
            unique_voters = (a.unique_voters + c.new_voter) % 2 ^ 32;
          })
          s.proposals;
    votereceipts = put voter c.receipts s.votereceipts;
  })

-- `board.candidates[direction].votes += vote_weight`
unfoldable pub add_votes : Host → ℕ → Asset → List Candidate → Result (List Candidate)
add_votes h n weight [] = err "no candidate"
add_votes h zero weight (c ∷ cs) = do
  votes ← h.asset_add c.votes weight
  ok (record c { votes = votes } ∷ cs)
add_votes h (suc n) weight (c ∷ cs) = do rest ← add_votes h n weight cs; ok (c ∷ rest)

-- The receipts of the voter after a vote for a candidate, and the voters to add.
unfoldable pub board_receipt :
    Registry → ℕ → ℕ → Asset → Leaderboard → Table VoteReceipt → Result (Table VoteReceipt × ℕ)
board_receipt reg ballot_id direction weight board receipts = elim (find ballot_id receipts) [
  | none ↦ ok (
    insert ballot_id
        (record {
          ballot_id = ballot_id;
          directions = direction ∷ [];
          weight = weight;
          expiration = board.end_time;
        })
        receipts,
    1,
  )
  | some vr ↦
      if vr.expiration == board.end_time
      then (if contains direction vr.directions
          then (do
            check reg.settings.is_recastable "token registry disallows vote recasting"
            err "Feature currently disabled")
          else ok (
            modify ballot_id (λ a. record a { directions = vr.directions ++ direction ∷ [] })
                receipts,
            0,
          ))
      else ok (receipts, 1)
]

unfoldable pub vote_for_leaderboard : Host → Name → ℕ → ℕ → ℕ → Polls → Result Polls
unfolding positive_weight board_receipt add_votes
vote_for_leaderboard h voter ballot_id board_id direction s = do
  board ← or_fail (find board_id s.boards.leaderboards) "leaderboard doesn't exist"
  check (ltb direction (length board.candidates))
      "direction must map to an existing candidate in the leaderboard struct"
  check (leb board.begin_time h.now && leb h.now board.end_time) "ballot voting window not open"
  reg ← or_fail (find board.voting_symbol.code s.wallets.registries) "token registry does not exist"
  vote_weight ← positive_weight h voter board.voting_symbol s
  (receipts, new_voter) ←
      board_receipt reg ballot_id direction vote_weight board (scope voter s.votereceipts)
  candidates ← add_votes h direction vote_weight board.candidates
  let voted = record s { votereceipts = put voter receipts s.votereceipts }
  ok (
      update_board board_id
        (λ a. record a {
          candidates = candidates;
          unique_voters = (a.unique_voters + new_voter) % 2 ^ 32;
        })
        voted)

unfoldable pub castvote : Host → Name → ℕ → ℕ → Polls → Result Polls
unfolding vote_for_proposal vote_for_leaderboard
castvote h voter ballot_id direction s = do
  check (h.has_auth voter) "missing authority"
  bal ← or_fail (find ballot_id s.boards.ballots) "ballot with given ballot_id doesn't exist"
  if bal.table_id == 0
      then (do
        check (leb direction 2) "Invalid Vote. [0 = NO, 1 = YES, 2 = ABSTAIN]"
        vote_for_proposal h voter ballot_id bal.reference_id direction s)
      else if bal.table_id == 1
      then err "feature still in development..."
      else if bal.table_id == 2
      then vote_for_leaderboard h voter ballot_id bal.reference_id direction s
      else ok s

-- The loop of `deloldvotes`: of the receipts that expired before `now`, the first ones go, as many
-- as the number says.
unfoldable pub delete_expired : ℕ → ℕ → Table VoteReceipt → Table VoteReceipt
delete_expired now n [] = []
delete_expired now zero t = t
delete_expired now (suc n) ((k, vr) ∷ t) = elim (ltb vr.expiration now) [
  | true ↦ delete_expired now n t
  | false ↦ (k, vr) ∷ delete_expired now (suc n) t
]

unfoldable pub deloldvotes : Host → Name → ℕ → Polls → Result Polls
unfolding delete_expired
deloldvotes h voter num_to_delete s = do
  check (h.has_auth voter) "missing authority"
  check (ltb 0 num_to_delete) "must delete greater than 0 receipts"
  ok (record s {
    votereceipts =
        put voter (delete_expired h.now num_to_delete (scope voter s.votereceipts)) s.votereceipts;
  })
