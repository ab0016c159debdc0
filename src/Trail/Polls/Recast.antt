-- ===== src/Trail/Polls/Recast.antt =====
-- Votes that are cast again: for a proposal in the same direction, and for a candidate.
use telos_arbitration_fix.Prelude.{
  ℕ, ◌+◌, ◌≤◌, ◌≡◌, ◌≢◌, refl, ap, sym, inl, inr, true, Option-cases, none, some, List, [], ◌∷◌,
  ◌++◌, contains, contains-append, get_elem?, arith, ◌%◌, ◌^◌,
}
use telos_arbitration_fix.Prelude.Int.{ℤ, pos, pos_part, neg_part, ◌+ℤ◌, ◌-ℤ◌, int_laws}
use telos_arbitration_fix.Eosio.{
  Result-cases, ok, Table, find, modify, put, scope, Name, Symbol, Asset, Host, IsDocumented,
  Difference, find-insert, find-modify, scope-put,
}
use telos_arbitration_fix.Trail.Tokens.{Registry, Balance}
use telos_arbitration_fix.Trail.Voting.{VoteReceipt, Candidate, Ballot, Proposal, Leaderboard}
use telos_arbitration_fix.Trail.Polls.{Polls}
use telos_arbitration_fix.Trail.Polls.Votes.{
  positive_weight, get_vote_weight, add_count, Counting, count_receipt, vote_for_proposal, castvote,
  vote_for_leaderboard, board_receipt, add_votes,
}
use telos_arbitration_fix.Trail.Polls.Counted.{vote_parts, add_count-symbol}
use telos_arbitration_fix.Trail.Polls.Tally.{count_of, add_count_lem}

-- The receipt of a candidate vote afterwards has the direction.
board_receipt-contains :
    (reg : Registry) (ballot d n : ℕ) (w : Asset) (board : Leaderboard) (u r : Table VoteReceipt)
    → board_receipt reg ballot d w board u ≡ ok (r, n)
    → ((vr : VoteReceipt) → find ballot u ≡ some vr → vr.expiration ≡ board.end_time)
    → (vr : VoteReceipt) × (find ballot r ≡ some vr)
      × (vr.expiration ≡ board.end_time)
      × (contains d vr.directions ≡ true)
unfolding board_receipt
board_receipt-contains reg ballot d n w board u r e fits = elim (Option-cases (find ballot u)) [
  | inl m ↦
      let row : VoteReceipt = record {
        ballot_id = ballot;
        directions = d ∷ [];
        weight = w;
        expiration = board.end_time;
      } in
      (row, ground (arith, find-insert ballot ballot row u), refl, ground arith)
  | inr (vr, m) ↦
      let g = λ (a : VoteReceipt). record a { directions = vr.directions ++ d ∷ [] } in
      (
        g vr,
        ground (arith, fits vr m, find-modify ballot ballot g u),
        fits vr m,
        ground (arith, contains-append d vr.directions (d ∷ [])),
      )
]

-- The facts of a vote for a candidate that succeeded.
board_parts :
    (h : Host) (voter : Name) (ballot id d : ℕ) (s s' : Polls) (board : Leaderboard)
    → find id s.boards.leaderboards ≡ some board
    → vote_for_leaderboard h voter ballot id d s ≡ ok s'
    → (reg : Registry) × (w : Asset) × (r : Table VoteReceipt) × (n : ℕ) × (cs : List Candidate)
      × (board_receipt reg ballot d w board (scope voter s.votereceipts) ≡ ok (r, n))
      × (s' ≡ record s {
        votereceipts = put voter r s.votereceipts;
        boards = record (s.boards) {
          leaderboards =
              modify id
                (λ a. record a { candidates = cs; unique_voters = (a.unique_voters + n) % 2 ^ 32 })
                s.boards.leaderboards;
        };
      })
unfolding vote_for_leaderboard
board_parts h voter ballot id d s s' board found e =
    elim (Option-cases (find board.voting_symbol.code s.wallets.registries)) [
      | inl m ↦ ground arith
      | inr (reg, m) ↦ elim (Result-cases (positive_weight h voter board.voting_symbol s)) [
        | inr (x, y) ↦ ground arith
        | inl (w, y) ↦
            elim (Result-cases (board_receipt reg ballot d w board (scope voter s.votereceipts))) [
              | inr (x, z) ↦ ground arith
              | inl ((r, n), z) ↦ elim (Result-cases (add_votes h d w board.candidates)) [
                | inr (x, c) ↦ ground arith
                | inl (cs, c) ↦ (reg, w, r, n, cs, z, ground arith)
              ]
            ]
      ]
    ]

-- A receipt with the direction lets no vote for the candidate pass.
board_receipt-err :
    (reg : Registry) (ballot d : ℕ) (w : Asset) (board : Leaderboard) (u : Table VoteReceipt)
    (vr : VoteReceipt) (x : Table VoteReceipt × ℕ)
    → find ballot u ≡ some vr
    → vr.expiration ≡ board.end_time
    → contains d vr.directions ≡ true
    → board_receipt reg ballot d w board u ≢ ok x
unfolding board_receipt
board_receipt-err reg ballot d w board u vr x m e c f = ground arith

vote_once :
    (g h : Host) (voter : Name) (ballot id d : ℕ) (s s' s'' : Polls) (board : Leaderboard)
    → find id s.boards.leaderboards ≡ some board
    → ((vr : VoteReceipt)
        → find ballot (scope voter s.votereceipts) ≡ some vr
        → vr.expiration ≡ board.end_time)
    → vote_for_leaderboard h voter ballot id d s ≡ ok s'
    → vote_for_leaderboard g voter ballot id d s' ≢ ok s''
vote_once g h voter ballot id d s s' s'' board found fits e again =
    let (reg, w, r, n, cs, received, out) = board_parts h voter ballot id d s s' board found e in
    let (vr, there, until, has) = board_receipt-contains reg ballot d n w board _ r received fits in
    let f = λ (a : Leaderboard). record a {
      candidates = cs;
      unique_voters = (a.unique_voters + n) % 2 ^ 32;
    } in
    let kept : find id s'.boards.leaderboards ≡ some (f board) =
      ground (arith, out, find-modify id id f s.boards.leaderboards) in
    let stored : find ballot (scope voter s'.votereceipts) ≡ some vr =
      ground (arith, out, scope-put voter voter r s.votereceipts) in
    let (reg', w', r', n', _, received', _) =
      board_parts g voter ballot id d s' s'' (f board) kept again in
    board_receipt-err reg' ballot d w' (f board) _ vr (r', n') stored until has received'

-- After a voter has voted for a candidate of a leaderboard, where the receipt that the voter may have
-- had for the ballot expires with the leaderboard, a further vote for the same candidate fails, at
-- any time.
pub castvote_once :
    (g h : Host) (voter : Name) (ballot d : ℕ) (s s' s'' : Polls) (bal : Ballot)
    (board : Leaderboard)
    → find ballot s.boards.ballots ≡ some bal
    → bal.table_id ≡ 2
    → find bal.reference_id s.boards.leaderboards ≡ some board
    → ((vr : VoteReceipt)
        → find ballot (scope voter s.votereceipts) ≡ some vr
        → vr.expiration ≡ board.end_time)
    → castvote h voter ballot d s ≡ ok s'
    → castvote g voter ballot d s' ≢ ok s''
unfolding castvote
castvote_once g h voter ballot d s s' s'' bal board found kind there fits done again =
    let first : vote_for_leaderboard h voter ballot bal.reference_id d s ≡ ok s' = ground arith in
    let (_, _, _, _, _, _, out) =
      board_parts h voter ballot bal.reference_id d s s' board there first in
    let kept : find ballot s'.boards.ballots ≡ some bal = ground (arith, out) in
    vote_once g h voter ballot bal.reference_id d s s' s'' board there fits first (ground arith)

-- The weight of a vote is the balance of the voter.
positive_weight-balance :
    (h : Host) (voter : Name) (sym : Symbol) (s : Polls) (b : Balance) (w : Asset)
    → find voter (scope sym.code s.wallets.balances) ≡ some b
    → positive_weight h voter sym s ≡ ok w
    → w ≡ b.tokens
unfolding positive_weight get_vote_weight
positive_weight-balance h voter sym s b w e f = elim (Result-cases (h.make_asset (pos 0) sym)) [
  | inl (zero, r) ↦ ground arith
  | inr (m, r) ↦ ground arith
]

-- A receipt of the same direction is left as it is, and lowers the weight.
count_receipt-same :
    (h : Host) (reg : Registry) (ballot d : ℕ) (w : Asset) (p : Proposal) (u : Table VoteReceipt)
    (vr : VoteReceipt) (c : Counting)
    → IsDocumented h
    → find ballot u ≡ some vr
    → vr.expiration ≡ p.end_time
    → get_elem? vr.directions 0 ≡ some d
    → count_receipt h reg ballot d w p u ≡ ok c
    → (c.weight ≡ Difference w vr.weight) × (c.prop ≡ p) × (c.receipts ≡ u)
unfolding count_receipt
count_receipt-same h reg ballot d w p u vr c doc n until f e =
    elim (Result-cases (h.asset_sub w vr.weight)) [
      | inr (m, r) ↦ ground arith
      | inl (rest, r) ↦ ground (arith, doc.sub_ok w vr.weight rest r)
    ]

-- What one account sees of a poll: its receipt for a proposal of this count.
pub record HasVoted (voter : Name) (ballot d : ℕ) (bal : Ballot) (p : Proposal) (vr : VoteReceipt)
    (b : Balance) (s : Polls) : Type 0 where
  pub is_ballot : find ballot s.boards.ballots ≡ some bal
  pub is_proposal : bal.table_id ≡ 0
  pub proposal : find bal.reference_id s.proposals ≡ some p
  pub receipt : find ballot (scope voter s.votereceipts) ≡ some vr
  pub same_cycle : vr.expiration ≡ p.end_time
  pub same_direction : get_elem? vr.directions 0 ≡ some d
  pub balance : find voter (scope p.no_count.symbol.code s.wallets.balances) ≡ some b

unregistered :
    (h : Host) (voter : Name) (ballot id d : ℕ) (s s' : Polls) (p : Proposal)
    → find id s.proposals ≡ some p
    → find p.no_count.symbol.code s.wallets.registries ≡ none
    → vote_for_proposal h voter ballot id d s ≢ ok s'
unfolding vote_for_proposal
unregistered h voter ballot id d s s' p n m e = ground arith

-- One more vote in the direction of the receipt adds what the balance exceeds the receipt by, and
-- leaves the receipt as it was.
recast_same :
    (h : Host) (voter : Name) (ballot d : ℕ) (s s' : Polls) (bal : Ballot) (p : Proposal)
    (vr : VoteReceipt) (b : Balance)
    → IsDocumented h
    → HasVoted voter ballot d bal p vr b s
    → castvote h voter ballot d s ≡ ok s'
    → (p' : Proposal) × HasVoted voter ballot d bal p' vr b s'
      × ((count_of d p').amount ≡ (count_of d p).amount +ℤ (b.tokens.amount -ℤ vr.weight.amount))
unfolding castvote
recast_same h voter ballot d s s' bal p vr b doc v done =
    let id = bal.reference_id in
    let first : vote_for_proposal h voter ballot id d s ≡ ok s' =
      ground (arith, v.is_ballot, v.is_proposal) in
    let three : d ≤ 2 = ground (arith, v.is_ballot, v.is_proposal) in
    elim (Option-cases (find p.no_count.symbol.code s.wallets.registries)) [
      | inl n ↦ absurd (unregistered h voter ballot id d s s' p v.proposal n first)
      | inr (reg, n) ↦
          let (w, c, q, weighed, counted, added, out) =
            vote_parts h voter ballot id d s s' p reg v.proposal n first in
          let (less, same, kept) =
            count_receipt-same h reg ballot d w p _ vr c doc v.receipt v.same_cycle v.same_direction
              counted in
          let own = positive_weight-balance h voter p.no_count.symbol s b w v.balance weighed in
          let added' : add_count h d c.weight p ≡ ok q = rw (← same) added in
          let f = λ (a : Proposal). record a {
            no_count = q.no_count;
            yes_count = q.yes_count;
            abstain_count = q.abstain_count;
            unique_voters = (a.unique_voters + c.new_voter) % 2 ^ 32;
          } in
          let counts = add_count_lem h doc d d c.weight p q three three added' in
          let sym = add_count-symbol h d c.weight p q doc added' in
          rw out (
            f p,
            record {
              is_ballot = v.is_ballot;
              is_proposal = v.is_proposal;
              proposal = ground (arith, v.proposal, find-modify id id f s.proposals);
              receipt =
                  ground (arith, kept, v.receipt, scope-put voter voter c.receipts s.votereceipts);
              same_cycle = v.same_cycle;
              same_direction = v.same_direction;
              balance = ground (arith, sym, v.balance);
            },
            ground (arith, counts, less, own),
          )
    ]

twice : (a b c x : ℤ) → b ≡ a +ℤ x → c ≡ b +ℤ x → c ≡ a +ℤ (x +ℤ x)
twice a b c x h k = omega (int_laws, ap pos_part h, ap neg_part h, ap pos_part k, ap neg_part k)

-- A voter who votes on a proposal again, in the direction of the receipt and on a documented host,
-- adds to the count the balance less the weight of the receipt, and the receipt stays as it was: after
-- two such votes that succeed, the count has grown by twice that difference.
pub recast_twice :
    (g h : Host) (voter : Name) (ballot d : ℕ) (s s₁ s₂ : Polls) (bal : Ballot) (p : Proposal)
    (vr : VoteReceipt) (b : Balance)
    → IsDocumented g
    → IsDocumented h
    → HasVoted voter ballot d bal p vr b s
    → castvote g voter ballot d s ≡ ok s₁
    → castvote h voter ballot d s₁ ≡ ok s₂
    → (p' : Proposal) × HasVoted voter ballot d bal p' vr b s₂
      × ((count_of d p').amount
          ≡ (count_of d p).amount
            +ℤ ((b.tokens.amount -ℤ vr.weight.amount) +ℤ (b.tokens.amount -ℤ vr.weight.amount)))
recast_twice g h voter ballot d s s₁ s₂ bal p vr b doc doc' v one two =
    let (p₁, v₁, grown) = recast_same g voter ballot d s s₁ bal p vr b doc v one in
    let (p₂, v₂, more) = recast_same h voter ballot d s₁ s₂ bal p₁ vr b doc' v₁ two in
    (
      p₂,
      v₂,
      twice (count_of d p).amount (count_of d p₁).amount (count_of d p₂).amount
          (b.tokens.amount -ℤ vr.weight.amount) grown more,
    )
