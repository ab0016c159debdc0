-- ===== src/Trail/Polls/Counted.antt =====
-- Runs of votes on a proposal keep its counts equal to the receipts.
use telos_arbitration_fix.Prelude.{
  ℕ, ◌+◌, ◌≤◌, ◌≡◌, refl, ap, sym, ◌∙◌, inl, inr, false, Bool-cases, Option-cases, some, List, [],
  ◌∷◌, ◌==◌, arith, ◌%◌, ◌^◌,
}
use telos_arbitration_fix.Prelude.Int.{ℤ, pos_part, neg_part, ◌+ℤ◌, int_laws}
use telos_arbitration_fix.Eosio.{
  Result, Result-cases, ok, err, Table, find, modify, put, scope, Name, Asset, Host, IsDocumented,
  find-modify, scope-put,
}
use telos_arbitration_fix.Eosio.Sums.{sum_of, share_of, sum_of-put}
use telos_arbitration_fix.Trail.Tokens.{Registry}
use telos_arbitration_fix.Trail.Voting.{VoteReceipt, Ballot, Proposal}
use telos_arbitration_fix.Trail.Polls.{Polls}
use telos_arbitration_fix.Trail.Polls.Votes.{
  positive_weight, add_count, Counting, count_receipt, vote_for_proposal, castvote,
}
use telos_arbitration_fix.Trail.Polls.Tally.{
  count_of, vote_share, votes_cast, Fits, count_receipt_lem, count_receipt-Fits,
}

-- Each count is the weight that the receipts of the cycle hold for its direction.
pub data Agrees (ballot : ℕ) (p : Proposal) (t : Table (Table VoteReceipt)) : Type 0 where
  agrees :
      ((k : ℕ) → k ≤ 2 → (count_of k p).amount ≡ votes_cast ballot p.end_time k t)
      → Agrees ballot p t

-- Every receipt of the ballot fits the cycle.
pub data AllFit (ballot end_time : ℕ) (t : Table (Table VoteReceipt)) : Type 0 where
  all_fit :
      ((voter : Name) (vr : VoteReceipt) → find ballot (scope voter t) ≡ some vr → Fits end_time vr)
      → AllFit ballot end_time t

-- A ballot of a proposal, whose token forbids another vote, with counts that agree with its receipts.
pub record IsTallied (ballot : ℕ) (bal : Ballot) (p : Proposal) (reg : Registry) (s : Polls)
    : Type 0 where
  pub is_ballot : find ballot s.boards.ballots ≡ some bal
  pub is_proposal : bal.table_id ≡ 0
  pub proposal : find bal.reference_id s.proposals ≡ some p
  pub registry : find p.no_count.symbol.code s.wallets.registries ≡ some reg
  pub no_recast : reg.settings.is_recastable ≡ false
  pub counts : Agrees ballot p s.votereceipts
  pub receipts : AllFit ballot p.end_time s.votereceipts

cancel : (a b c x y : ℤ) → a +ℤ x ≡ b +ℤ y → c +ℤ x ≡ b +ℤ y → a ≡ c
cancel a b c x y h k = omega (int_laws, ap pos_part h, ap neg_part h, ap pos_part k, ap neg_part k)

share-scope :
    (ballot end_time k : ℕ) (voter : Name) (t : Table (Table VoteReceipt))
    → share_of (vote_share ballot end_time k) voter t ≡ vote_share ballot end_time k (scope voter t)
share-scope ballot end_time k voter t = ground (arith, Option-cases (find voter t))

Agrees-put :
    (ballot : ℕ) (p q : Proposal) (voter : Name) (u : Table VoteReceipt)
    (t : Table (Table VoteReceipt))
    → q.end_time ≡ p.end_time
    → ((k : ℕ)
        → k ≤ 2
        → (count_of k q).amount +ℤ vote_share ballot p.end_time k (scope voter t)
          ≡ (count_of k p).amount +ℤ vote_share ballot p.end_time k u)
    → Agrees ballot p t
    → Agrees ballot q (put voter u t)
unfolding votes_cast
Agrees-put ballot p q voter u t e step (agrees old) = agrees λ k b. rw e (
    cancel (count_of k q).amount (count_of k p).amount _ _ _ (step k b) (
      ap (λ x. sum_of (vote_share ballot p.end_time k) (put voter u t) +ℤ x)
        (sym (share-scope ballot p.end_time k voter t))
      ∙ sum_of-put (vote_share ballot p.end_time k) voter u t
      ∙ ap (λ x. x +ℤ vote_share ballot p.end_time k u) (sym (old k b))))

AllFit-put :
    (ballot end_time : ℕ) (voter : Name) (u : Table VoteReceipt) (t : Table (Table VoteReceipt))
    → ((vr : VoteReceipt) → find ballot u ≡ some vr → Fits end_time vr)
    → AllFit ballot end_time t
    → AllFit ballot end_time (put voter u t)
AllFit-put ballot end_time voter u t new (all_fit old) = all_fit λ o vr e.
    elim (Bool-cases (voter == o)) [
      | inl same ↦ new vr (ground (arith, scope-put o voter u t))
      | inr other ↦ old o vr (ground (arith, scope-put o voter u t))
    ]

pub add_count-symbol :
    (h : Host) (d : ℕ) (w : Asset) (p q : Proposal)
    → IsDocumented h
    → add_count h d w p ≡ ok q
    → q.no_count.symbol ≡ p.no_count.symbol
unfolding add_count
add_count-symbol h d w p q doc e = elim (Result-cases (h.asset_add (count_of d p) w)) [
  | inl (n, r) ↦ ground (arith, doc.add_ok (count_of d p) w n r)
  | inr (m, r) ↦ ground arith
]

-- The facts of a vote for a proposal that succeeded.
pub vote_parts :
    (h : Host) (voter : Name) (ballot id d : ℕ) (s s' : Polls) (p : Proposal) (reg : Registry)
    → find id s.proposals ≡ some p
    → find p.no_count.symbol.code s.wallets.registries ≡ some reg
    → vote_for_proposal h voter ballot id d s ≡ ok s'
    → (w : Asset) × (c : Counting) × (q : Proposal) × (positive_weight h voter p.no_count.symbol s
        ≡ ok w)
      × (count_receipt h reg ballot d w p (scope voter s.votereceipts) ≡ ok c)
      × (add_count h d c.weight c.prop ≡ ok q)
      × (s' ≡ record s {
        proposals =
            modify id
              (λ a. record a {
                no_count = q.no_count;
                yes_count = q.yes_count;
                abstain_count = q.abstain_count;
                unique_voters = (a.unique_voters + c.new_voter) % 2 ^ 32;
              })
              s.proposals;
        votereceipts = put voter c.receipts s.votereceipts;
      })
unfolding vote_for_proposal
vote_parts h voter ballot id d s s' p reg n r e =
    elim (Result-cases (positive_weight h voter p.no_count.symbol s)) [
      | inr (m, x) ↦ ground arith
      | inl (w, x) ↦
          elim (Result-cases (count_receipt h reg ballot d w p (scope voter s.votereceipts))) [
            | inr (m, y) ↦ ground arith
            | inl (c, y) ↦ elim (Result-cases (add_count h d c.weight c.prop)) [
              | inr (m, z) ↦ ground arith
              | inl (q, z) ↦ (w, c, q, x, y, z, ground arith)
            ]
          ]
    ]

-- Where the token forbids another vote, no old weight is taken from the proposal.
count_receipt-prop :
    (h : Host) (reg : Registry) (ballot d : ℕ) (w : Asset) (p : Proposal) (u : Table VoteReceipt)
    (c : Counting)
    → reg.settings.is_recastable ≡ false
    → count_receipt h reg ballot d w p u ≡ ok c
    → c.prop ≡ p
unfolding count_receipt
count_receipt-prop h reg ballot d w p u c locked e = elim (Option-cases (find ballot u)) [
  | inl n ↦ ground arith
  | inr (vr, n) ↦ ground arith
]

vote-IsTallied :
    (h : Host) (voter : Name) (ballot d : ℕ) (s s' : Polls) (bal : Ballot) (p : Proposal)
    (reg : Registry)
    → IsDocumented h
    → d ≤ 2
    → IsTallied ballot bal p reg s
    → vote_for_proposal h voter ballot bal.reference_id d s ≡ ok s'
    → (p' : Proposal) × IsTallied ballot bal p' reg s'
vote-IsTallied h voter ballot d s s' bal p reg doc b v e =
    let id = bal.reference_id in
    let (w, c, q, _, counted, added, out) =
      vote_parts h voter ballot id d s s' p reg v.proposal v.registry e in
    let same : c.prop ≡ p = count_receipt-prop h reg ballot d w p _ c v.no_recast counted in
    let added' : add_count h d c.weight p ≡ ok q = rw (← same) added in
    let f = λ (a : Proposal). record a {
      no_count = q.no_count;
      yes_count = q.yes_count;
      abstain_count = q.abstain_count;
      unique_voters = (a.unique_voters + c.new_voter) % 2 ^ 32;
    } in
    let receipts = AllFit-receipts v.receipts in
    rw out (
      f p,
      record {
        is_ballot = v.is_ballot;
        is_proposal = v.is_proposal;
        proposal = ground (arith, v.proposal, find-modify id id f s.proposals);
        registry = ground (arith, v.registry, add_count-symbol h d c.weight p q doc added');
        no_recast = v.no_recast;
        counts =
            Agrees-put ballot p (f p) voter c.receipts s.votereceipts refl
              (λ k l.
                count_receipt_lem h doc reg ballot d k w p q (scope voter s.votereceipts) c b l
                  receipts (inl v.no_recast) counted added)
              v.counts;
        receipts =
            AllFit-put ballot p.end_time voter c.receipts s.votereceipts
              (count_receipt-Fits h doc reg ballot d w p (scope voter s.votereceipts) c b receipts
                counted)
              v.receipts;
      },
    )
  where
    AllFit-receipts :
        AllFit ballot p.end_time s.votereceipts
        → (vr : VoteReceipt) → find ballot (scope voter s.votereceipts) ≡ some vr
        → Fits p.end_time vr
    AllFit-receipts (all_fit g) = g voter

castvote-IsTallied :
    (h : Host) (voter : Name) (ballot d : ℕ) (s s' : Polls) (bal : Ballot) (p : Proposal)
    (reg : Registry)
    → IsDocumented h
    → IsTallied ballot bal p reg s
    → castvote h voter ballot d s ≡ ok s'
    → (p' : Proposal) × IsTallied ballot bal p' reg s'
unfolding castvote
castvote-IsTallied h voter ballot d s s' bal p reg doc v e =
    vote-IsTallied h voter ballot d s s' bal p reg doc (ground (arith, v.is_ballot, v.is_proposal))
      v (ground (arith, v.is_ballot, v.is_proposal))

-- Votes on one ballot, each with its host, its voter and its direction; one that fails leaves no
-- trace.
abbrev pub Votes : Type 0
Votes = List (Host × Name × ℕ)

abbrev pub settle : Polls → Result Polls → Polls
settle s (ok s') = s'
settle s (err _) = s

unfoldable pub cast_all : ℕ → Votes → Polls → Polls
cast_all ballot [] s = s
cast_all ballot ((h, voter, d) ∷ rest) s =
    cast_all ballot rest (settle s (castvote h voter ballot d s))

abbrev pub AllDocumented : Votes → Type 0
AllDocumented [] = Unit
AllDocumented ((h, _, _) ∷ rest) = IsDocumented h × AllDocumented rest

settle-IsTallied :
    (h : Host) (voter : Name) (ballot d : ℕ) (s : Polls) (r : Result Polls) (bal : Ballot)
    (p : Proposal) (reg : Registry)
    → IsDocumented h
    → IsTallied ballot bal p reg s
    → castvote h voter ballot d s ≡ r
    → (p' : Proposal) × IsTallied ballot bal p' reg (settle s r)
settle-IsTallied h voter ballot d s (ok s') bal p reg doc v e =
    castvote-IsTallied h voter ballot d s s' bal p reg doc v e
settle-IsTallied h voter ballot d s (err _) bal p reg doc v e = (p, v)

-- Let a ballot be of a proposal whose token forbids to vote again, whose counts are the weights of
-- the receipts of its cycle, and whose receipts have a direction and do not expire after the cycle.
-- After any votes on it, by any voters and on documented hosts, this holds of the ballot again: each
-- of the three counts is the sum of the weights that the receipts hold for its direction.
pub cast_all-IsTallied :
    (ballot : ℕ) (votes : Votes) (s : Polls) (bal : Ballot) (p : Proposal) (reg : Registry)
    → AllDocumented votes
    → IsTallied ballot bal p reg s
    → (p' : Proposal) × IsTallied ballot bal p' reg (cast_all ballot votes s)
unfolding cast_all
cast_all-IsTallied ballot [] s bal p reg d v = (p, v)
cast_all-IsTallied ballot ((h, voter, k) ∷ rest) s bal p reg (d, ds) v =
    let (p₁, v₁) =
      settle-IsTallied h voter ballot k s (castvote h voter ballot k s) bal p reg d v refl in
    cast_all-IsTallied ballot rest _ bal p₁ reg ds v₁
