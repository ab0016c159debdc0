-- ===== src/Trail/Polls/Tests.antt =====
-- The theorems on the votes of contracts/eosio.trail at concrete inputs.
use telos_arbitration_fix.Prelude.{ℕ, ◌≡◌, ◌≢◌, refl, true, [], ◌∷◌, arith}
use telos_arbitration_fix.Prelude.Int.{pos, ◌+ℤ◌, ◌-ℤ◌}
use telos_arbitration_fix.Eosio.{ok, Asset, vote, Table}
use telos_arbitration_fix.Eosio.Example.{example_host, example_host-IsDocumented}
use telos_arbitration_fix.Eosio.Sums.{sum_of}
use telos_arbitration_fix.Trail.Tokens.{Registry, TokenSettings}
use telos_arbitration_fix.Trail.Tokens.Actions.{default_settings}
use telos_arbitration_fix.Trail.Voting.{VoteReceipt, Candidate, Ballot, Proposal, Leaderboard}
use telos_arbitration_fix.Trail.Polls.{Polls}
use telos_arbitration_fix.Trail.Polls.Votes.{
  positive_weight, get_vote_weight, add_count, count_receipt, vote_for_proposal, castvote,
  vote_for_leaderboard, board_receipt, add_votes,
}
use telos_arbitration_fix.Trail.Polls.Tally.{count_of, votes_cast}
use telos_arbitration_fix.Trail.Polls.Counted.{
  IsTallied, cast_all, cast_all-IsTallied, agrees, all_fit,
}
use telos_arbitration_fix.Trail.Polls.Recast.{HasVoted, castvote_once, recast_twice}

abbrev weight : ℕ → Asset
weight n = record { amount = pos n; symbol = vote }

abbrev settings : TokenSettings
settings = record default_settings { is_recastable = true }

abbrev registry : TokenSettings → Registry
registry t = record {
  max_supply = weight 1000;
  supply = weight 100;
  total_voters = 2;
  total_proxies = 0;
  publisher = 9;
  info_url = "";
  settings = t;
}

abbrev ballot : ℕ → Ballot
ballot kind = record { ballot_id = 0; table_id = kind; reference_id = 0 }

abbrev proposal : ℕ → ℕ → Proposal
proposal ayes voters = record {
  prop_id = 0;
  publisher = 9;
  info_url = "";
  no_count = weight 0;
  yes_count = weight ayes;
  abstain_count = weight 0;
  unique_voters = voters;
  begin_time = 500;
  end_time = 2000;
  cycle_count = 0;
  status = 0;
}

abbrev candidate : ℕ → Candidate
candidate votes = record { member = 7; info_link = ""; votes = weight votes; status = 0 }

abbrev leaderboard : ℕ → ℕ → Leaderboard
leaderboard votes voters = record {
  board_id = 0;
  publisher = 9;
  info_url = "";
  candidates = candidate votes ∷ [];
  unique_voters = voters;
  voting_symbol = vote;
  available_seats = 1;
  begin_time = 500;
  end_time = 2000;
  status = 0;
}

-- Voters 1 and 2 of the token VOTE.
abbrev polls : TokenSettings → ℕ → Proposal → Leaderboard → Table (Table VoteReceipt) → Polls
polls t kind p board receipts = record {
  wallets = record {
    registries = (vote.code, registry t) ∷ [];
    balances =
        (
          vote.code,
          (1, record { owner = 1; tokens = weight 60 })
              ∷ (2, record { owner = 2; tokens = weight 40 })
              ∷ [],
        )
        ∷ [];
    airgrabs = [];
    counterbals = [];
  };
  boards = record { ballots = (0, ballot kind) ∷ []; leaderboards = (0, board) ∷ [] };
  proposals = (0, p) ∷ [];
  votereceipts = receipts;
  env = record {
    publisher = 9;
    totals = record { proposals = 1; elections = 0; leaderboards = 1 };
    last_ballot_id = 0;
  };
}

abbrev fresh : Polls
fresh = polls default_settings 0 (proposal 0 0) (leaderboard 0 0) []

fresh-IsTallied : IsTallied 0 (ballot 0) (proposal 0 0) (registry default_settings) fresh
unfolding votes_cast sum_of
fresh-IsTallied = record {
  is_ballot = refl;
  is_proposal = refl;
  proposal = refl;
  registry = refl;
  no_recast = refl;
  counts = agrees λ k l. ground arith;
  receipts = all_fit λ voter vr e. ground arith;
}

cast_all-IsTallied_example :
    (p : Proposal) × IsTallied 0
      (ballot 0)
      p
      (registry default_settings)
      (cast_all 0 ((example_host, 1, 1) ∷ (example_host, 2, 0) ∷ (example_host, 1, 1) ∷ []) fresh)
cast_all-IsTallied_example =
    cast_all-IsTallied 0 ((example_host, 1, 1) ∷ (example_host, 2, 0) ∷ (example_host, 1, 1) ∷ [])
      fresh (ballot 0) (proposal 0 0) (registry default_settings)
      (example_host-IsDocumented, (example_host-IsDocumented, (example_host-IsDocumented, tt)))
      fresh-IsTallied

abbrev receipt : ℕ → VoteReceipt
receipt direction = record {
  ballot_id = 0;
  directions = direction ∷ [];
  weight = weight 60;
  expiration = 2000;
}

abbrev unvoted : Polls
unvoted = polls settings 2 (proposal 0 0) (leaderboard 0 0) []

abbrev voted : Polls
voted = polls settings 2 (proposal 0 0) (leaderboard 60 1) ((1, (0, receipt 0) ∷ []) ∷ [])

castvote_once_example : castvote example_host 1 0 0 voted ≢ ok unvoted
unfolding castvote vote_for_leaderboard positive_weight get_vote_weight board_receipt add_votes ◌+ℤ◌
castvote_once_example =
    castvote_once example_host example_host 1 0 0 unvoted voted unvoted (ballot 2) (leaderboard 0 0)
      refl refl refl (λ vr e. ground arith) refl

-- Voter 1 voted yes with 20 votes, and holds 60 now.
abbrev small_receipt : VoteReceipt
small_receipt = record (receipt 1) { weight = weight 20 }

abbrev grown : ℕ → ℕ → Polls
grown ayes voters =
    polls settings 0 (proposal ayes voters) (leaderboard 0 0) ((1, (0, small_receipt) ∷ []) ∷ [])

recast_twice_example :
    (p : Proposal) × HasVoted 1 0 1
      (ballot 0)
      p
      small_receipt
      (record { owner = 1; tokens = weight 60 })
      (grown 100 1)
    × ((count_of 1 p).amount
        ≡ (count_of 1 (proposal 20 1)).amount +ℤ ((pos 60 -ℤ pos 20) +ℤ (pos 60 -ℤ pos 20)))
unfolding castvote vote_for_proposal positive_weight get_vote_weight count_receipt add_count ◌-ℤ◌
    ◌+ℤ◌
recast_twice_example =
    recast_twice example_host example_host 1 0 1 (grown 20 1) (grown 60 1) (grown 100 1) (ballot 0)
      (proposal 20 1) small_receipt (record { owner = 1; tokens = weight 60 })
      example_host-IsDocumented example_host-IsDocumented
      (record {
        is_ballot = refl;
        is_proposal = refl;
        proposal = refl;
        receipt = refl;
        same_cycle = refl;
        same_direction = refl;
        balance = refl;
      })
      refl refl
