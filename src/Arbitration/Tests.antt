-- ===== src/Arbitration/Tests.antt =====
-- Concrete runs of the arbitration contract, and its theorems at concrete inputs.
use telos_arbitration_fix.Prelude.{
  ℕ, ◌+◌, ◌≤◌, ◌<◌, ◌≡◌, refl, ◌⊎◌, true, false, none, some, List, [], ◌∷◌, ◌++◌, String, contains,
  arith, ◌==◌, if◌then◌else◌,
}
use telos_arbitration_fix.Prelude.Int.{ℤ, pos, ◌+ℤ◌, ◌-ℤ◌, ◌≤ℤ◌}
use telos_arbitration_fix.Eosio.{ok, find, Asset, tlos, vote}
use telos_arbitration_fix.Eosio.Names
use telos_arbitration_fix.Eosio.Accounts.{balance_of}
use telos_arbitration_fix.Eosio.Example.{example_host, example_host-IsDocumented}
use telos_arbitration_fix.Trail.Voting.{Candidate, Elections}
use telos_arbitration_fix.Arbitration.Types.{Arbitrator, Claim, Casefile, Sent, State}
use telos_arbitration_fix.Arbitration.Helpers.{
  get_claim_at, erase_claim_at, has_available_seats, perms_weight, set_permissions,
  get_arb_permissions, sort_perms, sub_balance, add_balance,
}
use telos_arbitration_fix.Arbitration.CaseSetup.{
  new_claim, filecase, addclaim, removeclaim, readycase, transfer_handler,
}
use telos_arbitration_fix.Arbitration.CaseProgress.{advancecase, recuse, acceptclaim}
use telos_arbitration_fix.Arbitration.CaseProgress.{dismisscase}
use telos_arbitration_fix.Arbitration.ArbActions.{dismissarb}
use telos_arbitration_fix.Arbitration.Dispatch.{Action, apply, initial, run}
use telos_arbitration_fix.Arbitration.Endelection.{resolve_ties}
use telos_arbitration_fix.Arbitration.Endelection.Ties.{above, resolve_ties-eq-above}
use telos_arbitration_fix.Arbitration.Reachable.{run-IsValid}
use telos_arbitration_fix.Arbitration.Seats.{
  held, has_available_seats_wraps, Grants, dismissarb-Grants,
}
use telos_arbitration_fix.Arbitration.Balances.{transfer_handler_credits, readycase_charges}
use telos_arbitration_fix.Arbitration.Cases.Refine.{ArbKeys, keyed, Steps}
use telos_arbitration_fix.Arbitration.Cases.Actions.{apply-TableStep}
use telos_arbitration_fix.Arbitration.Cases.Invariant.{IsValid}
use telos_arbitration_fix.Arbitration.Cases.Lifecycle.{Continues, apply-Continues}
use telos_arbitration_fix.Arbitration.Cases.Claims.{removeclaim-addclaim, acceptclaim_moves}
use telos_arbitration_fix.Arbitration.Cases.Approval.{
  advancecase_unanimous, recused_approval_counts,
}
use telos_arbitration_fix.Trail.Polls.{Polls}
use telos_arbitration_fix.Trail.Tokens.{Registry}
use telos_arbitration_fix.Trail.Tokens.Actions.{default_settings}
use telos_arbitration_fix.Trail.Voting.{Leaderboard}
use telos_arbitration_fix.Arbitration.Elections.{current_board, initelection}
use telos_arbitration_fix.Arbitration.Helpers.{start_new_election, expire_seat, count_seats}
use telos_arbitration_fix.Arbitration.Delivery.{deliver, free_seats, initelection_opens}

abbrev link : String
link = "QmTtDqWzo179ujTXU7pf2PodLNjpcpQQCXhkiQXi6wZvKd"

abbrev other_link : String
other_link = "QmTtDqWzo179ujTXU7pf2PodLNjpcpQQCXhkiQXi6wZvKe"

abbrev no_elections : Elections
no_elections = record { ballots = []; leaderboards = [] }

abbrev filed_case : Casefile
filed_case = record {
  case_id = 0;
  case_status = 0;
  claimant = 5;
  respondant = 0;
  arbitrators = [];
  approvals = [];
  required_langs = 0 ∷ [];
  unread_claims = new_claim link ∷ [];
  accepted_claims = [];
  case_ruling = "";
  last_edit = 1000;
}

-- A case under investigation by three arbitrators.
abbrev open_case : Casefile
open_case = record filed_case { case_status = 2; arbitrators = 1 ∷ 2 ∷ 3 ∷ [] }

abbrev arbitrator_two : Arbitrator
arbitrator_two = record {
  arb = 2;
  arb_status = 0;
  open_case_ids = 0 ∷ [];
  closed_case_ids = [];
  credentials_link = link;
  elected_time = 0;
  term_expiration = 5000;
  languages = [];
}

abbrev state_with : Casefile → State
state_with cf = record {
  config = record {
    publisher = Names.eosio_arb;
    max_elected_arbs = 21;
    election_duration = 2505600;
    election_start = 604800;
    fee_structure = pos 2000000 ∷ [];
    arb_term_length = 31536000;
    last_time_edited = 0;
    current_ballot_id = 0;
    auto_start_election = false;
  };
  nominees = [];
  arbitrators = (2, arbitrator_two) ∷ [];
  casefiles = (0, cf) ∷ [];
  claims = [];
  accounts = (5, (tlos.code, record { amount = pos 3000000; symbol = tlos }) ∷ []) ∷ [];
  sent = [];
}

state-keyed : ArbKeys (state_with open_case).arbitrators
state-keyed = keyed λ j a e. ground arith

open_case-IsValid : IsValid open_case
unfolding get_claim_at
open_case-IsValid = ground arith

run-IsValid_example :
    IsValid (record filed_case { unread_claims = new_claim link ∷ new_claim other_link ∷ [] })
unfolding run apply initial filecase addclaim get_claim_at
run-IsValid_example =
    run-IsValid example_host
      ((example_host, no_elections, Action.file_case 5 link (0 ∷ []) none)
        ∷ (example_host, no_elections, Action.add_claim 0 other_link 5)
        ∷ [])
      0 _ refl

apply-TableStep_example :
    Steps
      (state_with open_case)
      (apply example_host no_elections (Action.advance_case 0 1) (state_with open_case))
apply-TableStep_example =
    apply-TableStep example_host no_elections (Action.advance_case 0 1) (state_with open_case)
      state-keyed

abbrev dismissed_case : Casefile
dismissed_case = record open_case { case_status = 8; case_ruling = link }

apply-Continues_example : Continues open_case dismissed_case
unfolding apply dismisscase
apply-Continues_example =
    apply-Continues example_host no_elections (Action.dismiss_case 0 2 link) (state_with open_case)
      (state_with dismissed_case) 0 open_case dismissed_case state-keyed refl refl refl

abbrev candidate_with : ℕ → ℕ → Candidate
candidate_with who votes = record {
  member = who;
  info_link = link;
  votes = record { amount = pos votes; symbol = vote };
  status = 0;
}

abbrev tied_board : List Candidate
tied_board = candidate_with 1 9 ∷ candidate_with 2 5 ∷ candidate_with 3 5 ∷ candidate_with 4 1 ∷ []

-- Two seats, and the second and the third are tied: only the first wins.
tie_test : resolve_ties 2 tied_board ≡ candidate_with 1 9 ∷ []
unfolding resolve_ties
tie_test = refl

resolve_ties-eq-above_example : resolve_ties 2 tied_board ≡ above (pos 5) tied_board
resolve_ties-eq-above_example =
    resolve_ties-eq-above 2 tied_board (candidate_with 3 5) (omega arith) (ground arith) refl

abbrev claimed_case : Casefile
claimed_case = record open_case { unread_claims = new_claim link ∷ new_claim other_link ∷ [] }

abbrev accepted : Claim
accepted = record {
  claim_id = 0;
  claim_summary = link;
  decision_link = other_link;
  response_link = "";
  decision_class = 4;
}

claimed_case-IsValid : IsValid claimed_case
unfolding get_claim_at
claimed_case-IsValid = ground arith

abbrev accepting_state : State
accepting_state =
    record (state_with (record claimed_case {
      unread_claims = new_claim other_link ∷ [];
      accepted_claims = 0 ∷ [];
      last_edit = 1000;
    })) { claims = (0, accepted) ∷ []; sent = Sent.execclaim 0 0 2 link other_link 4 ∷ [] }

acceptclaim_moves_example :
    (cf' : Casefile) × (c : Claim) × (new : ℕ) × (get_claim_at link claimed_case.unread_claims
      ≡ some c)
    × (find 0 accepting_state.casefiles ≡ some cf')
    × (get_claim_at link cf'.unread_claims ≡ none)
    × (cf'.accepted_claims ≡ new ∷ [])
    × (find new (state_with claimed_case).claims ≡ none)
    × (find 0 accepting_state.claims ≡ (
        if new == 0
        then some (record accepted { claim_id = new; response_link = c.response_link })
        else none))
    × (2 ≤ 4)
    × (4 ≤ 15)
unfolding acceptclaim get_claim_at erase_claim_at
acceptclaim_moves_example =
    acceptclaim_moves example_host 0 2 link other_link 4 0 (state_with claimed_case) accepting_state
      claimed_case example_host-IsDocumented refl claimed_case-IsValid refl

-- Two of three arbitrators have approved.
abbrev almost : Casefile
almost = record open_case { approvals = 1 ∷ 2 ∷ [] }

almost-IsValid : IsValid almost
unfolding get_claim_at
almost-IsValid = ground arith

advancecase_unanimous_example :
    ((b : ℕ) → contains b (1 ∷ 2 ∷ 3 ∷ []) ≡ true → (b ≡ 3) ⊎ (contains b (1 ∷ 2 ∷ []) ≡ true))
    ⊎ ((a : ℕ) × (contains a (1 ∷ 2 ∷ []) ≡ true) × (contains a (1 ∷ 2 ∷ 3 ∷ []) ≡ false))
unfolding advancecase
advancecase_unanimous_example =
    advancecase_unanimous example_host 0 3 (state_with almost)
      (state_with (record open_case { case_status = 3 })) almost
      (record open_case { case_status = 3 }) refl almost-IsValid refl refl (omega arith)

recused_approval_counts_example :
    (s₁ : State) × (s₂ : State) × (s₃ : State) × (cf' : Casefile) × (advancecase example_host 0 1
        (state_with open_case)
      ≡ ok s₁)
    × (recuse example_host 0 "conflict of interest" 1 s₁ ≡ ok s₂)
    × (advancecase example_host 0 2 s₂ ≡ ok s₃)
    × (find 0 s₃.casefiles ≡ some cf')
    × (cf'.case_status ≡ 3)
recused_approval_counts_example =
    recused_approval_counts example_host 0 1 2 3 "conflict of interest" (state_with open_case)
      open_case refl refl refl (ground arith) (omega arith) (omega arith) refl refl (omega arith)
      (omega arith)

abbrev ready : State
ready = record (state_with (record filed_case { case_status = 1; last_edit = 1000 })) {
  accounts = (5, (tlos.code, record { amount = pos 1000000; symbol = tlos }) ∷ []) ∷ [];
}

readycase_charges_example :
    (cf : Casefile) × (fee : ℤ) × (some filed_case ≡ some cf)
    × (cf.claimant ≡ 5)
    × (cf.case_status ≡ 0)
    × (find 0 ready.casefiles ≡ some (record cf { case_status = 1; last_edit = 1000 }))
    × (some (pos 2000000) ≡ some fee)
    × (fee ≤ℤ balance_of (state_with filed_case).accounts 5 tlos.code)
    × (balance_of ready.accounts 5 tlos.code
        ≡ balance_of (state_with filed_case).accounts 5 tlos.code -ℤ fee)
unfolding readycase sub_balance ◌-ℤ◌
readycase_charges_example =
    readycase_charges example_host 0 5 5 tlos.code (state_with filed_case) ready
      example_host-IsDocumented refl

abbrev deposit : Asset
deposit = record { amount = pos 40000; symbol = tlos }

abbrev deposited : State
deposited = record (state_with open_case) {
  accounts =
      (5, (tlos.code, record { amount = pos 3000000; symbol = tlos }) ∷ [])
      ∷ (6, (tlos.code, deposit) ∷ [])
      ∷ [];
}

transfer_handler_credits_example :
    (Names.eosio_arb ≡ Names.eosio_arb)
    × (tlos ≡ tlos)
    × (balance_of deposited.accounts 6 tlos.code
        ≡ balance_of (state_with open_case).accounts 6 tlos.code +ℤ pos 40000)
unfolding transfer_handler add_balance
transfer_handler_credits_example =
    transfer_handler_credits example_host 6 Names.eosio_arb 6 tlos.code deposit
      (state_with open_case) deposited example_host-IsDocumented (omega arith) refl

abbrev withdrawn : State
withdrawn = record (state_with open_case) {
  accounts = (5, []) ∷ [];
  sent =
      Sent.transfer Names.eosio_arb 5 (record { amount = pos 3000000; symbol = tlos })
        "eosio.arb withdrawal"
      ∷ [];
}

-- One arbitrator holds a seat, and none exists.
abbrev overfull : State
overfull = record (state_with open_case) {
  config = record ((state_with open_case).config) { max_elected_arbs = 0 };
}

has_available_seats_wraps_example :
    (has_available_seats example_host overfull).0 + held 1000 overfull.arbitrators ≡ 256
unfolding held
has_available_seats_wraps_example =
    has_available_seats_wraps example_host overfull (ground arith) (ground arith)

abbrev dismissed_arb : State
dismissed_arb = record (state_with open_case) {
  arbitrators = (2, record arbitrator_two { arb_status = 2 }) ∷ [];
  sent =
      Sent.updateauth Names.eosio_arb Names.major Names.owner (record {
        threshold = 1;
        accounts = (record { actor = 2; permission = Names.active; weight = 1 }) ∷ [];
      })
      ∷ [];
}

dismissarb-Grants_example : Grants example_host 2 [] dismissed_arb.sent
unfolding dismissarb set_permissions get_arb_permissions sort_perms perms_weight
dismissarb-Grants_example =
    dismissarb-Grants example_host 2 false (state_with open_case) dismissed_arb arbitrator_two refl
      refl refl

removeclaim-addclaim_example :
    (s'' : State) × (removeclaim example_host 0 other_link 5 (
        state_with
          (record filed_case { unread_claims = new_claim link ∷ new_claim other_link ∷ [] }))
      ≡ ok s'')
    × (find 0 s''.casefiles ≡ some filed_case)
unfolding addclaim get_claim_at
removeclaim-addclaim_example =
    removeclaim-addclaim example_host 0 other_link 5 (state_with filed_case)
      (state_with
        (record filed_case { unread_claims = new_claim link ∷ new_claim other_link ∷ [] }))
      refl

abbrev vote_registry : Registry
vote_registry = record {
  max_supply = record { amount = pos 1000; symbol = vote };
  supply = record { amount = pos 100; symbol = vote };
  total_voters = 2;
  total_proxies = 0;
  publisher = 9;
  info_url = "";
  settings = default_settings;
}

-- Only VOTE is registered on eosio.trail.
abbrev no_polls : Polls
no_polls = record {
  wallets = record {
    registries = (vote.code, vote_registry) ∷ [];
    balances = [];
    airgrabs = [];
    counterbals = [];
  };
  boards = no_elections;
  proposals = [];
  votereceipts = [];
  env = record {
    publisher = 9;
    totals = record { proposals = 0; elections = 0; leaderboards = 0 };
    last_ballot_id = 0;
  };
}

abbrev started : State
started =
    let s = state_with open_case in
    record s {
      config = record (s.config) { auto_start_election = true };
      sent =
          Sent.regballot Names.eosio_arb 2 vote 605800 3111400 ""
          ∷ Sent.setseats Names.eosio_arb 0 20
          ∷ [];
    }

initelection_opens_example :
    (new : List Sent) × (polls : Polls) × (board : Leaderboard) × (started.sent ≡ [] ++ new)
    × (deliver example_host new no_polls ≡ ok polls)
    × (current_board polls.boards started ≡ ok board)
    × (board.publisher ≡ Names.eosio_arb)
    × (board.available_seats ≡ free_seats example_host no_elections (state_with open_case))
    × (board.candidates ≡ [])
    × (1000 < board.begin_time)
unfolding initelection start_new_election has_available_seats count_seats expire_seat
initelection_opens_example =
    initelection_opens example_host (state_with open_case) started no_polls vote_registry
      example_host-IsDocumented refl refl (ground arith) (omega arith) (omega arith) (omega arith)
      refl
