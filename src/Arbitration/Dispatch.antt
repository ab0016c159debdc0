-- ===== src/Arbitration/Dispatch.antt =====
-- The actions of contracts/eosio.arbitration, as one type, and a run of several. The constructor
-- loads `_config` or makes the default, and the destructor stores it after each action.
use telos_arbitration_fix.Prelude.{ℕ, Bool, Option, List, [], ◌∷◌, String}
use telos_arbitration_fix.Prelude.Int.{ℤ}
use telos_arbitration_fix.Eosio.{Result, ok, err, Name, Asset, Host}
use telos_arbitration_fix.Trail.Voting.{Elections}
use telos_arbitration_fix.Arbitration.Types.{State}
use telos_arbitration_fix.Arbitration.Helpers.{get_default_config}
use telos_arbitration_fix.Arbitration.Elections.{
  setconfig, initelection, regarb, unregnominee, candaddlead, candrmvlead,
}
use telos_arbitration_fix.Arbitration.Endelection.{endelection}
use telos_arbitration_fix.Arbitration.CaseSetup.{
  withdraw, filecase, exec_log, addclaim, removeclaim, shredcase, readycase, transfer_handler,
}
use telos_arbitration_fix.Arbitration.CaseProgress.{
  respond, addarbs, assigntocase, dismissclaim, acceptclaim, setruling, advancecase, dismisscase,
  recuse,
}
use telos_arbitration_fix.Arbitration.ArbActions.{
  newarbstatus, setlangcodes, deletecase, dismissarb,
}

pub data Action : Type 0 where
  set_config : ℕ → ℕ → ℕ → ℕ → List ℤ → Action
  init_election : Action
  reg_arb : Name → String → Action
  unreg_nominee : Name → Action
  cand_add_lead : Name → String → Action
  cand_rmv_lead : Name → Action
  end_election : Name → Action
  withdraw_balance : Name → Action
  file_case : Name → String → List ℕ → Option Name → Action
  exec_file : ℕ → Name → String → List ℕ → Name → Action
  add_claim : ℕ → String → Name → Action
  remove_claim : ℕ → String → Name → Action
  shred_case : ℕ → Name → Action
  ready_case : ℕ → Name → Action
  respond_claim : ℕ → String → Name → String → Action
  add_arbs : ℕ → Name → ℕ → Action
  assign_to_case : ℕ → Name → Action
  dismiss_claim : ℕ → Name → String → String → Action
  accept_claim : ℕ → Name → String → String → ℕ → Action
  exec_claim : ℕ → ℕ → Name → String → String → ℕ → Action
  advance_case : ℕ → Name → Action
  dismiss_case : ℕ → Name → String → Action
  set_ruling : ℕ → Name → String → Action
  recuse_arb : ℕ → String → Name → Action
  set_lang_codes : Name → List ℕ → Action
  new_arb_status : ℕ → Name → Action
  delete_case : ℕ → Action
  dismiss_arb : Name → Bool → Action
  on_transfer : Name → Name → Asset → Action

unfoldable pub apply : Host → Elections → Action → State → Result State
apply h e (set_config n d b t fees) s = setconfig h n d b t fees s
apply h e init_election s = initelection h e s
apply h e (reg_arb n l) s = regarb h n l s
apply h e (unreg_nominee n) s = unregnominee h e n s
apply h e (cand_add_lead n l) s = candaddlead h e n l s
apply h e (cand_rmv_lead n) s = candrmvlead h n s
apply h e (end_election n) s = endelection h e n s
apply h e (withdraw_balance o) s = withdraw h o s
apply h e (file_case c l ls r) s = filecase h c l ls r s
apply h e (exec_file _ _ _ _ _) s = exec_log h s
apply h e (add_claim id l c) s = addclaim h id l c s
apply h e (remove_claim id l c) s = removeclaim h id l c s
apply h e (shred_case id c) s = shredcase h id c s
apply h e (ready_case id c) s = readycase h id c s
apply h e (respond_claim id ch r l) s = respond h id ch r l s
apply h e (add_arbs id a n) s = addarbs h id a n s
apply h e (assign_to_case id a) s = assigntocase h id a s
apply h e (dismiss_claim id a ch m) s = dismissclaim h id a ch m s
apply h e (accept_claim id a ch dl dc) s = acceptclaim h id a ch dl dc s
apply h e (exec_claim _ _ _ _ _ _) s = exec_log h s
apply h e (advance_case id a) s = advancecase h id a s
apply h e (dismiss_case id a l) s = dismisscase h id a l s
apply h e (set_ruling id a l) s = setruling h id a l s
apply h e (recuse_arb id r a) s = recuse h id r a s
apply h e (set_lang_codes a ls) s = setlangcodes h a ls s
apply h e (new_arb_status n a) s = newarbstatus h n a s
apply h e (delete_case id) s = deletecase h id s
apply h e (dismiss_arb a b) s = dismissarb h a b s
apply h e (on_transfer f t q) s = transfer_handler h f t q s

-- The contract at its first action: no configuration is stored, and the tables are empty.
unfoldable pub initial : Host → State
unfolding get_default_config
initial h = record {
  config = get_default_config h;
  nominees = [];
  arbitrators = [];
  casefiles = [];
  claims = [];
  accounts = [];
  sent = [];
}

-- An action that fails leaves no trace.
abbrev pub commit : State → Result State → State
commit s (ok s') = s'
commit s (err _) = s

-- A run of the contract. Each action meets a host and voting tables of its own.
unfoldable pub run : List (Host × Elections × Action) → State → State
run [] s = s
run ((h, e, a) ∷ rest) s = run rest (commit s (apply h e a s))
