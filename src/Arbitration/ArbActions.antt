-- ===== src/Arbitration/ArbActions.antt =====
-- The regions Arb_Actions and BP_Multisig_Actions of
-- contracts/eosio.arbitration/src/eosio.arbitration.cpp.
use telos_arbitration_fix.Prelude.{
  ℕ, Bool, not, ◌&&◌, List, [], ◌∷◌, ◌==◌, ltb, leb, if◌then◌else◌, contains, erase_first,
}
use telos_arbitration_fix.Eosio.{
  Result, ok, check, or_fail, ◌>>=◌, ◌>>◌, Table, find, modify, erase, rows, Name, Host,
}
use telos_arbitration_fix.Eosio.Names
use telos_arbitration_fix.Arbitration.Types.{Claim, Casefile, State}
use telos_arbitration_fix.Arbitration.CaseState.{resolved}
use telos_arbitration_fix.Arbitration.ArbStatus.{removed, seat_expired}
use telos_arbitration_fix.Arbitration.Helpers.{del_claim, get_arb_permissions, set_permissions}

unfoldable pub newarbstatus : Host → ℕ → Name → State → Result State
newarbstatus h new_status arbitrator s = do
  check (h.has_auth arbitrator) "missing authority"
  or_fail (find arbitrator s.arbitrators) "Arbitrator not found"
  check (leb new_status 2) "Supplied status code is invalid for this action"
  ok (record s {
    arbitrators = modify arbitrator (λ row. record row { arb_status = new_status }) s.arbitrators;
  })

unfoldable pub setlangcodes : Host → Name → List ℕ → State → Result State
setlangcodes h arbitrator lang_codes s = do
  check (h.has_auth arbitrator) "missing authority"
  arb ← or_fail (find arbitrator s.arbitrators) "arbitrator not found"
  check (ltb h.now arb.term_expiration) "arbitrator term expired"
  ok (record s {
    arbitrators = modify arbitrator (λ a. record a { languages = lang_codes }) s.arbitrators;
  })

-- `del_claim` for each id
unfoldable pub del_claims : List ℕ → Table Claim → Result (Table Claim)
unfolding del_claim
del_claims [] t = ok t
del_claims (id ∷ ids) t = do u ← del_claim id t; del_claims ids u

-- The code reads the ids through its reference to the row after it erased the row; they are taken
-- to be the row's.
unfoldable pub deletecase : Host → ℕ → State → Result State
unfolding del_claims
deletecase h case_id s = do
  check (h.has_permission Names.eosio_arb Names.major) "missing authority"
  cf ← or_fail (find case_id s.casefiles) "case file not found"
  claims ← del_claims cf.accepted_claims s.claims
  ok (record s { casefiles = erase case_id s.casefiles; claims = claims })

-- One case of a dismissed arbitrator: closed cases stay as they are.
unfoldable pub leave_case : Name → Casefile → Casefile
leave_case arb cf =
    if contains arb cf.arbitrators && ltb cf.case_status resolved
    then record cf { arbitrators = erase_first arb cf.arbitrators }
    else cf

-- The loop over the open cases of a dismissed arbitrator; a case that is gone is passed over.
unfoldable pub leave_cases : Name → List ℕ → Table Casefile → Table Casefile
unfolding leave_case
leave_cases arb [] t = t
leave_cases arb (id ∷ ids) t = leave_cases arb ids (modify id (leave_case arb) t)

unfoldable pub dismissarb : Host → Name → Bool → State → Result State
unfolding leave_cases get_arb_permissions set_permissions
dismissarb h arb remove_from_cases s = do
  check (h.has_auth Names.eosio) "missing authority"
  check (h.is_account arb) "arb must be account"
  to_dismiss ← or_fail (find arb s.arbitrators) "arbitrator not found"
  check (not (to_dismiss.arb_status == seat_expired) && not (to_dismiss.arb_status == removed))
      "arbitrator is already removed or their seat has expired"
  let s₁ = record s {
    arbitrators = modify arb (λ a. record a { arb_status = removed }) s.arbitrators;
  }
  let s₂ = set_permissions h (get_arb_permissions (rows s₁.arbitrators)) s₁
  if remove_from_cases
      then ok (record s₂ {
        casefiles = leave_cases to_dismiss.arb to_dismiss.open_case_ids s₂.casefiles;
        arbitrators =
            modify arb (λ a. record a { arb_status = removed; open_case_ids = [] }) s₂.arbitrators;
      })
      else ok s₂
