-- ===== src/Arbitration/CaseProgress.antt =====
-- The region Case_Progression of contracts/eosio.arbitration/src/eosio.arbitration.cpp.
use text.Mathlib.Text.{◌==◌ as str_eq}
use telos_arbitration_fix.Prelude.{
  ℕ, ◌+◌, ◌%◌, not, ◌&&◌, ◌||◌, List, [], ◌∷◌, ◌++◌, String, ◌==◌, ltb, leb, if◌then◌else◌, length,
  contains, erase_first,
}
use telos_arbitration_fix.Eosio.{
  Result, ok, check, or_fail, ◌>>=◌, ◌>>◌, find, modify, emplace, keys, Name, Host,
}
use telos_arbitration_fix.Eosio.Names
use telos_arbitration_fix.Arbitration.Types.{Casefile, Sent, State, undecided, misc}
use telos_arbitration_fix.Arbitration.CaseState.{
  awaiting_arbs, case_investigation, decision, enforcement, resolved, dismissed,
}
use telos_arbitration_fix.Arbitration.ArbStatus.{available, removed}
use telos_arbitration_fix.Arbitration.Helpers.{
  send, update_case, validate_ipfs_url, assert_string, get_claim_at, erase_claim_at,
  respond_claim_at,
}

unfoldable pub respond : Host → ℕ → String → Name → String → State → Result State
unfolding validate_ipfs_url
respond h case_id claim_hash respondant response_link s = do
  check (h.has_auth respondant) "missing authority"
  validate_ipfs_url response_link
  cf ← or_fail (find case_id s.casefiles) "Case Not Found"
  check (not (cf.respondant == 0)) "case_id does not have a respondant"
  check (cf.respondant == respondant) "must be the respondant of this case_id"
  check (cf.case_status == case_investigation) "case status does NOT allow responses at this time"
  or_fail (get_claim_at claim_hash cf.unread_claims) "claim does not exist in unread claims"
  ok (
      update_case case_id
        (λ row. record row {
          unread_claims = respond_claim_at claim_hash response_link cf.unread_claims;
        })
        s)

-- It only validates; a service off the chain acts on it.
unfoldable pub addarbs : Host → ℕ → Name → ℕ → State → Result State
addarbs h case_id assigned_arb num_arbs_to_assign s = do
  check (h.has_auth assigned_arb) "missing authority"
  cf ← or_fail (find case_id s.casefiles) "Case Not Found"
  check (contains assigned_arb cf.arbitrators) "arbitrator isn't assigned to this case_id"
  ok s

unfoldable pub assigntocase : Host → ℕ → Name → State → Result State
assigntocase h case_id arb_to_assign s = do
  check (h.has_permission Names.eosio_arb Names.assign) "missing authority"
  arb ← or_fail (find arb_to_assign s.arbitrators) "actor is not a registered Arbitrator"
  check (not (arb.arb_status == removed)) "Arbitrator has been removed."
  check (arb.arb_status == available)
      "Arb status isn't set to available, Arbitrator is unable to receive new cases"
  let s₁ = record s {
    arbitrators =
        modify arb_to_assign
          (λ row. record row { open_case_ids = arb.open_case_ids ++ case_id ∷ [] }) s.arbitrators;
  }
  cf ← or_fail (find case_id s.casefiles) "Case not found with given Case ID"
  check (leb awaiting_arbs cf.case_status) "case file is still in CASE_SETUP"
  check (ltb cf.case_status resolved) "case file can not be RESOLVED or DISMISSED"
  check (not (contains arb_to_assign cf.arbitrators)) "Arbitrator is already assigned to this case"
  ok (
      update_case case_id
        (λ row. record row {
          arbitrators = cf.arbitrators ++ arb.arb ∷ [];
          case_status =
              if row.case_status == awaiting_arbs then case_investigation else row.case_status;
        })
        s₁)

unfoldable pub dismissclaim : Host → ℕ → Name → String → String → State → Result State
unfolding validate_ipfs_url assert_string
dismissclaim h case_id assigned_arb claim_hash memo s = do
  check (h.has_auth assigned_arb) "missing authority"
  validate_ipfs_url claim_hash
  cf ← or_fail (find case_id s.casefiles) "Case not found"
  check (ltb cf.case_status decision && ltb awaiting_arbs cf.case_status)
      "unable to dismiss claim while this case file is in this status"
  check (contains assigned_arb cf.arbitrators) "Only an assigned arbitrator can dismiss a claim"
  assert_string memo "memo must be greater than 0 and less than 255"
  or_fail (get_claim_at claim_hash cf.unread_claims) "Claim Hash not found in casefile"
  ok (
      update_case case_id
        (λ row. record row {
          unread_claims = erase_claim_at claim_hash cf.unread_claims;
          last_edit = h.now;
        })
        s)

unfoldable pub acceptclaim : Host → ℕ → Name → String → String → ℕ → State → Result State
unfolding validate_ipfs_url
acceptclaim h case_id assigned_arb claim_hash decision_link decision_class s = do
  check (h.has_auth assigned_arb) "missing authority"
  validate_ipfs_url claim_hash
  validate_ipfs_url decision_link
  cf ← or_fail (find case_id s.casefiles) "Case not found"
  check (contains assigned_arb cf.arbitrators) "Only the assigned arbitrator can accept a claim"
  check (ltb undecided decision_class && leb decision_class misc)
      "decision_class must be valid [2 - 15]"
  check (ltb cf.case_status decision && ltb awaiting_arbs cf.case_status)
      "unable to dismiss claim while this case file is in this status"
  claim ← or_fail (get_claim_at claim_hash cf.unread_claims) "Claim Hash not found in casefile"
  let new_claim_id = h.available_primary_key (keys s.claims)
  let s₁ =
      update_case case_id
        (λ row. record row {
          unread_claims = erase_claim_at claim_hash cf.unread_claims;
          accepted_claims = cf.accepted_claims ++ new_claim_id ∷ [];
          last_edit = h.now;
        })
        s
  claims ←
      emplace new_claim_id
        (record {
          claim_id = new_claim_id;
          claim_summary = claim_hash;
          decision_link = decision_link;
          response_link = claim.response_link;
          decision_class = decision_class;
        })
        s.claims
  ok (
      send
        (Sent.execclaim new_claim_id case_id assigned_arb claim_hash decision_link decision_class)
        (record s₁ { claims = claims }))

unfoldable pub setruling : Host → ℕ → Name → String → State → Result State
unfolding validate_ipfs_url
setruling h case_id assigned_arb case_ruling s = do
  check (h.has_auth assigned_arb) "missing authority"
  cf ← or_fail (find case_id s.casefiles) "Case not found with given Case ID"
  check (cf.case_status == enforcement) "case_status must be ENFORCEMENT"
  check (contains assigned_arb cf.arbitrators) "arbitrator is not assigned to this case_id"
  validate_ipfs_url case_ruling
  ok (update_case case_id (λ row. record row { case_ruling = case_ruling }) s)

-- The status and the approvals after one more approval; the status is a uint8_t.
unfoldable pub approve_advance : Name → Casefile → ℕ × List Name
approve_advance assigned_arb cf =
    if ltb (length cf.approvals + 1) (length cf.arbitrators)
    then (cf.case_status, cf.approvals ++ assigned_arb ∷ [])
    else if leb (length cf.arbitrators) (length cf.approvals + 1)
    then ((cf.case_status + 1) % 256, [])
    else (cf.case_status, cf.approvals)

unfoldable pub advancecase : Host → ℕ → Name → State → Result State
unfolding approve_advance
advancecase h case_id assigned_arb s = do
  check (h.has_auth assigned_arb) "missing authority"
  cf ← or_fail (find case_id s.casefiles) "Case not found with given Case ID"
  check (ltb awaiting_arbs cf.case_status) "case_status must be greater than AWAITING_ARBS"
  check (ltb cf.case_status resolved && not (cf.case_status == dismissed))
      "Case has already been resolved or dismissed"
  check (not (cf.case_status + 1 == resolved) || not (str_eq cf.case_ruling ""))
      "Case Ruling must be set before advancing case to RESOLVED status"
  check (contains assigned_arb cf.arbitrators) "actor is not assigned to this case_id"
  check (not (contains assigned_arb cf.approvals))
      "arbitrator has already approved advancing this case"
  ok (
      update_case case_id
        (λ row. record row {
          case_status = (approve_advance assigned_arb cf).0;
          approvals = (approve_advance assigned_arb cf).1;
        })
        s)

unfoldable pub dismisscase : Host → ℕ → Name → String → State → Result State
unfolding validate_ipfs_url
dismisscase h case_id assigned_arb ruling_link s = do
  check (h.has_auth assigned_arb) "missing authority"
  validate_ipfs_url ruling_link
  cf ← or_fail (find case_id s.casefiles) "No case found with given case_id"
  check (contains assigned_arb cf.arbitrators) "Arbitrator isn't selected for this case"
  check (cf.case_status == case_investigation) "Case is already dismissed or complete"
  ok (
      update_case case_id
        (λ row. record row {
          case_status = dismissed;
          case_ruling = ruling_link;
          last_edit = h.now;
        })
        s)

unfoldable pub recuse : Host → ℕ → String → Name → State → Result State
unfolding assert_string
recuse h case_id rationale assigned_arb s = do
  check (h.has_auth assigned_arb) "missing authority"
  cf ← or_fail (find case_id s.casefiles) "No case found for given case_id"
  check (ltb awaiting_arbs cf.case_status && ltb cf.case_status resolved)
      "unable to recuse if the case is resolved"
  check (contains assigned_arb cf.arbitrators) "Arbitrator isn't selected for this case."
  assert_string rationale "rationale must be greater than 0 and less than 255"
  ok (
      update_case case_id
        (λ row. record row {
          arbitrators = erase_first assigned_arb cf.arbitrators;
          last_edit = h.now;
        })
        s)
