-- ===== src/Arbitration/CaseSetup.antt =====
-- The region Case_Setup of contracts/eosio.arbitration/src/eosio.arbitration.cpp, with the handler of
-- token transfers, which fills the balances that the region spends.
use telos_arbitration_fix.Prelude.{
  ℕ, Bool, true, false, Option, none, some, List, [], ◌∷◌, ◌++◌, String, ◌==◌, ltb, leb,
  if◌then◌else◌, length, get_elem?,
}
use telos_arbitration_fix.Eosio.{
  Result, ok, check, or_fail, ◌>>=◌, ◌>>◌, find, erase, emplace, put, scope, keys, Name, Asset,
  Host, tlos, sym_eq,
}
use telos_arbitration_fix.Arbitration.Types.{Claim, Sent, State, max_unread_claims}
use telos_arbitration_fix.Arbitration.CaseState.{case_setup, awaiting_arbs}
use telos_arbitration_fix.Arbitration.Helpers.{
  send, update_case, validate_ipfs_url, get_claim_at, erase_claim_at, sub_balance, add_balance,
}

abbrev pub is_none {ℓ} : {A : Type ℓ} → Option A → Bool
is_none none = true
is_none (some _) = false

-- The claim that `claim{uint64_t(0), claim_link, ""}` makes.
abbrev pub new_claim : String → Claim
new_claim claim_link = record {
  claim_id = 0;
  claim_summary = claim_link;
  decision_link = "";
  response_link = "";
  decision_class = 0;
}

unfoldable pub withdraw : Host → Name → State → Result State
withdraw h owner s = do
  check (h.has_auth owner) "missing authority"
  bal ← or_fail (find tlos.code (scope owner s.accounts)) "balance does not exist"
  let s₁ = send (Sent.transfer h.self owner bal "eosio.arb withdrawal") s
  ok (record s₁ { accounts = put owner (erase tlos.code (scope owner s.accounts)) s.accounts })

-- The code reads `*respondant` whether or not there is one.
abbrev pub respondant_of : Host → Option Name → Name
respondant_of h none = h.uninitialised
respondant_of h (some r) = r

unfoldable pub filecase : Host → Name → String → List ℕ → Option Name → State → Result State
unfolding validate_ipfs_url
filecase h claimant claim_link lang_codes respondant s = do
  check (h.has_auth claimant) "missing authority"
  validate_ipfs_url claim_link
  check (elim respondant [ none ↦ true | some r ↦ h.is_account r ]) "respondant must be an account"
  let new_case_id = h.available_primary_key (keys s.casefiles)
  casefiles ←
      emplace new_case_id
        (record {
          case_id = new_case_id;
          case_status = case_setup;
          claimant = claimant;
          respondant = respondant_of h respondant;
          arbitrators = [];
          approvals = [];
          required_langs = lang_codes;
          unread_claims = new_claim claim_link ∷ [];
          accepted_claims = [];
          case_ruling = "";
          last_edit = h.now;
        })
        s.casefiles
  ok (
      send (Sent.execfile new_case_id claimant claim_link lang_codes (respondant_of h respondant))
        (record s { casefiles = casefiles }))

-- The actions that only log: `execfile`, and `execclaim` alike.
unfoldable pub exec_log : Host → State → Result State
exec_log h s = do check (h.has_auth h.self) "missing authority"; ok s

unfoldable pub addclaim : Host → ℕ → String → Name → State → Result State
unfolding validate_ipfs_url
addclaim h case_id claim_link claimant s = do
  check (h.has_auth claimant) "missing authority"
  validate_ipfs_url claim_link
  cf ← or_fail (find case_id s.casefiles) "Case Not Found"
  check (cf.case_status == case_setup) "claims cannot be added after CASE_SETUP is complete."
  check (ltb (length cf.unread_claims) max_unread_claims)
      "case file has reached maximum number of claims"
  check (claimant == cf.claimant) "you are not the claimant of this case."
  check (is_none (get_claim_at claim_link cf.unread_claims)) "ipfs hash exists in another claim"
  ok (
      update_case case_id
        (λ row. record row { unread_claims = cf.unread_claims ++ new_claim claim_link ∷ [] }) s)

unfoldable pub removeclaim : Host → ℕ → String → Name → State → Result State
removeclaim h case_id claim_hash claimant s = do
  check (h.has_auth claimant) "missing authority"
  cf ← or_fail (find case_id s.casefiles) "Case Not Found"
  check (cf.case_status == case_setup) "Claims cannot be removed after CASE_SETUP is complete"
  check (ltb 0 (length cf.unread_claims)) "No claims to remove"
  check (claimant == cf.claimant) "you are not the claimant of this case."
  or_fail (get_claim_at claim_hash cf.unread_claims) "Claim Hash not found in casefile"
  ok (
      update_case case_id
        (λ row. record row { unread_claims = erase_claim_at claim_hash cf.unread_claims }) s)

unfoldable pub shredcase : Host → ℕ → Name → State → Result State
shredcase h case_id claimant s = do
  check (h.has_auth claimant) "missing authority"
  cf ← or_fail (find case_id s.casefiles) "Case Not Found"
  check (claimant == cf.claimant) "you are not the claimant of this case."
  check (cf.case_status == case_setup) "cases can only be shredded during CASE_SETUP"
  ok (record s { casefiles = erase case_id s.casefiles })

-- The code indexes the fees unchecked; an empty list of fees is an error here.
unfoldable pub readycase : Host → ℕ → Name → State → Result State
readycase h case_id claimant s = do
  check (h.has_auth claimant) "missing authority"
  cf ← or_fail (find case_id s.casefiles) "Case Not Found"
  check (cf.case_status == case_setup) "Cases can only be readied during CASE_SETUP"
  check (leb 1 (length cf.unread_claims)) "Cases must have atleast one claim"
  check (claimant == cf.claimant) "you are not the claimant of this case."
  fee ← or_fail (get_elem? s.config.fee_structure 0) "fee_structure is empty"
  charge ← h.make_asset fee tlos
  accounts ← sub_balance h claimant charge s.accounts
  ok (
      update_case case_id (λ row. record row { case_status = awaiting_arbs; last_edit = h.now })
        (record s { accounts = accounts }))

-- A payment by the contract itself is passed over.
unfoldable pub transfer_handler : Host → Name → Name → Asset → State → Result State
transfer_handler h from to quantity s = do
  check (h.has_auth from) "missing authority"
  check (h.asset_is_valid quantity) "Invalid quantity"
  check (sym_eq quantity.symbol tlos) "only TLOS tokens are accepted by this contract"
  if from == h.self then ok s else do
    check (to == h.self) "to must be self"
    accounts ← add_balance h from quantity s.accounts
    ok (record s { accounts = accounts })
