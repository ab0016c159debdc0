-- ===== src/Arbitration/Cases/Spec.antt =====
-- An abstract machine for one row of the table `casefiles` of eosio.arbitration.cpp: the ways in
-- which a case file may change, each with its condition. It knows nothing of who calls.
use Prim.Native.String.{len}
use telos_arbitration_fix.Prelude.{
  ℕ, ◌+◌, ◌≤◌, ◌<◌, ◌≡◌, ◌≢◌, false, true, none, some, List, [], ◌∷◌, ◌++◌, String, length,
  contains, erase_first,
}
use telos_arbitration_fix.Eosio.{Name, Table, find, insert, modify, erase}
use telos_arbitration_fix.Arbitration.Types.{Casefile, max_unread_claims}
use telos_arbitration_fix.Arbitration.Helpers.{get_claim_at, erase_claim_at, respond_claim_at}
use telos_arbitration_fix.Arbitration.CaseSetup.{new_claim}
use telos_arbitration_fix.Arbitration.ArbActions.{leave_cases}

-- A row on which no arbitrator has acted yet.
pub record IsFresh (cf : Casefile) : Type 0 where
  pub in_setup : cf.case_status ≡ 0
  pub unassigned : cf.arbitrators ≡ []
  pub unapproved : cf.approvals ≡ []
  pub one_claim : (link : String) × (cf.unread_claims ≡ new_claim link ∷ [])
  pub none_accepted : cf.accepted_claims ≡ []

pub data Change : Casefile → Casefile → Type 0 where
  claim_added :
      (cf : Casefile) (link : String)
      → cf.case_status ≡ 0
      → length cf.unread_claims < max_unread_claims
      → get_claim_at link cf.unread_claims ≡ none
      → Change cf (record cf { unread_claims = cf.unread_claims ++ new_claim link ∷ [] })
  claim_removed :
      (cf : Casefile) (hash : String)
      → cf.case_status ≡ 0
      → Change cf (record cf { unread_claims = erase_claim_at hash cf.unread_claims })
  readied :
      (cf : Casefile) (now : ℕ)
      → cf.case_status ≡ 0
      → 0 < length cf.unread_claims
      → Change cf (record cf { case_status = 1; last_edit = now })
  responded :
      (cf : Casefile) (hash link : String)
      → cf.case_status ≡ 2
      → Change cf (record cf { unread_claims = respond_claim_at hash link cf.unread_claims })
  first_assigned :
      (cf : Casefile) (arb : Name)
      → cf.case_status ≡ 1
      → contains arb cf.arbitrators ≡ false
      → Change cf (record cf { arbitrators = cf.arbitrators ++ arb ∷ []; case_status = 2 })
  assigned :
      (cf : Casefile) (arb : Name)
      → 2 ≤ cf.case_status
      → cf.case_status < 7
      → contains arb cf.arbitrators ≡ false
      → Change cf (record cf { arbitrators = cf.arbitrators ++ arb ∷ [] })
  claim_dismissed :
      (cf : Casefile) (hash : String) (now : ℕ)
      → 2 ≤ cf.case_status
      → cf.case_status < 5
      → Change cf
          (record cf { unread_claims = erase_claim_at hash cf.unread_claims; last_edit = now })
  claim_accepted :
      (cf : Casefile) (hash : String) (id now : ℕ)
      → 2 ≤ cf.case_status
      → cf.case_status < 5
      → Change cf (record cf {
        unread_claims = erase_claim_at hash cf.unread_claims;
        accepted_claims = cf.accepted_claims ++ id ∷ [];
        last_edit = now;
      })
  ruled :
      (cf : Casefile) (ruling : String)
      → cf.case_status ≡ 6
      → 0 < len ruling
      → Change cf (record cf { case_ruling = ruling })
  approved :
      (cf : Casefile) (arb : Name)
      → 2 ≤ cf.case_status
      → cf.case_status < 7
      → contains arb cf.arbitrators ≡ true
      → contains arb cf.approvals ≡ false
      → length cf.approvals + 1 < length cf.arbitrators
      → Change cf (record cf { approvals = cf.approvals ++ arb ∷ [] })
  advanced :
      (cf : Casefile) (arb : Name)
      → 2 ≤ cf.case_status
      → cf.case_status < 7
      → contains arb cf.arbitrators ≡ true
      → contains arb cf.approvals ≡ false
      → length cf.arbitrators ≤ length cf.approvals + 1
      → (cf.case_status ≡ 6 → cf.case_ruling ≢ "")
      → Change cf (record cf { case_status = cf.case_status + 1; approvals = [] })
  case_dismissed :
      (cf : Casefile) (ruling : String) (now : ℕ)
      → cf.case_status ≡ 2
      → 0 < len ruling
      → Change cf (record cf { case_status = 8; case_ruling = ruling; last_edit = now })
  recused :
      (cf : Casefile) (arb : Name) (now : ℕ)
      → 2 ≤ cf.case_status
      → cf.case_status < 7
      → Change cf (record cf { arbitrators = erase_first arb cf.arbitrators; last_edit = now })

-- What one action may do to the table of cases.
pub data TableStep (t : Table Casefile) : Table Casefile → Type 0 where
  unchanged : TableStep t t
  filed : (id : ℕ) (cf : Casefile) → find id t ≡ none → IsFresh cf → TableStep t (insert id cf t)
  changed :
      (id : ℕ) (f : Casefile → Casefile) (cf : Casefile)
      → find id t ≡ some cf
      → Change cf (f cf)
      → TableStep t (modify id f t)
  erased : (id : ℕ) (cf : Casefile) → find id t ≡ some cf → TableStep t (erase id t)
  left_by : (arb : Name) (ids : List ℕ) → TableStep t (leave_cases arb ids t)
