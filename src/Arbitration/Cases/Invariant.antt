-- ===== src/Arbitration/Cases/Invariant.antt =====
-- What holds of every case file that the contract stores.
use Prim.Native.String.{len}
use telos_arbitration_fix.Prelude.{
  ℕ, ◌≤◌, ◌<◌, ◌≡◌, ◌≢◌, ◌⊎◌, inl, inr, some, List, [], ◌∷◌, String, Option-cases, length, Distinct,
  arith, ap, length-append, Distinct-append_one, Distinct-erase_first,
}
use telos_arbitration_fix.Eosio.{Name, Table, find, modify, find-insert, find-modify, find-erase}
use telos_arbitration_fix.Arbitration.Types.{Casefile}
use telos_arbitration_fix.Arbitration.CaseSetup.{new_claim}
use telos_arbitration_fix.Arbitration.Claims.{
  DistinctClaims, DistinctClaims-append, DistinctClaims-erase, DistinctClaims-respond,
  length-erase_claim_at, length-respond_claim_at,
}
use telos_arbitration_fix.Arbitration.Helpers.{get_claim_at}
use telos_arbitration_fix.Arbitration.ArbActions.{leave_case, leave_cases}
use telos_arbitration_fix.Arbitration.Cases.Spec.{Change, TableStep, IsFresh}

pub record IsValid (cf : Casefile) : Type 0 where
  pub status : cf.case_status ≤ 8
  pub unassigned : (2 ≤ cf.case_status) ⊎ ((cf.arbitrators ≡ []) × (cf.approvals ≡ []))
  pub few_claims : length cf.unread_claims ≤ 21
  pub distinct_claims : DistinctClaims cf.unread_claims
  pub distinct_arbs : Distinct cf.arbitrators
  pub distinct_approvals : Distinct cf.approvals
  pub is_ruled : (cf.case_status < 7) ⊎ (cf.case_ruling ≢ "")

ne_empty : (s : String) → 0 < len s → s ≢ ""
ne_empty s h e = omega (arith, ap len e)

Change-IsValid : {c d : Casefile} → Change c d → IsValid c → IsValid d
Change-IsValid (Change.claim_added cf link p q r) v = record {
  status = v.status;
  unassigned = v.unassigned;
  few_claims = omega (arith, v.few_claims, length-append cf.unread_claims (new_claim link ∷ []));
  distinct_claims = DistinctClaims-append cf.unread_claims (new_claim link) r v.distinct_claims;
  distinct_arbs = v.distinct_arbs;
  distinct_approvals = v.distinct_approvals;
  is_ruled = v.is_ruled;
}
Change-IsValid (Change.claim_removed cf hash p) v =
    ground (
      arith,
      length-erase_claim_at hash cf.unread_claims,
      DistinctClaims-erase hash cf.unread_claims,
    )
Change-IsValid (Change.readied cf now p q) v = ground arith
Change-IsValid (Change.responded cf hash link p) v = ground (
  arith,
  length-respond_claim_at hash link cf.unread_claims,
  DistinctClaims-respond hash link cf.unread_claims,
)
Change-IsValid (Change.first_assigned cf arb p q) v =
    ground (arith, Distinct-append_one arb cf.arbitrators)
Change-IsValid (Change.assigned cf arb p q r) v =
    ground (arith, Distinct-append_one arb cf.arbitrators)
Change-IsValid (Change.claim_dismissed cf hash now p q) v =
    ground (
      arith,
      length-erase_claim_at hash cf.unread_claims,
      DistinctClaims-erase hash cf.unread_claims,
    )
Change-IsValid (Change.claim_accepted cf hash id now p q) v =
    ground (
      arith,
      length-erase_claim_at hash cf.unread_claims,
      DistinctClaims-erase hash cf.unread_claims,
    )
Change-IsValid (Change.ruled cf ruling p q) v = ground (arith, ne_empty ruling)
Change-IsValid (Change.approved cf arb p q r t u) v =
    ground (arith, Distinct-append_one arb cf.approvals)
Change-IsValid (Change.advanced cf arb p q r t u w) v = ground arith
Change-IsValid (Change.case_dismissed cf ruling now p q) v = ground (arith, ne_empty ruling)
Change-IsValid (Change.recused cf arb now p q) v =
    ground (arith, Distinct-erase_first arb cf.arbitrators)

-- Every stored case is valid.
abbrev pub AllValid : Table Casefile → Type 0
AllValid t = (j : ℕ) (cf : Casefile) → find j t ≡ some cf → IsValid cf

IsFresh-IsValid : (cf : Casefile) → IsFresh cf → IsValid cf
unfolding get_claim_at
IsFresh-IsValid cf f = ground arith

leave_case-IsValid : (arb : Name) (cf : Casefile) → IsValid cf → IsValid (leave_case arb cf)
unfolding leave_case
leave_case-IsValid arb cf v = ground (arith, Distinct-erase_first arb cf.arbitrators)

leave_cases-AllValid :
    (arb : Name) (ids : List ℕ) (t : Table Casefile) → AllValid t → AllValid (leave_cases arb ids t)
unfolding leave_cases
leave_cases-AllValid arb [] t v = v
leave_cases-AllValid arb (id ∷ ids) t v =
    leave_cases-AllValid arb ids (modify id (leave_case arb) t) λ j cf e.
      elim (Option-cases (find j t)) [
        | inl n ↦ ground (arith, find-modify j id (leave_case arb) t)
        | inr (c, n) ↦
            ground (arith, find-modify j id (leave_case arb) t, v j c n, leave_case-IsValid arb c)
      ]

pub TableStep-AllValid : {t u : Table Casefile} → TableStep t u → AllValid t → AllValid u
TableStep-AllValid TableStep.unchanged v j cf e = v j cf e
TableStep-AllValid {t} (TableStep.filed id c p q) v j cf e =
    ground (arith, find-insert j id c t, v j cf, IsFresh-IsValid c q)
TableStep-AllValid {t} (TableStep.changed id f c p q) v j cf e =
    ground (arith, find-modify j id f t, v j cf, Change-IsValid q, v id c p)
TableStep-AllValid {t} (TableStep.erased id c p) v j cf e =
    ground (arith, find-erase j id t, v j cf)
TableStep-AllValid {t} (TableStep.left_by arb ids) v j cf e =
    leave_cases-AllValid arb ids t v j cf e
