-- ===== src/Arbitration/Cases/Arbs.antt =====
-- The actions on the arbitrators and approvals of a case follow the abstract machine of `Spec`.
use telos_arbitration_fix.Prelude.{
  ℕ, ◌≤◌, ◌<◌, ◌≡◌, ◌≢◌, inl, inr, true, false, List, [], ◌∷◌, ◌++◌, Bool, Bool-cases, Option-cases,
  arith, ◌==◌, if◌then◌else◌, contains,
}
use telos_arbitration_fix.Eosio.{Table, find, Name, Host}
use telos_arbitration_fix.Arbitration.Types.{Casefile, State}
use telos_arbitration_fix.Arbitration.CaseState.{awaiting_arbs, case_investigation}
use telos_arbitration_fix.Arbitration.CaseProgress.{assigntocase, approve_advance, advancecase}
use telos_arbitration_fix.Arbitration.ArbActions.{dismissarb, leave_cases}
use telos_arbitration_fix.Arbitration.Cases.Spec.{Change, TableStep}
use telos_arbitration_fix.Arbitration.Cases.Refine.{Steps, ArbKeys, arb_key, changed_row}
use text.Mathlib.TextEquality.{eq_iff}

assigned_row :
    (cf : Casefile) (arb : Name)
    → 1 ≤ cf.case_status
    → cf.case_status < 7
    → contains arb cf.arbitrators ≡ false
    → Change cf (record cf {
      arbitrators = cf.arbitrators ++ arb ∷ [];
      case_status = if cf.case_status == awaiting_arbs then case_investigation else cf.case_status;
    })
assigned_row cf arb lo hi c = elim (Bool-cases (cf.case_status == awaiting_arbs)) [
  | inl e ↦ rw e (Change.first_assigned cf arb (ground arith) c)
  | inr e ↦ rw e (Change.assigned cf arb (ground arith) hi c)
]

advanced_row :
    (cf : Casefile) (arb : Name)
    → 2 ≤ cf.case_status
    → cf.case_status < 7
    → contains arb cf.arbitrators ≡ true
    → contains arb cf.approvals ≡ false
    → (cf.case_status ≡ 6 → cf.case_ruling ≢ "")
    → Change cf (record cf {
      case_status = (approve_advance arb cf).0;
      approvals = (approve_advance arb cf).1;
    })
unfolding approve_advance
advanced_row cf arb lo hi a p r =
    ground (arith, Change.approved cf arb lo hi a p, Change.advanced cf arb lo hi a p)

module _ (h : Host) (id : ℕ) (s : State) where
  pub assigntocase-Steps : (a : Name) → ArbKeys s.arbitrators → Steps s (assigntocase h id a s)
  unfolding assigntocase
  assigntocase-Steps a own = elim (Option-cases (find id s.casefiles)) [
    | inl e ↦ ground arith
    | inr (cf, e) ↦ elim (Option-cases (find a s.arbitrators)) [
      | inl n ↦ ground arith
      | inr (arb, n) ↦ ground (
        arith,
        arb_key own a arb n,
        changed_row s.casefiles id cf (λ row. record row {
          arbitrators = cf.arbitrators ++ arb.arb ∷ [];
          case_status =
              if row.case_status == awaiting_arbs then case_investigation else row.case_status;
        }),
        assigned_row cf arb.arb,
      )
    ]
  ]

  pub advancecase-Steps : (a : Name) → Steps s (advancecase h id a s)
  unfolding advancecase
  advancecase-Steps a = elim (Option-cases (find id s.casefiles)) [
    | inl e ↦ ground arith
    | inr (cf, e) ↦ ground (
      arith,
      eq_iff cf.case_ruling "",
      changed_row s.casefiles id cf (λ row. record row {
        case_status = (approve_advance a cf).0;
        approvals = (approve_advance a cf).1;
      }),
      advanced_row cf a,
    )
  ]

pub unchanged_row : (t : Table Casefile) → TableStep t t
unchanged_row t = TableStep.unchanged

left_row : (t : Table Casefile) (arb : Name) (ids : List ℕ) → TableStep t (leave_cases arb ids t)
left_row t arb ids = TableStep.left_by arb ids

pub dismissarb-Steps :
    (h : Host) (a : Name) (all : Bool) (s : State) → Steps s (dismissarb h a all s)
unfolding dismissarb
dismissarb-Steps h a all s = elim (Option-cases (find a s.arbitrators)) [
  | inl n ↦ ground arith
  | inr (arb, n) ↦
      ground (arith, unchanged_row s.casefiles, left_row s.casefiles arb.arb arb.open_case_ids)
]
