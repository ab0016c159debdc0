-- ===== src/Arbitration/Cases/Refine.antt =====
-- Each action on cases follows the abstract machine of `Spec`.
use telos_arbitration_fix.Prelude.{
  ℕ, ◌≡◌, inl, inr, none, some, List, [], ◌∷◌, ◌++◌, String, Option, Option-cases, arith,
  erase_first,
}
use telos_arbitration_fix.Eosio.{Result, OnOk, Table, find, insert, modify, keys, Name, Host}
use telos_arbitration_fix.Arbitration.Types.{Arbitrator, Casefile, State}
use telos_arbitration_fix.Arbitration.CaseState.{case_setup, awaiting_arbs, dismissed}
use telos_arbitration_fix.Arbitration.Helpers.{erase_claim_at, respond_claim_at}
use telos_arbitration_fix.Arbitration.CaseSetup.{
  new_claim, filecase, addclaim, removeclaim, shredcase, readycase, respondant_of,
}
use telos_arbitration_fix.Arbitration.CaseProgress.{
  respond, dismissclaim, acceptclaim, setruling, dismisscase, recuse,
}
use telos_arbitration_fix.Arbitration.ArbActions.{deletecase}
use telos_arbitration_fix.Arbitration.Cases.Spec.{Change, TableStep, IsFresh}

-- What an action did to the table of cases, if it succeeded.
abbrev pub Steps : State → Result State → Type 0
Steps s = OnOk λ s'. TableStep s.casefiles s'.casefiles

-- Every arbitrator stands under the own name.
pub data ArbKeys (t : Table Arbitrator) : Type 0 where
  keyed : ((j : Name) (a : Arbitrator) → find j t ≡ some a → a.arb ≡ j) → ArbKeys t

pub arb_key :
    {t : Table Arbitrator} → ArbKeys t → (j : Name) (a : Arbitrator) → find j t ≡ some a → a.arb ≡ j
arb_key (keyed k) = k

module _ (t : Table Casefile) (id : ℕ) (cf : Casefile) (f : Casefile → Casefile) where
  pub changed_row : find id t ≡ some cf → Change cf (f cf) → TableStep t (modify id f t)
  changed_row e c = TableStep.changed id f cf e c

filed_row :
    (t : Table Casefile) (id : ℕ) (cf : Casefile)
    → find id t ≡ none
    → IsFresh cf
    → TableStep t (insert id cf t)
filed_row t id cf e f = TableStep.filed id cf e f

pub filecase-Steps :
    (h : Host) (c : Name) (link : String) (ls : List ℕ) (r : Option Name) (s : State)
    → Steps s (filecase h c link ls r s)
unfolding filecase
filecase-Steps h c link ls r s =
    let id = h.available_primary_key (keys s.casefiles) in
    ground (
      arith,
      filed_row s.casefiles id (record {
        case_id = id;
        case_status = case_setup;
        claimant = c;
        respondant = respondant_of h r;
        arbitrators = [];
        approvals = [];
        required_langs = ls;
        unread_claims = new_claim link ∷ [];
        accepted_claims = [];
        case_ruling = "";
        last_edit = h.now;
      }),
    )

module _ (h : Host) (id : ℕ) (s : State) where
  pub addclaim-Steps : (link : String) (c : Name) → Steps s (addclaim h id link c s)
  unfolding addclaim
  addclaim-Steps link c = elim (Option-cases (find id s.casefiles)) [
    | inl e ↦ ground arith
    | inr (cf, e) ↦ ground (
      arith,
      changed_row s.casefiles id cf
          (λ row. record row { unread_claims = cf.unread_claims ++ new_claim link ∷ [] }),
      Change.claim_added cf link,
    )
  ]

  pub removeclaim-Steps : (hash : String) (c : Name) → Steps s (removeclaim h id hash c s)
  unfolding removeclaim
  removeclaim-Steps hash c = elim (Option-cases (find id s.casefiles)) [
    | inl e ↦ ground arith
    | inr (cf, e) ↦ ground (
      arith,
      changed_row s.casefiles id cf
          (λ row. record row { unread_claims = erase_claim_at hash cf.unread_claims }),
      Change.claim_removed cf hash,
    )
  ]

  pub shredcase-Steps : (c : Name) → Steps s (shredcase h id c s)
  unfolding shredcase
  shredcase-Steps c = elim (Option-cases (find id s.casefiles)) [
    | inl e ↦ ground arith
    | inr (cf, e) ↦ ground (arith, TableStep.erased id cf e)
  ]

  pub readycase-Steps : (c : Name) → Steps s (readycase h id c s)
  unfolding readycase
  readycase-Steps c = elim (Option-cases (find id s.casefiles)) [
    | inl e ↦ ground arith
    | inr (cf, e) ↦ ground (
      arith,
      changed_row s.casefiles id cf
          (λ row. record row { case_status = awaiting_arbs; last_edit = h.now }),
      Change.readied cf h.now,
    )
  ]

  pub respond-Steps :
      (hash : String) (r : Name) (link : String) → Steps s (respond h id hash r link s)
  unfolding respond
  respond-Steps hash r link = elim (Option-cases (find id s.casefiles)) [
    | inl e ↦ ground arith
    | inr (cf, e) ↦ ground (
      arith,
      changed_row s.casefiles id cf
          (λ row. record row { unread_claims = respond_claim_at hash link cf.unread_claims }),
      Change.responded cf hash link,
    )
  ]

  pub dismissclaim-Steps :
      (a : Name) (hash memo : String) → Steps s (dismissclaim h id a hash memo s)
  unfolding dismissclaim
  dismissclaim-Steps a hash memo = elim (Option-cases (find id s.casefiles)) [
    | inl e ↦ ground arith
    | inr (cf, e) ↦ ground (
      arith,
      changed_row s.casefiles id cf (λ row. record row {
        unread_claims = erase_claim_at hash cf.unread_claims;
        last_edit = h.now;
      }),
      Change.claim_dismissed cf hash h.now,
    )
  ]

  pub acceptclaim-Steps :
      (a : Name) (hash link : String) (d : ℕ) → Steps s (acceptclaim h id a hash link d s)
  unfolding acceptclaim
  acceptclaim-Steps a hash link d =
      let new = h.available_primary_key (keys s.claims) in
      elim (Option-cases (find id s.casefiles)) [
        | inl e ↦ ground arith
        | inr (cf, e) ↦ ground (
          arith,
          changed_row s.casefiles id cf (λ row. record row {
            unread_claims = erase_claim_at hash cf.unread_claims;
            accepted_claims = cf.accepted_claims ++ new ∷ [];
            last_edit = h.now;
          }),
          Change.claim_accepted cf hash new h.now,
        )
      ]

  pub setruling-Steps : (a : Name) (r : String) → Steps s (setruling h id a r s)
  unfolding setruling
  setruling-Steps a r = elim (Option-cases (find id s.casefiles)) [
    | inl e ↦ ground arith
    | inr (cf, e) ↦ ground (
      arith,
      changed_row s.casefiles id cf (λ row. record row { case_ruling = r }),
      Change.ruled cf r,
    )
  ]

  pub dismisscase-Steps : (a : Name) (r : String) → Steps s (dismisscase h id a r s)
  unfolding dismisscase
  dismisscase-Steps a r = elim (Option-cases (find id s.casefiles)) [
    | inl e ↦ ground arith
    | inr (cf, e) ↦ ground (
      arith,
      changed_row s.casefiles id cf
          (λ row. record row { case_status = dismissed; case_ruling = r; last_edit = h.now }),
      Change.case_dismissed cf r h.now,
    )
  ]

  pub recuse-Steps : (why : String) (a : Name) → Steps s (recuse h id why a s)
  unfolding recuse
  recuse-Steps why a = elim (Option-cases (find id s.casefiles)) [
    | inl e ↦ ground arith
    | inr (cf, e) ↦ ground (
      arith,
      changed_row s.casefiles id cf
          (λ row. record row { arbitrators = erase_first a cf.arbitrators; last_edit = h.now }),
      Change.recused cf a h.now,
    )
  ]

  pub deletecase-Steps : Steps s (deletecase h id s)
  unfolding deletecase
  deletecase-Steps = elim (Option-cases (find id s.casefiles)) [
    | inl e ↦ ground arith
    | inr (cf, e) ↦ ground (arith, TableStep.erased id cf e)
  ]
