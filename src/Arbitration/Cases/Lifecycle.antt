-- ===== src/Arbitration/Cases/Lifecycle.antt =====
-- How the status of a case moves, action by action.
use telos_arbitration_fix.Prelude.{ℕ, ◌+◌, ◌<◌, ◌≡◌, ◌⊎◌, some, List, [], ◌∷◌, arith}
use telos_arbitration_fix.Eosio.{
  ok, OnOk-elim, Name, Host, Table, find, modify, find-insert, find-modify, find-erase,
}
use telos_arbitration_fix.Trail.Voting.{Elections}
use telos_arbitration_fix.Arbitration.Types.{Casefile, State}
use telos_arbitration_fix.Arbitration.Dispatch.{Action, apply}
use telos_arbitration_fix.Arbitration.ArbActions.{leave_case, leave_cases}
use telos_arbitration_fix.Arbitration.Cases.Spec.{Change, TableStep}
use telos_arbitration_fix.Arbitration.Cases.Refine.{ArbKeys}
use telos_arbitration_fix.Arbitration.Cases.Actions.{apply-TableStep}

-- CASE_SETUP, AWAITING_ARBS and CASE_INVESTIGATION follow one another; from there each status goes
-- to the next, up to RESOLVED, and CASE_INVESTIGATION may also go to DISMISSED.
abbrev pub Transition : ℕ → ℕ → Type 0
Transition m n = (n ≡ m) ⊎ ((m < 7) × (n ≡ m + 1)) ⊎ ((m ≡ 2) × (n ≡ 8))

-- What stays with a case for good, and how its status may move.
pub record Continues (c d : Casefile) : Type 0 where
  pub id_kept : d.case_id ≡ c.case_id
  pub claimant_kept : d.claimant ≡ c.claimant
  pub respondant_kept : d.respondant ≡ c.respondant
  pub langs_kept : d.required_langs ≡ c.required_langs
  pub moved : Transition c.case_status d.case_status

Change-Continues : {c d : Casefile} → Change c d → Continues c d
Change-Continues (Change.claim_added cf link p q r) = ground arith
Change-Continues (Change.claim_removed cf hash p) = ground arith
Change-Continues (Change.readied cf now p q) = ground arith
Change-Continues (Change.responded cf hash link p) = ground arith
Change-Continues (Change.first_assigned cf arb p q) = ground arith
Change-Continues (Change.assigned cf arb p q r) = ground arith
Change-Continues (Change.claim_dismissed cf hash now p q) = ground arith
Change-Continues (Change.claim_accepted cf hash id now p q) = ground arith
Change-Continues (Change.ruled cf ruling p q) = ground arith
Change-Continues (Change.approved cf arb p q r t u) = ground arith
Change-Continues (Change.advanced cf arb p q r t u w) = ground arith
Change-Continues (Change.case_dismissed cf ruling now p q) = ground arith
Change-Continues (Change.recused cf arb now p q) = ground arith

-- Leaving cases changes nothing but their arbitrators.
record SameCase (c d : Casefile) : Type 0 where
  same_id : d.case_id ≡ c.case_id
  same_claimant : d.claimant ≡ c.claimant
  same_respondant : d.respondant ≡ c.respondant
  same_langs : d.required_langs ≡ c.required_langs
  same_status : d.case_status ≡ c.case_status

leave_case-SameCase : (arb : Name) (c : Casefile) → SameCase c (leave_case arb c)
unfolding leave_case
leave_case-SameCase arb c = ground arith

SameCase-trans : (b c d : Casefile) → SameCase b c → SameCase c d → SameCase b d
SameCase-trans b c d p q = ground arith

leave_cases-SameCase :
    (arb : Name) (ids : List ℕ) (t : Table Casefile) (j : ℕ) (c d : Casefile)
    → find j t ≡ some c
    → find j (leave_cases arb ids t) ≡ some d
    → SameCase c d
unfolding leave_cases
leave_cases-SameCase arb [] t j c d p q = ground arith
leave_cases-SameCase arb (id ∷ ids) t j c d p q = ground (
  arith,
  find-modify j id (leave_case arb) t,
  leave_case-SameCase arb c,
  SameCase-trans c (leave_case arb c) d,
  leave_cases-SameCase arb ids (modify id (leave_case arb) t) j c d,
  leave_cases-SameCase arb ids (modify id (leave_case arb) t) j (leave_case arb c) d,
)

TableStep-Continues :
    {t u : Table Casefile} (j : ℕ) (c d : Casefile)
    → TableStep t u
    → find j t ≡ some c
    → find j u ≡ some d
    → Continues c d
TableStep-Continues j c d TableStep.unchanged p q = ground arith
TableStep-Continues {t} j c d (TableStep.filed id cf a b) p q =
    ground (arith, find-insert j id cf t)
TableStep-Continues {t} j c d (TableStep.changed id f cf a b) p q =
    ground (arith, find-modify j id f t, Change-Continues b)
TableStep-Continues {t} j c d (TableStep.erased id cf a) p q = ground (arith, find-erase j id t)
TableStep-Continues {t} j c d (TableStep.left_by arb ids) p q =
    ground (arith, leave_cases-SameCase arb ids t j c d)

-- An action that succeeds, in a state where each arbitrator stands under the own name, keeps the
-- id, claimant, respondant and languages of every case that it does not delete, and moves its
-- status along the life cycle: not at all, to the next status up to RESOLVED, or from
-- CASE_INVESTIGATION to DISMISSED.
pub apply-Continues :
    (h : Host) (e : Elections) (a : Action) (s s' : State) (j : ℕ) (c d : Casefile)
    → ArbKeys s.arbitrators
    → apply h e a s ≡ ok s'
    → find j s.casefiles ≡ some c
    → find j s'.casefiles ≡ some d
    → Continues c d
apply-Continues h e a s s' j c d k done = TableStep-Continues j c d (
    OnOk-elim (λ x. TableStep s.casefiles x.casefiles) (apply h e a s) s'
      (apply-TableStep h e a s k) done)
