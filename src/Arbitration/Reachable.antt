-- ===== src/Arbitration/Reachable.antt =====
-- What holds in every state that a run of the contract reaches.
use telos_arbitration_fix.Prelude.{ℕ, ◌≡◌, refl, some, List, [], ◌∷◌}
use telos_arbitration_fix.Eosio.{Result, ok, err, find, Host}
use telos_arbitration_fix.Trail.Voting.{Elections}
use telos_arbitration_fix.Arbitration.Types.{Casefile, State}
use telos_arbitration_fix.Arbitration.Dispatch.{Action, apply, initial, commit, run}
use telos_arbitration_fix.Arbitration.Keys.{apply-Keyed}
use telos_arbitration_fix.Arbitration.Cases.Refine.{ArbKeys, keyed}
use telos_arbitration_fix.Arbitration.Cases.Actions.{apply-TableStep}
use telos_arbitration_fix.Arbitration.Cases.Invariant.{IsValid, AllValid, TableStep-AllValid}

-- Every stored case is valid and every arbitrator stands under the own name.
abbrev pub Sound : State → Type 0
Sound s = ArbKeys s.arbitrators × AllValid s.casefiles

commit-Sound :
    (h : Host) (e : Elections) (a : Action) (s : State)
    → Sound s
    → (r : Result State) → apply h e a s ≡ r
    → Sound (commit s r)
commit-Sound h e a s (k, v) (ok s') done = (
  rw done at (apply-Keyed h e a s k),
  TableStep-AllValid (rw done at (apply-TableStep h e a s k)) v,
)
commit-Sound h e a s kv (err _) done = kv

run-Sound : (acts : List (Host × Elections × Action)) (s : State) → Sound s → Sound (run acts s)
unfolding run
run-Sound [] s kv = kv
run-Sound ((h, e, a) ∷ rest) s kv = run-Sound rest _ (commit-Sound h e a s kv (apply h e a s) refl)

initial-Sound : (h : Host) → Sound (initial h)
unfolding initial
initial-Sound h = (keyed (λ j a e. cc), λ j cf e. cc)

-- After any run of actions from the first state, whatever the hosts and the voting tables are, every
-- stored case has a status from CASE_SETUP to DISMISSED, has no arbitrators and no approvals before
-- CASE_INVESTIGATION, holds at most 21 unread claims with different summaries, lists no arbitrator
-- and no approval twice, and has a ruling once it is RESOLVED or DISMISSED.
pub run-IsValid :
    (h : Host) (acts : List (Host × Elections × Action)) (j : ℕ) (cf : Casefile)
    → find j (run acts (initial h)).casefiles ≡ some cf
    → IsValid cf
run-IsValid h acts = (run-Sound acts (initial h) (initial-Sound h)).1
