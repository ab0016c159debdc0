-- ===== src/Arbitration/Cases/Actions.antt =====
-- Every action of the contract follows the abstract machine of `Spec`.
use telos_arbitration_fix.Prelude.{◌≡◌, refl, List, [], ◌∷◌, String, arith, ◌∙◌}
use telos_arbitration_fix.Eosio.{erase, Name, Host}
use telos_arbitration_fix.Trail.Voting.{Candidate, Leaderboard, Elections}
use telos_arbitration_fix.Arbitration.Types.{Nominee, State}
use telos_arbitration_fix.Arbitration.Helpers.{add_arbitrator}
use telos_arbitration_fix.Arbitration.Elections.{
  setconfig, initelection, regarb, unregnominee, candaddlead, candrmvlead,
}
use telos_arbitration_fix.Arbitration.Endelection.{
  endelection, elect, elect_all, seat_winners, add_nominees, next_election, conclude_election,
}
use telos_arbitration_fix.Arbitration.CaseSetup.{withdraw, exec_log, transfer_handler}
use telos_arbitration_fix.Arbitration.CaseProgress.{addarbs}
use telos_arbitration_fix.Arbitration.ArbActions.{newarbstatus, setlangcodes}
use telos_arbitration_fix.Arbitration.Dispatch.{Action, apply}
use telos_arbitration_fix.Arbitration.Cases.Spec.{TableStep}
use telos_arbitration_fix.Arbitration.Cases.Refine
use telos_arbitration_fix.Arbitration.Cases.Refine.{Steps, ArbKeys}
use telos_arbitration_fix.Arbitration.Cases.Arbs.{
  assigntocase-Steps, advancecase-Steps, dismissarb-Steps, unchanged_row,
}

casefiles-add_arbitrator :
    (h : Host) (n : Name) (l : String) (s : State)
    → (add_arbitrator h n l s).casefiles ≡ s.casefiles
unfolding add_arbitrator
casefiles-add_arbitrator h n l s = ground arith

-- The helpers of the elections leave the cases alone.
pub casefiles-elect_all :
    (h : Host) (cs : List Candidate) (s : State) → (elect_all h cs s).casefiles ≡ s.casefiles
unfolding elect_all
casefiles-elect_all h [] s = refl
casefiles-elect_all h (c ∷ cs) s = casefiles-elect_all h cs (elect h c s) ∙ one
  where
    one : (elect h c s).casefiles ≡ s.casefiles
    one = ground (
      arith,
      casefiles-add_arbitrator h c.member c.info_link
          (record s { nominees = erase c.member s.nominees }),
    )

pub casefiles-add_nominees :
    (h : Host) (ns : List Nominee) (s : State) → (add_nominees h ns s).casefiles ≡ s.casefiles
unfolding add_nominees
casefiles-add_nominees h [] s = refl
casefiles-add_nominees h (n ∷ ns) s = casefiles-add_nominees h ns _

casefiles-seat_winners :
    (h : Host) (cs : List Candidate) (s : State) → (seat_winners h cs s).casefiles ≡ s.casefiles
unfolding seat_winners
casefiles-seat_winners h [] s = refl
casefiles-seat_winners h (c ∷ cs) s = ground (arith, casefiles-elect_all h (c ∷ cs) s)

casefiles-next_election :
    (h : Host) (e : Elections) (s : State) → (next_election h e s).casefiles ≡ s.casefiles
unfolding next_election
casefiles-next_election h e s = grind (arith, casefiles-add_nominees)

casefiles-conclude_election :
    (h : Host) (e : Elections) (b : Leaderboard) (s : State)
    → (conclude_election h e b s).casefiles ≡ s.casefiles
unfolding conclude_election
casefiles-conclude_election h e b s = grind (arith, casefiles-next_election, casefiles-seat_winners)

module _ (h : Host) (e : Elections) (s : State) where
  same : (s' : State) → s'.casefiles ≡ s.casefiles → TableStep s.casefiles s'.casefiles
  same s' p = rw p (unchanged_row s.casefiles)

  initelection-Steps : Steps s (initelection h e s)
  unfolding initelection
  initelection-Steps = ground (arith, unchanged_row s.casefiles)

  regarb-Steps : (n : Name) (l : String) → Steps s (regarb h n l s)
  unfolding regarb
  regarb-Steps n l = ground (arith, unchanged_row s.casefiles)

  endelection-Steps : (n : Name) → Steps s (endelection h e n s)
  unfolding endelection
  endelection-Steps n = grind (arith, same, casefiles-conclude_election)

-- Whatever action runs, in a state where each arbitrator stands under the own name: the table of
-- cases stays as it is, gains a fresh case under a free key, loses one row, loses one arbitrator
-- from open cases, or has one row changed as the abstract machine allows.
pub apply-TableStep :
    (h : Host) (e : Elections) (a : Action) (s : State)
    → ArbKeys s.arbitrators
    → Steps s (apply h e a s)
unfolding apply setconfig unregnominee candaddlead candrmvlead withdraw exec_log addarbs
    newarbstatus setlangcodes transfer_handler
apply-TableStep h e (Action.set_config n d b t fees) s k = ground (arith, unchanged_row s.casefiles)
apply-TableStep h e Action.init_election s k = initelection-Steps h e s
apply-TableStep h e (Action.reg_arb n l) s k = regarb-Steps h e s n l
apply-TableStep h e (Action.unreg_nominee n) s k = ground (arith, unchanged_row s.casefiles)
apply-TableStep h e (Action.cand_add_lead n l) s k = ground (arith, unchanged_row s.casefiles)
apply-TableStep h e (Action.cand_rmv_lead n) s k = ground (arith, unchanged_row s.casefiles)
apply-TableStep h e (Action.end_election n) s k = endelection-Steps h e s n
apply-TableStep h e (Action.withdraw_balance o) s k = ground (arith, unchanged_row s.casefiles)
apply-TableStep h e (Action.file_case c l ls r) s k = Refine.filecase-Steps h c l ls r s
apply-TableStep h e (Action.exec_file _ _ _ _ _) s k = ground (arith, unchanged_row s.casefiles)
apply-TableStep h e (Action.add_claim id l c) s k = Refine.addclaim-Steps h id s l c
apply-TableStep h e (Action.remove_claim id l c) s k = Refine.removeclaim-Steps h id s l c
apply-TableStep h e (Action.shred_case id c) s k = Refine.shredcase-Steps h id s c
apply-TableStep h e (Action.ready_case id c) s k = Refine.readycase-Steps h id s c
apply-TableStep h e (Action.respond_claim id ch r l) s k = Refine.respond-Steps h id s ch r l
apply-TableStep h e (Action.add_arbs id a n) s k = ground (arith, unchanged_row s.casefiles)
apply-TableStep h e (Action.assign_to_case id a) s k = assigntocase-Steps h id s a k
apply-TableStep h e (Action.dismiss_claim id a ch m) s k = Refine.dismissclaim-Steps h id s a ch m
apply-TableStep h e (Action.accept_claim id a ch dl dc) s k =
    Refine.acceptclaim-Steps h id s a ch dl dc
apply-TableStep h e (Action.exec_claim _ _ _ _ _ _) s k = ground (arith, unchanged_row s.casefiles)
apply-TableStep h e (Action.advance_case id a) s k = advancecase-Steps h id s a
apply-TableStep h e (Action.dismiss_case id a l) s k = Refine.dismisscase-Steps h id s a l
apply-TableStep h e (Action.set_ruling id a l) s k = Refine.setruling-Steps h id s a l
apply-TableStep h e (Action.recuse_arb id r a) s k = Refine.recuse-Steps h id s r a
apply-TableStep h e (Action.set_lang_codes a ls) s k = ground (arith, unchanged_row s.casefiles)
apply-TableStep h e (Action.new_arb_status n a) s k = ground (arith, unchanged_row s.casefiles)
apply-TableStep h e (Action.delete_case id) s k = Refine.deletecase-Steps h id s
apply-TableStep h e (Action.dismiss_arb a b) s k = dismissarb-Steps h a b s
apply-TableStep h e (Action.on_transfer f t q) s k = ground (arith, unchanged_row s.casefiles)
