-- ===== src/Arbitration/Keys.antt =====
-- The table of arbitrators: each row stands under its own name, whatever action runs.
use telos_arbitration_fix.Prelude.{
  ℕ, ◌+◌, ◌%◌, ◌≡◌, refl, inl, inr, Bool, true, none, some, List, [], ◌∷◌, ◌++◌, String,
  Option-cases, arith, ◌==◌, if◌then◌else◌,
}
use telos_arbitration_fix.Eosio.{
  OnOk, Table, find, insert, modify, erase, keys, Name, Host, find-insert, find-modify,
}
use telos_arbitration_fix.Trail.Voting.{Candidate, Leaderboard, Elections}
use telos_arbitration_fix.Arbitration.Types.{Nominee, Arbitrator, State}
use telos_arbitration_fix.Arbitration.ArbStatus.{removed, seat_expired}
use telos_arbitration_fix.Arbitration.Helpers.{
  expire_seat, count_seats, has_available_seats, add_arbitrator,
}
use telos_arbitration_fix.Arbitration.Elections.{
  setconfig, initelection, regarb, unregnominee, candaddlead, candrmvlead,
}
use telos_arbitration_fix.Arbitration.Endelection.{
  endelection, elect, elect_all, seat_winners, add_nominees, next_election, conclude_election,
}
use telos_arbitration_fix.Arbitration.CaseSetup.{
  withdraw, filecase, exec_log, addclaim, removeclaim, shredcase, readycase, transfer_handler,
}
use telos_arbitration_fix.Arbitration.CaseProgress.{
  respond, addarbs, assigntocase, dismissclaim, acceptclaim, setruling, advancecase, dismisscase,
  recuse,
}
use telos_arbitration_fix.Arbitration.ArbActions.{
  newarbstatus, setlangcodes, deletecase, dismissarb,
}
use telos_arbitration_fix.Arbitration.Dispatch.{Action, apply}
use telos_arbitration_fix.Arbitration.Cases.Refine.{ArbKeys, keyed, arb_key}

abbrev Keyed : State → Type 0
Keyed s = ArbKeys s.arbitrators

modify-ArbKeys :
    (k : Name) (f : Arbitrator → Arbitrator) (t : Table Arbitrator)
    → ((a : Arbitrator) → (f a).arb ≡ a.arb)
    → ArbKeys t
    → ArbKeys (modify k f t)
modify-ArbKeys k f t same v = keyed λ j a e. elim (Option-cases (find j t)) [
  | inl n ↦ ground (arith, find-modify j k f t)
  | inr (b, n) ↦ ground (arith, find-modify j k f t, arb_key v j b n, same b)
]

insert-ArbKeys :
    (k : Name) (b : Arbitrator) (t : Table Arbitrator)
    → find k t ≡ none
    → b.arb ≡ k
    → ArbKeys t
    → ArbKeys (insert k b t)
insert-ArbKeys k b t absent own v =
    keyed λ j a e. ground (arith, find-insert j k b t, arb_key v j a)

pub find-count_seats :
    (now n j : ℕ) (t : Table Arbitrator)
    → find j (count_seats now n t).0
      ≡ (elim (find j t) [ none ↦ none | some a ↦ some (expire_seat now a) ])
unfolding count_seats
find-count_seats now n j [] = refl
find-count_seats now n j ((k, a) ∷ t) =
    let occupied = if (expire_seat now a).arb_status == seat_expired then n else (n + 1) % 256 in
    ground (arith, find-count_seats now occupied j t)

has_available_seats-Keyed : (h : Host) (s : State) → Keyed s → Keyed (has_available_seats h s).1
unfolding has_available_seats expire_seat
has_available_seats-Keyed h s v = keyed λ j a e. elim (Option-cases (find j s.arbitrators)) [
  | inl n ↦ ground (arith, find-count_seats h.now 0 j s.arbitrators)
  | inr (b, n) ↦ ground (arith, find-count_seats h.now 0 j s.arbitrators, arb_key v j b n)
]

add_arbitrator-Keyed :
    (h : Host) (n : Name) (l : String) (s : State) → Keyed s → Keyed (add_arbitrator h n l s)
unfolding add_arbitrator
add_arbitrator-Keyed h n l s v = elim (Option-cases (find n s.arbitrators)) [
  | inl e ↦ rw (e, add_arbitrator) (insert-ArbKeys n _ s.arbitrators e refl v)
  | inr (b, e) ↦ rw (e, add_arbitrator) (modify-ArbKeys n _ s.arbitrators (λ a. refl) v)
]

elect-Keyed : (h : Host) (c : Candidate) (s : State) → Keyed s → Keyed (elect h c s)
unfolding elect
elect-Keyed h c s v = ground (
  arith,
  add_arbitrator-Keyed h c.member c.info_link (record s { nominees = erase c.member s.nominees }) v,
)

elect_all-Keyed : (h : Host) (cs : List Candidate) (s : State) → Keyed s → Keyed (elect_all h cs s)
unfolding elect_all
elect_all-Keyed h [] s v = v
elect_all-Keyed h (c ∷ cs) s v = elect_all-Keyed h cs (elect h c s) (elect-Keyed h c s v)

seat_winners-Keyed :
    (h : Host) (cs : List Candidate) (s : State) → Keyed s → Keyed (seat_winners h cs s)
unfolding seat_winners
seat_winners-Keyed h [] s v = v
seat_winners-Keyed h (c ∷ cs) s v = ground (arith, elect_all-Keyed h (c ∷ cs) s v)

arbitrators-add_nominees :
    (h : Host) (ns : List Nominee) (s : State) → (add_nominees h ns s).arbitrators ≡ s.arbitrators
unfolding add_nominees
arbitrators-add_nominees h [] s = refl
arbitrators-add_nominees h (n ∷ ns) s = arbitrators-add_nominees h ns _

next_election-Keyed : (h : Host) (e : Elections) (s : State) → Keyed s → Keyed (next_election h e s)
unfolding next_election
next_election-Keyed h e s v =
    grind (arith, has_available_seats-Keyed h s v, arbitrators-add_nominees)

conclude_election-Keyed :
    (h : Host) (e : Elections) (b : Leaderboard) (s : State)
    → Keyed s
    → Keyed (conclude_election h e b s)
unfolding conclude_election
conclude_election-Keyed h e b s v = next_election-Keyed h e _ (seat_winners-Keyed h _ s v)

module _ (h : Host) (e : Elections) (s : State) (v : Keyed s) where
  initelection-Keyed : OnOk Keyed (initelection h e s)
  unfolding initelection
  initelection-Keyed = ground (
    arith,
    has_available_seats-Keyed h
        (record s {
          config = record (s.config) {
            current_ballot_id = h.available_primary_key (keys e.ballots);
            auto_start_election = true;
          };
        })
        v,
  )

  regarb-Keyed : (n : Name) (l : String) → OnOk Keyed (regarb h n l s)
  unfolding regarb
  regarb-Keyed n l = ground (
    arith,
    modify-ArbKeys n (λ a. record a { arb_status = seat_expired }) s.arbitrators (λ a. refl) v,
  )

  endelection-Keyed : (n : Name) → OnOk Keyed (endelection h e n s)
  unfolding endelection
  endelection-Keyed n = elim (Option-cases (find s.config.current_ballot_id e.ballots)) [
    | inl none_found ↦ ground arith
    | inr (bal, p) ↦ elim (Option-cases (find bal.reference_id e.leaderboards)) [
      | inl none_found ↦ ground arith
      | inr (b, q) ↦ ground (arith, conclude_election-Keyed h e b s v)
    ]
  ]

  assigntocase-Keyed : (id : ℕ) (a : Name) → OnOk Keyed (assigntocase h id a s)
  unfolding assigntocase
  assigntocase-Keyed id a = elim (Option-cases (find a s.arbitrators)) [
    | inl n ↦ ground arith
    | inr (b, n) ↦ ground (
      arith,
      modify-ArbKeys a (λ row. record row { open_case_ids = b.open_case_ids ++ id ∷ [] })
          s.arbitrators (λ a. refl) v,
    )
  ]

  newarbstatus-Keyed : (n : ℕ) (a : Name) → OnOk Keyed (newarbstatus h n a s)
  unfolding newarbstatus
  newarbstatus-Keyed n a =
      ground
        (arith, modify-ArbKeys a (λ row. record row { arb_status = n }) s.arbitrators (λ a. refl) v)

  setlangcodes-Keyed : (a : Name) (ls : List ℕ) → OnOk Keyed (setlangcodes h a ls s)
  unfolding setlangcodes
  setlangcodes-Keyed a ls =
      ground
        (arith, modify-ArbKeys a (λ row. record row { languages = ls }) s.arbitrators (λ a. refl) v)

  dismissarb-Keyed : (a : Name) (all : Bool) → OnOk Keyed (dismissarb h a all s)
  unfolding dismissarb
  dismissarb-Keyed a all =
      let out =
        modify-ArbKeys a (λ row. record row { arb_status = removed }) s.arbitrators (λ a. refl) v in
      ground (
        arith,
        out,
        modify-ArbKeys a (λ row. record row { arb_status = removed; open_case_ids = [] })
            (modify a (λ row. record row { arb_status = removed }) s.arbitrators) (λ a. refl) out,
      )

-- An action that succeeds keeps each arbitrator under the own name.
pub apply-Keyed :
    (h : Host) (e : Elections) (a : Action) (s : State) → Keyed s → OnOk Keyed (apply h e a s)
unfolding apply setconfig unregnominee candaddlead candrmvlead withdraw exec_log addarbs
    transfer_handler filecase addclaim removeclaim shredcase readycase respond dismissclaim
    acceptclaim advancecase dismisscase setruling recuse deletecase
apply-Keyed h e Action.init_election s v = initelection-Keyed h e s v
apply-Keyed h e (Action.reg_arb n l) s v = regarb-Keyed h e s v n l
apply-Keyed h e (Action.end_election n) s v = endelection-Keyed h e s v n
apply-Keyed h e (Action.assign_to_case id a) s v = assigntocase-Keyed h e s v id a
apply-Keyed h e (Action.set_lang_codes a ls) s v = setlangcodes-Keyed h e s v a ls
apply-Keyed h e (Action.new_arb_status n a) s v = newarbstatus-Keyed h e s v n a
apply-Keyed h e (Action.dismiss_arb a b) s v = dismissarb-Keyed h e s v a b
apply-Keyed h e other s v = ground arith
