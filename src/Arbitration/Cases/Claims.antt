-- ===== src/Arbitration/Cases/Claims.antt =====
-- What `addclaim`, `removeclaim` and `acceptclaim` do to the claims of a case.
use text.Mathlib.TextEquality.{eq_iff}
use telos_arbitration_fix.Prelude.{
  ℕ, ◌≤◌, ◌≡◌, refl, inl, inr, Option-cases, none, some, List, [], ◌∷◌, ◌++◌, String, length-append,
  ◌==◌, if◌then◌else◌, arith,
}
use telos_arbitration_fix.Eosio.{
  ok, find, modify, keys, Name, Host, IsDocumented, find-insert, find-modify, find-keys,
}
use telos_arbitration_fix.Arbitration.Types.{Claim, Casefile, State}
use telos_arbitration_fix.Arbitration.Helpers.{get_claim_at, erase_claim_at}
use telos_arbitration_fix.Arbitration.CaseSetup.{new_claim, addclaim, removeclaim}
use telos_arbitration_fix.Arbitration.CaseProgress.{acceptclaim}
use telos_arbitration_fix.Arbitration.Claims.{erase_claim_at-append, get_claim_at-erase_self}
use telos_arbitration_fix.Arbitration.Cases.Invariant.{IsValid}

pub get_claim_at-append_self :
    (link : String) (cs : List Claim)
    → get_claim_at link cs ≡ none
    → get_claim_at link (cs ++ new_claim link ∷ []) ≡ some (new_claim link)
unfolding get_claim_at
get_claim_at-append_self link [] e = ground (arith, eq_iff link link)
get_claim_at-append_self link (c ∷ cs) e = ground (arith, get_claim_at-append_self link cs)

-- After a claim was added, its claimant can remove it, and the case is as it was before.
pub removeclaim-addclaim :
    (h : Host) (id : ℕ) (link : String) (claimant : Name) (s s' : State)
    → addclaim h id link claimant s ≡ ok s'
    → (s'' : State) × (removeclaim h id link claimant s' ≡ ok s'')
      × (find id s''.casefiles ≡ find id s.casefiles)
unfolding addclaim removeclaim
removeclaim-addclaim h id link claimant s s' e = elim (Option-cases (find id s.casefiles)) [
  | inl n ↦ ground arith
  | inr (cf, n) ↦
      let added = λ (row : Casefile). record row {
        unread_claims = cf.unread_claims ++ new_claim link ∷ [];
      } in
      let removed = λ (row : Casefile). record row {
        unread_claims = erase_claim_at link (cf.unread_claims ++ new_claim link ∷ []);
      } in
      (
        record s' { casefiles = modify id removed s'.casefiles },
        ground (
          arith,
          find-modify id id added s.casefiles,
          get_claim_at-append_self link cf.unread_claims,
          length-append cf.unread_claims (new_claim link ∷ []),
        ),
        ground (
          arith,
          find-modify id id added s.casefiles,
          find-modify id id removed (modify id added s.casefiles),
          erase_claim_at-append cf.unread_claims (new_claim link),
        ),
      )
]

-- On a documented host and a valid case, `acceptclaim` moves the unread claim with this summary to
-- the accepted ones: under a free id, with the response that it had and a decision class from 2 to
-- 15. It is no longer unread, and the claims that were accepted before stay.
pub acceptclaim_moves :
    (h : Host) (id : ℕ) (arb : Name) (hash link : String) (class j : ℕ) (s s' : State)
    (cf : Casefile)
    → IsDocumented h
    → find id s.casefiles ≡ some cf
    → IsValid cf
    → acceptclaim h id arb hash link class s ≡ ok s'
    → (cf' : Casefile) × (c : Claim) × (new : ℕ) × (get_claim_at hash cf.unread_claims ≡ some c)
      × (find id s'.casefiles ≡ some cf')
      × (get_claim_at hash cf'.unread_claims ≡ none)
      × (cf'.accepted_claims ≡ cf.accepted_claims ++ new ∷ [])
      × (find new s.claims ≡ none)
      × (find j s'.claims ≡ (
          if new == j
          then some (record {
            claim_id = new;
            claim_summary = hash;
            decision_link = link;
            response_link = c.response_link;
            decision_class = class;
          })
          else find j s.claims))
      × (2 ≤ class)
      × (class ≤ 15)
unfolding acceptclaim
acceptclaim_moves h id arb hash link class j s s' cf d n v e =
    elim (Option-cases (get_claim_at hash cf.unread_claims)) [
      | inl m ↦ ground arith
      | inr (c, m) ↦
          let new = h.available_primary_key (keys s.claims) in
          let free : find new s.claims ≡ none =
            find-keys new s.claims (d.fresh_key (keys s.claims)) in
          let f = λ (row : Casefile). record row {
            unread_claims = erase_claim_at hash cf.unread_claims;
            accepted_claims = cf.accepted_claims ++ new ∷ [];
            last_edit = h.now;
          } in
          let accepted : Claim = record {
            claim_id = new;
            claim_summary = hash;
            decision_link = link;
            response_link = c.response_link;
            decision_class = class;
          } in
          (
            f cf,
            c,
            new,
            m,
            ground (arith, find-modify id id f s.casefiles),
            get_claim_at-erase_self hash cf.unread_claims v.distinct_claims,
            refl,
            free,
            ground (arith, free, find-insert j new accepted s.claims),
            ground arith,
            ground arith,
          )
    ]
