-- ===== src/Arbitration/Claims.antt =====
-- The list of unread claims of a case: `get_claim_at` and the changes made at the claim it finds.
use text.Mathlib.TextEquality.{eq_iff}
use telos_arbitration_fix.Prelude.{
  ◌≤◌, ◌≡◌, ◌≢◌, refl, none, List, [], ◌∷◌, ◌++◌, String, arith, length,
}
use telos_arbitration_fix.Arbitration.Types.{Claim}
use telos_arbitration_fix.Arbitration.Helpers.{get_claim_at, erase_claim_at, respond_claim_at}

-- No two claims have one summary.
abbrev pub DistinctClaims : List Claim → Type 0
DistinctClaims [] = Unit
DistinctClaims (c ∷ cs) = (get_claim_at c.claim_summary cs ≡ none) × DistinctClaims cs

pub get_claim_at-append_ne :
    (hash : String) (cs : List Claim) (c : Claim)
    → get_claim_at hash cs ≡ none
    → c.claim_summary ≢ hash
    → get_claim_at hash (cs ++ c ∷ []) ≡ none
unfolding get_claim_at
get_claim_at-append_ne hash [] c h ne = ground (arith, eq_iff c.claim_summary hash)
get_claim_at-append_ne hash (d ∷ cs) c h ne = ground (arith, get_claim_at-append_ne hash cs c)

pub DistinctClaims-append :
    (cs : List Claim) (c : Claim)
    → get_claim_at c.claim_summary cs ≡ none
    → DistinctClaims cs
    → DistinctClaims (cs ++ c ∷ [])
unfolding get_claim_at
DistinctClaims-append [] c h d = (refl, tt)
DistinctClaims-append (x ∷ cs) c h d = ground (
  arith,
  eq_iff x.claim_summary c.claim_summary,
  DistinctClaims-append cs c,
  get_claim_at-append_ne x.claim_summary cs c,
)

pub get_claim_at-erase_ne :
    (hash other : String) (cs : List Claim)
    → get_claim_at hash cs ≡ none
    → get_claim_at hash (erase_claim_at other cs) ≡ none
unfolding get_claim_at erase_claim_at
get_claim_at-erase_ne hash other [] h = refl
get_claim_at-erase_ne hash other (x ∷ cs) h = ground (arith, get_claim_at-erase_ne hash other cs)

pub DistinctClaims-erase :
    (hash : String) (cs : List Claim) → DistinctClaims cs → DistinctClaims (erase_claim_at hash cs)
unfolding erase_claim_at
DistinctClaims-erase hash [] d = tt
DistinctClaims-erase hash (x ∷ cs) d =
    ground (arith, DistinctClaims-erase hash cs, get_claim_at-erase_ne x.claim_summary hash cs)

pub get_claim_at-respond :
    (hash other link : String) (cs : List Claim)
    → get_claim_at hash cs ≡ none
    → get_claim_at hash (respond_claim_at other link cs) ≡ none
unfolding get_claim_at respond_claim_at
get_claim_at-respond hash other link [] h = refl
get_claim_at-respond hash other link (x ∷ cs) h =
    ground (arith, get_claim_at-respond hash other link cs)

pub DistinctClaims-respond :
    (hash link : String) (cs : List Claim)
    → DistinctClaims cs
    → DistinctClaims (respond_claim_at hash link cs)
unfolding respond_claim_at
DistinctClaims-respond hash link [] d = tt
DistinctClaims-respond hash link (x ∷ cs) d =
    ground (
      arith,
      DistinctClaims-respond hash link cs,
      get_claim_at-respond x.claim_summary hash link cs,
    )

pub length-erase_claim_at :
    (hash : String) (cs : List Claim) → length (erase_claim_at hash cs) ≤ length cs
unfolding erase_claim_at
length-erase_claim_at hash [] = omega arith
length-erase_claim_at hash (x ∷ cs) = ground (arith, length-erase_claim_at hash cs)

pub length-respond_claim_at :
    (hash link : String) (cs : List Claim) → length (respond_claim_at hash link cs) ≡ length cs
unfolding respond_claim_at
length-respond_claim_at hash link [] = refl
length-respond_claim_at hash link (x ∷ cs) = ground (arith, length-respond_claim_at hash link cs)

-- Adding a claim and removing it again restores the list.
pub erase_claim_at-append :
    (cs : List Claim) (c : Claim)
    → get_claim_at c.claim_summary cs ≡ none
    → erase_claim_at c.claim_summary (cs ++ c ∷ []) ≡ cs
unfolding get_claim_at erase_claim_at
erase_claim_at-append [] c h = ground (arith, eq_iff c.claim_summary c.claim_summary)
erase_claim_at-append (x ∷ cs) c h = ground (arith, erase_claim_at-append cs c)

-- Where summaries are distinct, an erased claim is gone.
pub get_claim_at-erase_self :
    (hash : String) (cs : List Claim)
    → DistinctClaims cs
    → get_claim_at hash (erase_claim_at hash cs) ≡ none
unfolding get_claim_at erase_claim_at
get_claim_at-erase_self hash [] d = refl
get_claim_at-erase_self hash (x ∷ cs) d =
    ground (arith, eq_iff x.claim_summary hash, get_claim_at-erase_self hash cs)
