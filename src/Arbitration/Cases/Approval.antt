-- ===== src/Arbitration/Cases/Approval.antt =====
-- When `advancecase` advances a case: with one vote of each arbitrator, unless one has recused.
use telos_arbitration_fix.Prelude.{
  ℕ, ◌+◌, ◌≤◌, ◌<◌, ◌≡◌, ◌≢◌, refl, subst, ◌⊎◌, inl, inr, true, false, some, List, [], ◌∷◌, String,
  contains, erase_first, Distinct, length, ◌==◌, arith, Bool-cases,
}
use telos_arbitration_fix.Eosio.{ok, find, modify, Name, Host, find-modify}
use telos_arbitration_fix.Arbitration.Types.{Casefile, State}
use telos_arbitration_fix.Arbitration.CaseProgress.{approve_advance, advancecase, recuse}
use telos_arbitration_fix.Arbitration.Cases.Invariant.{IsValid}
use Prim.Native.String.{len}

length-erase_first :
    (a : ℕ) (xs : List ℕ) → contains a xs ≡ true → length (erase_first a xs) + 1 ≡ length xs
length-erase_first a [] h = cc
length-erase_first a (x ∷ xs) h = ground (arith, length-erase_first a xs)

contains-erase_first :
    (a b : ℕ) (xs : List ℕ) → a ≢ b → contains a (erase_first b xs) ≡ contains a xs
contains-erase_first a b [] h = refl
contains-erase_first a b (x ∷ xs) h = ground (arith, contains-erase_first a b xs h)

abbrev Within : List ℕ → List ℕ → Type 0
Within xs ys = (a : ℕ) → contains a xs ≡ true → contains a ys ≡ true

-- Different numbers out of a list, as many as it has, are all of it.
all_of_them :
    (xs ys : List ℕ)
    → Distinct xs
    → Within xs ys
    → length ys ≤ length xs
    → (b : ℕ) → contains b ys ≡ true
    → contains b xs ≡ true
all_of_them [] [] d w le b h = cc
all_of_them [] (y ∷ ys) d w le b h = absurd (omega arith)
all_of_them (x ∷ xs) ys d w le b h = elim (Bool-cases (x == b)) [
  | inl e ↦ ground arith
  | inr e ↦
      let rest =
        all_of_them xs (erase_first x ys) d.1
          (λ a m. ground (arith, contains-erase_first a x ys, w a))
          (ground (arith, length-erase_first x ys, w x)) b in
      ground (arith, rest, contains-erase_first b x ys)
]

-- Either a list is within another, or one of its numbers is not in it.
all_or_stranger :
    (xs ys : List ℕ) → Within xs ys ⊎ ((a : ℕ) × (contains a xs ≡ true) × (contains a ys ≡ false))
all_or_stranger [] ys = inl (λ a m. absurd (ground (arith, m)))
all_or_stranger (x ∷ xs) ys = elim (Bool-cases (contains x ys)) [
  | inr out ↦ inr (x, ground arith, out)
  | inl here ↦ elim (all_or_stranger xs ys) [
    | inl rest ↦ inl (λ a m. elim (Bool-cases (x == a)) [
      | inl same ↦
          let eq : x ≡ a = ground (arith, same) in subst (λ n. contains n ys ≡ true) eq here
      | inr other ↦ rest a (ground (arith, other, m))
    ])
    | inr (a, m, out) ↦ inr (a, ground (arith, m), out)
  ]
]

-- On a valid case `advancecase` moves the status only when each arbitrator has approved, the caller
-- by this call, or else when the case holds the approval of someone who is not an arbitrator of it.
pub advancecase_unanimous :
    (h : Host) (id : ℕ) (arb : Name) (s s' : State) (cf cf' : Casefile)
    → find id s.casefiles ≡ some cf
    → IsValid cf
    → advancecase h id arb s ≡ ok s'
    → find id s'.casefiles ≡ some cf'
    → cf'.case_status ≢ cf.case_status
    → ((b : Name) → contains b cf.arbitrators ≡ true → (b ≡ arb) ⊎ (contains b cf.approvals ≡ true))
      ⊎ ((a : Name) × (contains a cf.approvals ≡ true) × (contains a cf.arbitrators ≡ false))
unfolding advancecase approve_advance
advancecase_unanimous h id arb s s' cf cf' n v e n' moved =
    let f = λ (row : Casefile). record row {
      case_status = (approve_advance arb cf).0;
      approvals = (approve_advance arb cf).1;
    } in
    let fresh : contains arb cf.approvals ≡ false = ground arith in
    let member : contains arb cf.arbitrators ≡ true = ground arith in
    let enough : length cf.arbitrators ≤ length cf.approvals + 1 =
      ground (arith, find-modify id id f s.casefiles) in
    elim (all_or_stranger cf.approvals cf.arbitrators) [
      | inr (a, m, out) ↦ inr (a, m, out)
      | inl within ↦ inl (λ b m. by_caller arb b cf.approvals (
          all_of_them (arb ∷ cf.approvals) cf.arbitrators (fresh, v.distinct_approvals)
            (λ a c. all_within arb a cf.approvals cf.arbitrators member (within a) c) (omega arith)
            b m))
    ]
  where
    by_caller :
        (arb b : Name) (xs : List Name)
        → contains b (arb ∷ xs) ≡ true
        → (b ≡ arb) ⊎ (contains b xs ≡ true)
    by_caller arb b xs h = elim (Bool-cases (arb == b)) [
      | inl same ↦ inl (ground (arith, same))
      | inr other ↦ inr (ground (arith, other, h))
    ]

    all_within :
        (arb a : Name) (xs ys : List Name)
        → contains arb ys ≡ true
        → (contains a xs ≡ true → contains a ys ≡ true)
        → contains a (arb ∷ xs) ≡ true
        → contains a ys ≡ true
    all_within arb a xs ys m w c = elim (Bool-cases (arb == a)) [
      | inl same ↦ let eq : arb ≡ a = ground (arith, same) in subst (λ n. contains n ys ≡ true) eq m
      | inr other ↦ w (ground (arith, other, c))
    ]

-- The approval of an arbitrator who recuses still counts. On a case in CASE_INVESTIGATION to
-- DELIBERATION that has three different arbitrators and no approvals: the first approves and recuses
-- with a rationale of 1 to 254 bytes, the second approves, both with their authority, and the case is
-- advanced though the third has not approved.
pub recused_approval_counts :
    (h : Host) (id : ℕ) (a b c : Name) (why : String) (s : State) (cf : Casefile)
    → find id s.casefiles ≡ some cf
    → cf.arbitrators ≡ a ∷ b ∷ c ∷ []
    → cf.approvals ≡ []
    → Distinct (a ∷ b ∷ c ∷ [])
    → 2 ≤ cf.case_status
    → cf.case_status < 5
    → h.has_auth a ≡ true
    → h.has_auth b ≡ true
    → 0 < len why
    → len why < 255
    → (s₁ : State) × (s₂ : State) × (s₃ : State) × (cf' : Casefile) × (advancecase h id a s ≡ ok s₁)
      × (recuse h id why a s₁ ≡ ok s₂)
      × (advancecase h id b s₂ ≡ ok s₃)
      × (find id s₃.casefiles ≡ some cf')
      × (cf'.case_status ≡ cf.case_status + 1)
unfolding advancecase approve_advance recuse
recused_approval_counts h id a b c why s cf n arbs none_yet d lo hi ha hb w w' =
    let approve = λ (row : Casefile). record row {
      case_status = (approve_advance a cf).0;
      approvals = (approve_advance a cf).1;
    } in
    let cf₁ = approve cf in
    let leave = λ (row : Casefile). record row {
      arbitrators = erase_first a cf₁.arbitrators;
      last_edit = h.now;
    } in
    let cf₂ = leave cf₁ in
    let approve₂ = λ (row : Casefile). record row {
      case_status = (approve_advance b cf₂).0;
      approvals = (approve_advance b cf₂).1;
    } in
    let t₁ = modify id approve s.casefiles in
    let t₂ = modify id leave t₁ in
    let t₃ = modify id approve₂ t₂ in
    let f₁ : find id t₁ ≡ some cf₁ = ground (arith, find-modify id id approve s.casefiles) in
    let f₂ : find id t₂ ≡ some cf₂ = ground (arith, f₁, find-modify id id leave t₁) in
    (
      record s { casefiles = t₁ },
      record s { casefiles = t₂ },
      record s { casefiles = t₃ },
      approve₂ cf₂,
      ground arith,
      ground (arith, f₁),
      ground (arith, f₂),
      ground (arith, f₂, find-modify id id approve₂ t₂),
      ground arith,
    )
