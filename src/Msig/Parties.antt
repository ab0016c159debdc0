-- ===== src/Msig/Parties.antt =====
-- The levels that a proposal asks for, through `approve` and `unapprove`.
use mathlib.Core.List.{Perm}
use mathlib.Core.List.Perm
use telos_arbitration_fix.Prelude.{
  ℕ, ◌≡◌, refl, inl, inr, true, Bool-cases, Option, some, List, [], ◌∷◌, ◌++◌, map, arith,
}
use telos_arbitration_fix.Eosio.{ok, Table, modify, scope, Name, find-modify, scope-put}
use telos_arbitration_fix.Msig.Types.{
  PermissionLevel, level_eq, Approval, Approvals, State, MsigHost,
}
use telos_arbitration_fix.Msig.Actions.{
  has_approval, erase_approval, find_in, modify_in, approve, unapprove,
}
use mathlib.Core.List.{map-append, append_assoc, perm_append_singleton}

abbrev pub levels : List Approval → List PermissionLevel
levels = map λ a. a.level

-- Everyone who is asked to approve, or has approved.
abbrev pub parties : Approvals → List PermissionLevel
parties a = levels a.requested_approvals ++ levels a.provided_approvals

erase_approval-perm :
    (l : PermissionLevel) (as_ : List Approval)
    → has_approval l as_ ≡ true
    → Perm (l ∷ levels (erase_approval l as_)) (levels as_)
erase_approval-perm l [] h = cc
erase_approval-perm l (a ∷ as_) h = elim (Bool-cases (level_eq a.level l)) [
  | inl e ↦ let same : a.level ≡ l = ground arith in rw (e, same) (Perm.refl (l ∷ levels as_))
  | inr e ↦ rw e (
      Perm.trans (Perm.swap a.level l (levels (erase_approval l as_)))
        (Perm.cons a.level (erase_approval-perm l as_ (ground arith))))
]

find-modify_in {ℓ} :
    {V : Type ℓ} (p n : Name) (f : V → V) (t : Table (Table V)) (v : V)
    → find_in p n t ≡ some v
    → find_in p n (modify_in p n f t) ≡ some (f v)
find-modify_in p n f t v e =
    ground (arith, scope-put p p (modify n f (scope p t)) t, find-modify n n f (scope p t))

-- One level moves from the end of the second list to the first.
moved :
    (l : PermissionLevel) (xs ys : List PermissionLevel)
    → Perm (xs ++ (ys ++ l ∷ [])) ((l ∷ xs) ++ ys)
moved l xs ys = rw (← append_assoc xs ys (l ∷ [])) (perm_append_singleton l (xs ++ ys))

approved-perm :
    (l : PermissionLevel) (req prov : List Approval) (time : ℕ)
    → has_approval l req ≡ true
    → Perm
        (levels (erase_approval l req) ++ levels (prov ++ (record { level = l; time = time }) ∷ []))
        (levels req ++ levels prov)
approved-perm l req prov time h =
    rw (map-append (λ a. a.level) prov ((record { level = l; time = time }) ∷ [])) (
      Perm.trans (moved l (levels (erase_approval l req)) (levels prov))
        (Perm.append (erase_approval-perm l req h) (Perm.refl (levels prov))))

unapproved-perm :
    (l : PermissionLevel) (req prov : List Approval) (time : ℕ)
    → has_approval l prov ≡ true
    → Perm
        (levels (req ++ (record { level = l; time = time }) ∷ []) ++ levels (erase_approval l prov))
        (levels req ++ levels prov)
unapproved-perm l req prov time h =
    rw (map-append (λ a. a.level) req ((record { level = l; time = time }) ∷ []), append_assoc)
      (Perm.append (Perm.refl (levels req)) (erase_approval-perm l prov h))

module _ (h : MsigHost) (p n : Name) (l : PermissionLevel) (s s' : State) (a : Approvals)
    (found : find_in p n s.approvals ≡ some a) where
  -- On a proposal with approvals in the new table, an approval moves its level from the requested to
  -- the provided ones, with the time of the call, and no level gets lost or appears.
  pub approve_moves :
      (hash : Option ℕ)
      → approve h p n l hash s ≡ ok s'
      → (a' : Approvals) × (find_in p n s'.approvals ≡ some a')
        × (a'.provided_approvals
            ≡ a.provided_approvals ++ (record { level = l; time = h.now_us }) ∷ [])
        × (a'.requested_approvals ≡ erase_approval l a.requested_approvals)
        × Perm (parties a') (parties a)
  unfolding approve
  approve_moves hash e =
      let f = λ (x : Approvals). record x {
        provided_approvals = x.provided_approvals ++ (record { level = l; time = h.now_us }) ∷ [];
        requested_approvals = erase_approval l x.requested_approvals;
      } in
      let asked : has_approval l a.requested_approvals ≡ true = ground arith in
      (
        f a,
        ground (arith, find-modify_in p n f s.approvals a found),
        refl,
        refl,
        approved-perm l a.requested_approvals a.provided_approvals h.now_us asked,
      )

  -- On a proposal with approvals in the new table, taking an approval back moves its level from the
  -- provided to the requested ones, and no level gets lost or appears.
  pub unapprove_moves :
      unapprove h p n l s ≡ ok s'
      → (a' : Approvals) × (find_in p n s'.approvals ≡ some a')
        × (a'.provided_approvals ≡ erase_approval l a.provided_approvals)
        × (a'.requested_approvals
            ≡ a.requested_approvals ++ (record { level = l; time = h.now_us }) ∷ [])
        × Perm (parties a') (parties a)
  unfolding unapprove
  unapprove_moves e =
      let f = λ (x : Approvals). record x {
        requested_approvals = x.requested_approvals ++ (record { level = l; time = h.now_us }) ∷ [];
        provided_approvals = erase_approval l x.provided_approvals;
      } in
      let given : has_approval l a.provided_approvals ≡ true = ground arith in
      (
        f a,
        ground (arith, find-modify_in p n f s.approvals a found),
        refl,
        refl,
        unapproved-perm l a.requested_approvals a.provided_approvals h.now_us given,
      )
