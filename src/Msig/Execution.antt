-- ===== src/Msig/Execution.antt =====
-- When a proposal is executed, by whose approval, and when it is gone.
use telos_arbitration_fix.Prelude.{
  ℕ, ◌+◌, ◌*◌, ◌^◌, ◌≤◌, ◌<◌, ◌≡◌, refl, ◌⊎◌, inl, inr, Bool, true, false, Option-cases, none, some,
  List, [], ◌∷◌, ◌++◌, ◌==◌, ◌||◌, All, arith,
}
use telos_arbitration_fix.Eosio.{
  ok, err, Table, find, erase, scope, Name, find-erase, find-put, scope-put,
}
use telos_arbitration_fix.Msig.Types.{
  PermissionLevel, Proposal, Approval, Approvals, Invalidation, State, MsigHost,
}
use telos_arbitration_fix.Msig.Actions.{
  find_in, erase_in, valid_approvals, provided_levels, erase_approvals, exec, cancel, invalidate,
}

find-erase_in {ℓ} :
    {V : Type ℓ} (p n : Name) (t : Table (Table V)) → find_in p n (erase_in p n t) ≡ none
find-erase_in p n t =
    ground (arith, scope-put p p (erase n (scope p t)) t, find-erase n n (scope p t))

-- Some level is of this account.
abbrev pub names_actor : Name → List PermissionLevel → Bool
names_actor account [] = false
names_actor account (l ∷ ls) = l.actor == account || names_actor account ls

-- No approval of the account is younger than this time.
abbrev pub NoneAfter : Name → ℕ → List Approval → Type 0
NoneAfter account time = All λ p. p.level.actor ≡ account → p.time ≤ time

-- The approvals of an account that are not younger than its last invalidation are passed over.
valid_approvals-skip :
    (account : Name) (i : Invalidation) (inv : Table Invalidation) (ps : List Approval)
    → find account inv ≡ some i
    → NoneAfter account i.last_invalidation_time ps
    → names_actor account (valid_approvals inv ps) ≡ false
unfolding valid_approvals
valid_approvals-skip account i inv [] e old = refl
valid_approvals-skip account i inv (p ∷ ps) e old =
    ground (arith, old.0, valid_approvals-skip account i inv ps e old.1)

-- What `exec` has checked and done when it succeeds on a proposal with approvals in the new table:
-- the proposal was there and not expired, the approvals that count authorise its transaction, which
-- is sent with the name of the proposal, and the proposal and its approvals are gone.
pub exec_lem :
    (h : MsigHost) (p n e : Name) (s s' : State) (a : Approvals)
    → find_in p n s.approvals ≡ some a
    → exec h p n e s ≡ ok s'
    → (prop : Proposal) × (find_in p n s.proposals ≡ some prop)
      × (h.now ≤ h.expiration prop.packed_transaction)
      × (h.authorises prop.packed_transaction (valid_approvals s.invalidations a.provided_approvals)
          ≡ true)
      × (s'.deferred
          ≡ s.deferred
            ++ (record {
              sender_id = p * 2 ^ 64 + n;
              payer = e;
              transaction = prop.packed_transaction;
            })
              ∷ [])
      × (find_in p n s'.proposals ≡ none)
      × (find_in p n s'.approvals ≡ none)
unfolding exec provided_levels erase_approvals
exec_lem h p n e s s' a found done = elim (Option-cases (find_in p n s.proposals)) [
  | inl m ↦ ground arith
  | inr (prop, m) ↦ (
    prop,
    m,
    ground arith,
    ground arith,
    ground arith,
    ground (arith, find-erase_in p n s.proposals),
    ground (arith, find-erase_in p n s.approvals),
  )
]

-- After an account invalidated its approvals, a proposal whose approvals are in the new table, with
-- no younger one of the account, is executed only if levels of others authorise it.
pub exec-invalidate :
    (g h : MsigHost) (account p n e : Name) (s s₁ s' : State) (a : Approvals)
    → invalidate g account s ≡ ok s₁
    → find_in p n s.approvals ≡ some a
    → NoneAfter account g.now_us a.provided_approvals
    → exec h p n e s₁ ≡ ok s'
    → (prop : Proposal) × (ls : List PermissionLevel) × (find_in p n s.proposals ≡ some prop)
      × (h.authorises prop.packed_transaction ls ≡ true)
      × (names_actor account ls ≡ false)
unfolding invalidate
exec-invalidate g h account p n e s s₁ s' a inval found old done =
    let i : Invalidation = record { account = account; last_invalidation_time = g.now_us } in
    let same : s₁.approvals ≡ s.approvals = ground arith in
    let kept : s₁.proposals ≡ s.proposals = ground arith in
    let noted : find account s₁.invalidations ≡ some i =
      ground (arith, find-put account account i s.invalidations) in
    let (prop, there, _, authorised, _, _, _) = exec_lem h p n e s₁ s' a (rw same found) done in
    (
      prop,
      valid_approvals s₁.invalidations a.provided_approvals,
      rw (← kept) there,
      authorised,
      valid_approvals-skip account i s₁.invalidations a.provided_approvals noted old,
    )

-- A proposal that was cancelled was there and was cancelled by its proposer, or by others once it had
-- expired; executing it after that fails, since the proposal is not found, for any caller who
-- authorises the call.
pub exec-cancel :
    (g h : MsigHost) (p n c e : Name) (s s' : State)
    → cancel g p n c s ≡ ok s'
    → h.has_auth e ≡ true
    → (prop : Proposal) × (find_in p n s.proposals ≡ some prop)
      × ((c ≡ p) ⊎ (g.expiration prop.packed_transaction < g.now))
      × (exec h p n e s' ≡ err "proposal not found")
unfolding cancel erase_approvals exec
exec-cancel g h p n c e s s' done auth = elim (Option-cases (find_in p n s.proposals)) [
  | inl m ↦ ground arith
  | inr (prop, m) ↦ (prop, m, ground arith, ground (arith, find-erase_in p n s.proposals))
]

-- After a proposal with approvals in the new table was executed, executing it again fails, since the
-- proposal is not found, for any caller who authorises the call.
pub exec-exec :
    (g h : MsigHost) (p n e f : Name) (s s' : State) (a : Approvals)
    → find_in p n s.approvals ≡ some a
    → exec g p n e s ≡ ok s'
    → h.has_auth f ≡ true
    → exec h p n f s' ≡ err "proposal not found"
unfolding exec
exec-exec g h p n e f s s' a found done auth =
    let (_, _, _, _, _, gone, _) = exec_lem g p n e s s' a found done in ground arith
