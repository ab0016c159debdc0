-- ===== src/Msig/Actions.antt =====
-- The actions of contracts/eosio.msig/src/eosio.msig.cpp.
use telos_arbitration_fix.Prelude.{
  ℕ, ◌+◌, ◌*◌, ◌^◌, Bool, true, false, ◌||◌, Option, none, some, List, [], ◌∷◌, ◌++◌, map, ◌==◌,
  ltb, leb, if◌then◌else◌,
}
use telos_arbitration_fix.Eosio.{
  Result, ok, check, or_fail, ◌>>=◌, ◌>>◌, Table, find, modify, erase, emplace, put, scope, Name,
}
use telos_arbitration_fix.Msig.Types.{
  PermissionLevel, level_eq, Packed, Approval, Invalidation, State, MsigHost,
}

-- `std::find` on levels, and `std::find_if` on approvals.
abbrev pub has_level : PermissionLevel → List PermissionLevel → Bool
has_level l [] = false
has_level l (k ∷ ks) = level_eq k l || has_level l ks

abbrev pub erase_level : PermissionLevel → List PermissionLevel → List PermissionLevel
erase_level l [] = []
erase_level l (k ∷ ks) = if level_eq k l then ks else k ∷ erase_level l ks

abbrev pub has_approval : PermissionLevel → List Approval → Bool
has_approval l [] = false
has_approval l (a ∷ as_) = level_eq a.level l || has_approval l as_

abbrev pub erase_approval : PermissionLevel → List Approval → List Approval
erase_approval l [] = []
erase_approval l (a ∷ as_) = if level_eq a.level l then as_ else a ∷ erase_approval l as_

abbrev pub find_in {ℓ} : {V : Type ℓ} → Name → Name → Table (Table V) → Option V
find_in s k t = find k (scope s t)

abbrev pub modify_in {ℓ} : {V : Type ℓ} → Name → Name → (V → V) → Table (Table V) → Table (Table V)
modify_in s k f t = put s (modify k f (scope s t)) t

abbrev pub erase_in {ℓ} : {V : Type ℓ} → Name → Name → Table (Table V) → Table (Table V)
erase_in s k t = put s (erase k (scope s t)) t

unfoldable pub propose :
    MsigHost → Name → Name → List PermissionLevel → Packed → State → Result State
propose h proposer proposal_name requested trx s = do
  check (h.has_auth proposer) "missing authority"
  check (leb h.now (h.expiration trx)) "transaction expired"
  check (elim (find_in proposer proposal_name s.proposals) [ none ↦ true | some _ ↦ false ])
      "proposal with the same name exists"
  check (h.authorises trx requested) "transaction authorization failed"
  props ←
      emplace proposal_name (record { proposal_name = proposal_name; packed_transaction = trx })
        (scope proposer s.proposals)
  apps ←
      emplace proposal_name
        (record {
          version = 1;
          proposal_name = proposal_name;
          requested_approvals = map (λ l. record { level = l; time = 0 }) requested;
          provided_approvals = [];
        })
        (scope proposer s.approvals)
  ok (record s {
    proposals = put proposer props s.proposals;
    approvals = put proposer apps s.approvals;
  })

-- The check of the hash, if one is given.
unfoldable pub check_hash : MsigHost → Name → Name → Option ℕ → State → Result (Unit {0})
check_hash h proposer proposal_name none s = ok tt
check_hash h proposer proposal_name (some hash) s = do
  prop ← or_fail (find_in proposer proposal_name s.proposals) "proposal not found"
  check (h.sha256_matches prop.packed_transaction hash) "hash mismatch"

unfoldable pub approve : MsigHost → Name → Name → PermissionLevel → Option ℕ → State → Result State
approve h proposer proposal_name level proposal_hash s = do
  check (h.has_permission level.actor level.permission) "missing authority"
  check_hash h proposer proposal_name proposal_hash s
  elim (find_in proposer proposal_name s.approvals) [
    | some apps ↦ do
      check (has_approval level apps.requested_approvals)
          "approval is not on the list of requested approvals"
      ok (record s {
        approvals =
            modify_in proposer proposal_name
              (λ a. record a {
                provided_approvals =
                    a.provided_approvals ++ (record { level = level; time = h.now_us }) ∷ [];
                requested_approvals = erase_approval level a.requested_approvals;
              })
              s.approvals;
      })
    | none ↦ do
      apps ← or_fail (find_in proposer proposal_name s.old_approvals) "proposal not found"
      check (has_level level apps.requested_approvals)
          "approval is not on the list of requested approvals"
      ok (record s {
        old_approvals =
            modify_in proposer proposal_name
              (λ a. record a {
                provided_approvals = a.provided_approvals ++ level ∷ [];
                requested_approvals = erase_level level a.requested_approvals;
              })
              s.old_approvals;
      })
  ]

unfoldable pub unapprove : MsigHost → Name → Name → PermissionLevel → State → Result State
unapprove h proposer proposal_name level s = do
  check (h.has_permission level.actor level.permission) "missing authority"
  elim (find_in proposer proposal_name s.approvals) [
    | some apps ↦ do
      check (has_approval level apps.provided_approvals) "no approval previously granted"
      ok (record s {
        approvals =
            modify_in proposer proposal_name
              (λ a. record a {
                requested_approvals =
                    a.requested_approvals ++ (record { level = level; time = h.now_us }) ∷ [];
                provided_approvals = erase_approval level a.provided_approvals;
              })
              s.approvals;
      })
    | none ↦ do
      apps ← or_fail (find_in proposer proposal_name s.old_approvals) "proposal not found"
      check (has_level level apps.provided_approvals) "no approval previously granted"
      ok (record s {
        old_approvals =
            modify_in proposer proposal_name
              (λ a. record a {
                requested_approvals = a.requested_approvals ++ level ∷ [];
                provided_approvals = erase_level level a.provided_approvals;
              })
              s.old_approvals;
      })
  ]

-- The approvals of a proposal go from the new table, or else from the old one.
unfoldable pub erase_approvals : Name → Name → State → Result State
erase_approvals proposer proposal_name s = elim (find_in proposer proposal_name s.approvals) [
  | some _ ↦ ok (record s { approvals = erase_in proposer proposal_name s.approvals })
  | none ↦ do
    or_fail (find_in proposer proposal_name s.old_approvals) "proposal not found"
    ok (record s { old_approvals = erase_in proposer proposal_name s.old_approvals })
]

unfoldable pub cancel : MsigHost → Name → Name → Name → State → Result State
unfolding erase_approvals
cancel h proposer proposal_name canceler s = do
  check (h.has_auth canceler) "missing authority"
  prop ← or_fail (find_in proposer proposal_name s.proposals) "proposal not found"
  check (canceler == proposer || ltb (h.expiration prop.packed_transaction) h.now)
      "cannot cancel until expiration"
  erase_approvals proposer proposal_name
      (record s { proposals = erase_in proposer proposal_name s.proposals })

-- The loop of `exec` over the new table: approvals that are younger than the last invalidation.
unfoldable pub valid_approvals : Table Invalidation → List Approval → List PermissionLevel
valid_approvals inv [] = []
valid_approvals inv (p ∷ ps) =
    let rest = valid_approvals inv ps in
    if (elim (find p.level.actor inv) [
      | none ↦ true
      | some i ↦ ltb i.last_invalidation_time p.time
    ])
    then p.level ∷ rest
    else rest

-- The loop over the old table, whose approvals have no time.
unfoldable pub valid_levels : Table Invalidation → List PermissionLevel → List PermissionLevel
valid_levels inv [] = []
valid_levels inv (l ∷ ls) =
    let rest = valid_levels inv ls in
    if (elim (find l.actor inv) [ none ↦ true | some _ ↦ false ]) then l ∷ rest else rest

unfoldable pub provided_levels : Name → Name → State → Result (List PermissionLevel)
unfolding valid_approvals valid_levels
provided_levels proposer proposal_name s = elim (find_in proposer proposal_name s.approvals) [
  | some apps ↦ ok (valid_approvals s.invalidations apps.provided_approvals)
  | none ↦ do
    apps ← or_fail (find_in proposer proposal_name s.old_approvals) "proposal not found"
    ok (valid_levels s.invalidations apps.provided_approvals)
]

unfoldable pub exec : MsigHost → Name → Name → Name → State → Result State
exec h proposer proposal_name executer s = do
  check (h.has_auth executer) "missing authority"
  prop ← or_fail (find_in proposer proposal_name s.proposals) "proposal not found"
  check (leb h.now (h.expiration prop.packed_transaction)) "transaction expired"
  levels ← provided_levels proposer proposal_name s
  s₁ ← erase_approvals proposer proposal_name s
  check (h.authorises prop.packed_transaction levels) "transaction authorization failed"
  ok (record s₁ {
    deferred =
        s₁.deferred
        ++ (record {
          sender_id = proposer * 2 ^ 64 + proposal_name;
          payer = executer;
          transaction = prop.packed_transaction;
        })
          ∷ [];
    proposals = erase_in proposer proposal_name s₁.proposals;
  })

unfoldable pub invalidate : MsigHost → Name → State → Result State
invalidate h account s = do
  check (h.has_auth account) "missing authority"
  ok (record s {
    invalidations =
        put account (record { account = account; last_invalidation_time = h.now_us })
          s.invalidations;
  })
