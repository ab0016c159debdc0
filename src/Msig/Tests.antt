-- ===== src/Msig/Tests.antt =====
-- The theorems of the multi-signature contract at concrete inputs.
use mathlib.Core.List.{Perm}
use telos_arbitration_fix.Prelude.{
  ℕ, ◌≡◌, refl, ◌≤◌, Bool, true, false, none, some, List, [], ◌∷◌, ◌++◌, ◌+◌, ◌*◌, ◌^◌, arith,
}
use telos_arbitration_fix.Eosio.{err}
use telos_arbitration_fix.Eosio.Example.{example_host}
use telos_arbitration_fix.Msig.Types.{
  PermissionLevel, Proposal, Approval, Approvals, State, MsigHost,
}
use telos_arbitration_fix.Msig.Actions.{
  find_in, erase_approval, valid_approvals, provided_levels, erase_approvals, check_hash, approve,
  exec, invalidate,
}
use telos_arbitration_fix.Msig.Execution.{names_actor, exec_lem, exec-invalidate, exec-exec}
use telos_arbitration_fix.Msig.Parties.{parties, approve_moves}

-- Transactions expire at 2000, and any approval at all authorises them.
abbrev enough : List PermissionLevel → Bool
enough [] = false
enough (l ∷ ls) = true

abbrev msig_host : MsigHost
msig_host = record {
  host = example_host;
  expiration = λ t. 2000;
  authorises = λ t ls. enough ls;
  sha256_matches = λ t n. true;
}

abbrev alice : PermissionLevel
alice = record { actor = 1; permission = 9 }

abbrev bob : PermissionLevel
bob = record { actor = 2; permission = 9 }

abbrev at_time : PermissionLevel → ℕ → Approval
at_time l t = record { level = l; time = t }

abbrev pay : Proposal
pay = record { proposal_name = 50; packed_transaction = 1 ∷ 2 ∷ [] }

abbrev approvals_of : List Approval → List Approval → Approvals
approvals_of req prov = record {
  version = 1;
  proposal_name = 50;
  requested_approvals = req;
  provided_approvals = prov;
}

-- Account 5 has proposed the payment 50.
abbrev state_of : Approvals → State
state_of a = record {
  proposals = (5, (50, pay) ∷ []) ∷ [];
  approvals = (5, (50, a) ∷ []) ∷ [];
  old_approvals = [];
  invalidations = [];
  deferred = [];
}

abbrev five : ℕ
five = 5

abbrev half : Approvals
half = approvals_of (at_time bob 0 ∷ []) (at_time alice 400 ∷ [])

abbrev executed : State
executed = record (state_of half) {
  proposals = (5, []) ∷ [];
  approvals = (5, []) ∷ [];
  deferred = (record { sender_id = 5 * 2 ^ 64 + 50; payer = 3; transaction = 1 ∷ 2 ∷ [] }) ∷ [];
}

abbrev cancelled : State
cancelled = record (state_of half) { proposals = (5, []) ∷ []; approvals = (5, []) ∷ [] }

exec_lem_example :
    (prop : Proposal) × (find_in 5 50 (state_of half).proposals ≡ some prop)
    × (1000 ≤ 2000)
    × (enough (valid_approvals [] half.provided_approvals) ≡ true)
    × (executed.deferred
        ≡ (record { sender_id = 5 * 2 ^ 64 + 50; payer = 3; transaction = prop.packed_transaction })
          ∷ [])
    × (find_in 5 50 executed.proposals ≡ none)
    × (find_in 5 50 executed.approvals ≡ none)
unfolding exec provided_levels valid_approvals erase_approvals
exec_lem_example = exec_lem msig_host 5 50 3 (state_of half) executed half refl refl

exec-exec_example : exec msig_host 5 50 4 executed ≡ err "proposal not found"
unfolding exec provided_levels valid_approvals erase_approvals
exec-exec_example =
    exec-exec msig_host msig_host 5 50 3 4 (state_of half) executed half refl refl refl

-- Both have approved, and then the first invalidates.
abbrev both : Approvals
both = approvals_of [] (at_time alice 400 ∷ at_time bob 500 ∷ [])

abbrev invalidated : State
invalidated = record (state_of both) {
  invalidations = (1, record { account = 1; last_invalidation_time = 1000000000 }) ∷ [];
}

abbrev executed_by_bob : State
executed_by_bob = record invalidated {
  proposals = (5, []) ∷ [];
  approvals = (5, []) ∷ [];
  deferred = executed.deferred;
}

exec-invalidate_example :
    (prop : Proposal) × (ls : List PermissionLevel) × (find_in 5 50 (state_of both).proposals
      ≡ some prop)
    × (enough ls ≡ true)
    × (names_actor 1 ls ≡ false)
unfolding invalidate exec provided_levels valid_approvals erase_approvals
exec-invalidate_example =
    exec-invalidate msig_host msig_host 1 5 50 3 (state_of both) invalidated executed_by_bob both
      refl refl (ground arith) refl

abbrev all_approved : Approvals
all_approved = approvals_of [] (at_time alice 400 ∷ at_time bob 1000000000 ∷ [])

approve_moves_example :
    (a' : Approvals) × (find_in 5 50 (state_of all_approved).approvals ≡ some a')
    × (a'.provided_approvals ≡ half.provided_approvals ++ at_time bob 1000000000 ∷ [])
    × (a'.requested_approvals ≡ erase_approval bob half.requested_approvals)
    × Perm (parties a') (parties half)
unfolding approve check_hash
approve_moves_example =
    approve_moves msig_host 5 50 bob (state_of half) (state_of all_approved) half refl none refl

abbrev taken_back : Approvals
taken_back = approvals_of (at_time bob 0 ∷ at_time alice 1000000000 ∷ []) []
