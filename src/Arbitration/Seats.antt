-- ===== src/Arbitration/Seats.antt =====
-- Seats and permissions: what `has_available_seats`, `get_arb_permissions` and `set_permissions` do.
use telos_arbitration_fix.Prelude.{
  ℕ, ◌+◌, ◌*◌, ◌%◌, ◌^◌, ◌≤◌, ◌<◌, ◌≡◌, refl, ◌∙◌, ◌⊎◌, Bool, true, not, ◌||◌, ◌&&◌, some, List, [],
  ◌∷◌, ◌++◌, map, length, contains, ◌==◌, ltb, if◌then◌else◌, arith,
}
use telos_arbitration_fix.Eosio.{ok, Table, find, modify, rows, Name, Host}
use telos_arbitration_fix.Eosio.Names
use telos_arbitration_fix.Arbitration.Types.{Arbitrator, PermissionWeight, Authority, Sent, State}
use telos_arbitration_fix.Arbitration.ArbStatus.{removed, seat_expired}
use telos_arbitration_fix.Arbitration.Helpers.{
  count_seats, has_available_seats, get_arb_permissions, insert_perm, sort_perms, perms_weight,
  set_permissions,
}
use telos_arbitration_fix.Arbitration.ArbActions.{dismissarb}

-- A seat is held while it is not marked expired and its term is not over.
abbrev pub is_held : ℕ → Arbitrator → Bool
is_held now a = not (a.arb_status == seat_expired) && not (ltb a.term_expiration now)

unfoldable pub held : ℕ → Table Arbitrator → ℕ
held now [] = 0
held now ((_, a) ∷ t) = if is_held now a then held now t + 1 else held now t

count_seats-eq-held :
    (now n : ℕ) (t : Table Arbitrator) → n < 256 → (count_seats now n t).1 ≡ (n + held now t) % 256
unfolding count_seats held
count_seats-eq-held now n [] b = omega arith
count_seats-eq-held now n ((k, a) ∷ t) b =
    ground (arith, count_seats-eq-held now n t, count_seats-eq-held now ((n + 1) % 256) t)

-- Where at most 255 seats exist and no more are held, the seats that are free and those that are
-- held make up the seats.
pub has_available_seats-add-held :
    (h : Host) (s : State)
    → s.config.max_elected_arbs < 256
    → held h.now s.arbitrators ≤ s.config.max_elected_arbs
    → (has_available_seats h s).0 + held h.now s.arbitrators ≡ s.config.max_elected_arbs
unfolding has_available_seats
has_available_seats-add-held h s b le =
    omega (arith, count_seats-eq-held h.now 0 s.arbitrators (omega arith))

-- Where more seats are held than exist, as after `setconfig` lowered their number, and fewer than
-- 256, the subtraction wraps: the seats that are found free are 256 more than the seats less those
-- that are held.
pub has_available_seats_wraps :
    (h : Host) (s : State)
    → held h.now s.arbitrators < 256
    → s.config.max_elected_arbs < held h.now s.arbitrators
    → (has_available_seats h s).0 + held h.now s.arbitrators ≡ s.config.max_elected_arbs + 256
unfolding has_available_seats
has_available_seats_wraps h s b lt =
    omega (arith, count_seats-eq-held h.now 0 s.arbitrators (omega arith))

-- For 1 to 2^30 - 1 permitted accounts, the threshold of the permission can be met by them, one vote
-- each, and for more than three of them takes more than two thirds.
pub perms_weight_bounds :
    (n : ℕ)
    → 0 < n
    → n < 2 ^ 30
    → (1 ≤ perms_weight n) × (perms_weight n ≤ n) × ((n ≤ 3) ⊎ (2 * n < 3 * perms_weight n))
unfolding perms_weight
perms_weight_bounds n p b = ground arith

abbrev pub actors : List PermissionWeight → List Name
actors = map λ p. p.actor

-- Every arbitrator gets the permission, the removed and the expired too: the test of the code cannot
-- fail.
pub get_arb_permissions-eq-map :
    (t : List Arbitrator)
    → get_arb_permissions t
      ≡ map (λ a. record { actor = a.arb; permission = Names.active; weight = 1 }) t
unfolding get_arb_permissions
get_arb_permissions-eq-map [] = refl
get_arb_permissions-eq-map (a ∷ t) = ground (arith, get_arb_permissions-eq-map t)

contains-insert_perm :
    (n : Name) (p : PermissionWeight) (ps : List PermissionWeight)
    → contains n (actors (insert_perm p ps)) ≡ (p.actor == n || contains n (actors ps))
unfolding insert_perm
contains-insert_perm n p [] = refl
contains-insert_perm n p (q ∷ ps) = ground (arith, contains-insert_perm n p ps)

pub contains-sort_perms :
    (n : Name) (ps : List PermissionWeight)
    → contains n (actors (sort_perms ps)) ≡ contains n (actors ps)
unfolding sort_perms
contains-sort_perms n [] = refl
contains-sort_perms n (p ∷ ps) =
    ground (arith, contains-insert_perm n p (sort_perms ps), contains-sort_perms n ps)

contains-permissions :
    (n : Name) (f : Arbitrator → Arbitrator) (t : Table Arbitrator) (a : Arbitrator)
    → find n t ≡ some a
    → (f a).arb ≡ n
    → contains n (actors (get_arb_permissions (rows (modify n f t)))) ≡ true
unfolding get_arb_permissions
contains-permissions n f [] a e k = cc
contains-permissions n f ((j, b) ∷ t) a e k = ground (arith, contains-permissions n f t a)

-- The last action sent grants the permission `major` to this account.
abbrev pub Grants : Host → Name → List Sent → List Sent → Type 0
Grants h n before after =
    (auth : Authority) × (after
      ≡ before ++ Sent.updateauth h.self Names.major Names.owner auth ∷ [])
    × (contains n (actors auth.accounts) ≡ true)

set_permissions-Grants :
    (h : Host) (n : Name) (ps : List PermissionWeight) (s : State)
    → contains n (actors ps) ≡ true
    → Grants h n s.sent (set_permissions h ps s).sent
unfolding set_permissions
set_permissions-Grants h n [] s e = cc
set_permissions-Grants h n (p ∷ ps) s e = (
  record { threshold = perms_weight (length (p ∷ ps)); accounts = sort_perms (p ∷ ps) },
  ground arith,
  contains-sort_perms n (p ∷ ps) ∙ e,
)

-- When an arbitrator who stands under the own name is dismissed, the action that the contract sends
-- to set the permission `major` grants it to that arbitrator again.
pub dismissarb-Grants :
    (h : Host) (n : Name) (all : Bool) (s s' : State) (a : Arbitrator)
    → find n s.arbitrators ≡ some a
    → a.arb ≡ n
    → dismissarb h n all s ≡ ok s'
    → Grants h n s.sent s'.sent
unfolding dismissarb
dismissarb-Grants h n all s s' a e k done =
    let before = record s {
      arbitrators = modify n (λ x. record x { arb_status = removed }) s.arbitrators;
    } in
    let perms = get_arb_permissions (rows before.arbitrators) in
    rw sent_after (
      set_permissions-Grants h n perms before
        (contains-permissions n (λ x. record x { arb_status = removed }) s.arbitrators a e k))
  where
    sent_after :
        s'.sent
        ≡ (set_permissions h
            (get_arb_permissions
              (rows (modify n (λ x. record x { arb_status = removed }) s.arbitrators)))
            (record s {
              arbitrators = modify n (λ x. record x { arb_status = removed }) s.arbitrators;
            })).sent
    sent_after = ground arith
