-- ===== src/System/Turns.antt =====
-- The turns of contracts/eosio.system/src/system_rotation.cpp: a rotation that moves on, the time
-- until the next one, and a rotation that stays while the standbys are gone.
use telos_arbitration_fix.Prelude.{
  ℕ, zero, suc, ◌+◌, ◌≤◌, ◌<◌, ◌≡◌, ◌≢◌, refl, ap, subst, ◌∙◌, true, false, some, List, [], ◌∷◌,
  ◌==◌, leb, ◌⊎◌, if◌then◌else◌, length, get_elem?, take, contains, Distinct, arith,
}
use telos_arbitration_fix.System.{ProducerKey, RotationState, State, Chain}
use telos_arbitration_fix.System.Rotation.{
  set_bps_rotation, update_rotation_time, index_of, next_indices, next_swap, current_swap,
  substitute, schedule, check_rotation_state, twelve_hours_us,
}
use telos_arbitration_fix.System.Schedule.{
  names, substitute_absent, Distinct-take, get_elem?-length, contains-get_elem?,
}
use telos_arbitration_fix.System.Swaps.{IsRotation}

get_elem?-take :
    (n i : ℕ) (ks : List ProducerKey) → i < n → get_elem? (take n ks) i ≡ get_elem? ks i
get_elem?-take zero i ks l = absurd (omega arith)
get_elem?-take (suc n) i [] l = refl
get_elem?-take (suc n) zero (k ∷ ks) l = refl
get_elem?-take (suc n) (suc i) (k ∷ ks) l = get_elem?-take n i ks (omega arith)

-- Of different names, the one that goes out stands at its own index alone.
get_elem?-substitute :
    (o i : ℕ) (bp sbp : ProducerKey) (ks : List ProducerKey)
    → Distinct (names ks)
    → get_elem? ks o ≡ some bp
    → get_elem? (substitute bp sbp ks) i ≡ (if i == o then some sbp else get_elem? ks i)
unfolding substitute
get_elem?-substitute o i bp sbp [] d e = absurd (ground arith)
get_elem?-substitute zero zero bp sbp (k ∷ ks) d e = ground arith
get_elem?-substitute zero (suc i) bp sbp (k ∷ ks) d e = ground (arith, substitute_absent bp sbp ks)
get_elem?-substitute (suc o) zero bp sbp (k ∷ ks) d e = ground (arith, contains-get_elem? o ks bp e)
get_elem?-substitute (suc o) (suc i) bp sbp (k ∷ ks) d e =
    get_elem?-substitute o i bp sbp ks d.1 e ∙ ground arith

index_of-get_elem? :
    (i : ℕ) (ks : List ProducerKey) (k : ProducerKey)
    → Distinct (names ks)
    → get_elem? ks i ≡ some k
    → index_of k.producer_name ks ≡ i
unfolding index_of
index_of-get_elem? i [] k d e = absurd (ground arith)
index_of-get_elem? zero (a ∷ ks) k d e = ground arith
index_of-get_elem? (suc i) (a ∷ ks) k d e =
    ground (arith, index_of-get_elem? i ks k d.1 e, contains-get_elem? i ks k e)

-- The indices of a rotation of more than 21 producers.
next_indices_bounds :
    (n : ℕ) (r : RotationState)
    → IsRotation r
    → 21 < n
    → let next = next_indices n r in
      (next.bp_out_index < 21) × (21 ≤ next.sbp_in_index) × (next.sbp_in_index < n)
unfolding next_indices
next_indices_bounds n r v l =
    (ground (arith, v.out_index), ground (arith, v.in_index), ground (arith, v.in_index))

-- The schedule with one producer replaced.
schedule-get_elem? :
    (o i : ℕ) (bp sbp : ProducerKey) (ks : List ProducerKey)
    → Distinct (names ks)
    → get_elem? ks o ≡ some bp
    → o < 21
    → i < 21
    → get_elem? (schedule (some bp) (some sbp) ks) i ≡ (if i == o then some sbp else get_elem? ks i)
unfolding schedule
schedule-get_elem? o i bp sbp ks d e l m =
    get_elem?-substitute o i bp sbp (take 21 ks) (Distinct-take 21 ks d)
      (get_elem?-take 21 o ks l ∙ e)
    ∙ ap (λ x. if i == o then some sbp else x) (get_elem?-take 21 i ks m)

-- The swap of a rotation that moves on.
next_swap_lem :
    (ks : List ProducerKey) (r : RotationState)
    → IsRotation r
    → 21 < length ks
    → (bp : ProducerKey) × (sbp : ProducerKey) × (get_elem? ks
          (next_indices (length ks) r).bp_out_index
        ≡ some bp)
      × (get_elem? ks (next_indices (length ks) r).sbp_in_index ≡ some sbp)
      × (next_swap ks r ≡ record {
        rotation = set_bps_rotation bp.producer_name sbp.producer_name (next_indices (length ks) r);
        it_bp = some bp;
        it_sbp = some sbp;
      })
unfolding next_swap
next_swap_lem ks r v l =
    let next = next_indices (length ks) r in
    let (low, _, high) = next_indices_bounds (length ks) r v l in
    let (bp, at) = get_elem?-length next.bp_out_index ks (omega arith) in
    let (sbp, at') = get_elem?-length next.sbp_in_index ks high in (bp, sbp, at, at', ground arith)

-- The next index, one further, and from the last back to the first.
next_indices_turn :
    (n : ℕ) (r : RotationState)
    → (((r.bp_out_index < 20) × ((next_indices n r).bp_out_index ≡ r.bp_out_index + 1))
        ⊎ ((20 ≤ r.bp_out_index) × ((next_indices n r).bp_out_index ≡ 0)))
      × (((r.sbp_in_index + 1 < n) × ((next_indices n r).sbp_in_index ≡ r.sbp_in_index + 1))
          ⊎ ((n ≤ r.sbp_in_index + 1) × ((next_indices n r).sbp_in_index ≡ 21)))
unfolding next_indices
next_indices_turn n r = (ground arith, ground arith)

-- When the rotation time is over, of more than 21 producers with different names: the index of the
-- top producer moves one further, from index 20 and above to 0, that of the standby one further too,
-- from the last producer and above to 21; the two producers there are remembered as the ones out and
-- in, and the schedule is the 21 top producers in their order, but with the standby in the place of
-- that one.
pub check_rotation_state_rotates :
    (c : Chain) (ks : List ProducerKey) (time : ℕ) (s : State)
    → IsRotation s.rotation
    → Distinct (names ks)
    → 21 < length ks
    → s.rotation.next_rotation_time ≤ time
    → let (top, s') = check_rotation_state c ks time s in
      (bp : ProducerKey) × (sbp : ProducerKey) × (s'.rotation.bp_out_index < 21)
      × (21 ≤ s'.rotation.sbp_in_index)
      × (((s.rotation.bp_out_index < 20) × (s'.rotation.bp_out_index ≡ s.rotation.bp_out_index + 1))
          ⊎ ((20 ≤ s.rotation.bp_out_index) × (s'.rotation.bp_out_index ≡ 0)))
      × (((s.rotation.sbp_in_index + 1 < length ks)
            × (s'.rotation.sbp_in_index ≡ s.rotation.sbp_in_index + 1))
          ⊎ ((length ks ≤ s.rotation.sbp_in_index + 1) × (s'.rotation.sbp_in_index ≡ 21)))
      × (get_elem? ks s'.rotation.bp_out_index ≡ some bp)
      × (get_elem? ks s'.rotation.sbp_in_index ≡ some sbp)
      × (s'.rotation.bp_currently_out ≡ bp.producer_name)
      × (s'.rotation.sbp_currently_in ≡ sbp.producer_name)
      × ((i : ℕ)
          → i < 21
          → get_elem? top i ≡ (if i == s'.rotation.bp_out_index then some sbp else get_elem? ks i))
unfolding check_rotation_state update_rotation_time
check_rotation_state_rotates c ks time s v d l up =
    let (bp, sbp, at, at', swap) = next_swap_lem ks s.rotation v l in
    let next = next_indices (length ks) s.rotation in
    let (low, later, _) = next_indices_bounds (length ks) s.rotation v l in
    let (top_turn, standby_turn) = next_indices_turn (length ks) s.rotation in
    let due : leb s.rotation.next_rotation_time time ≡ true = ground arith in
    rw (due, swap)
      (
        bp,
        sbp,
        low,
        later,
        top_turn,
        standby_turn,
        at,
        at',
        refl,
        refl,
        λ i. schedule-get_elem? next.bp_out_index i bp sbp ks d at low,
      )

-- Where the producers of the swap are still there.
current_swap_kept :
    (ks : List ProducerKey) (r : RotationState) (o j : ℕ) (bp sbp : ProducerKey)
    → index_of r.bp_currently_out ks ≡ o
    → index_of r.sbp_currently_in ks ≡ j
    → get_elem? ks o ≡ some bp
    → get_elem? ks j ≡ some sbp
    → r.bp_currently_out ≢ 0
    → r.sbp_currently_in ≢ 0
    → o < 21
    → 21 ≤ j
    → j < length ks
    → length ks ≤ 42
    → current_swap ks r ≡ record { rotation = r; it_bp = some bp; it_sbp = some sbp }
unfolding current_swap
current_swap_kept ks r o j bp sbp e f at at' n m lo hi l size = ground arith

named :
    (i : ℕ) (ks : List ProducerKey) (k : ProducerKey)
    → get_elem? ks i ≡ some k
    → contains 0 (names ks) ≡ false
    → k.producer_name ≢ 0
named i ks k e z n =
    let there : contains 0 (names ks) ≡ true =
      subst (λ x. contains x (names ks) ≡ true) n (contains-get_elem? i ks k e) in
    ground arith

-- After the rotation of more than 21 and at most 42 producers, whose names differ and are not empty,
-- the same producers get the same schedule and leave the contract as it is, until the time of the
-- next rotation.
pub check_rotation_state_stays :
    (c : Chain) (ks : List ProducerKey) (time later : ℕ) (s : State)
    → IsRotation s.rotation
    → Distinct (names ks)
    → contains 0 (names ks) ≡ false
    → 21 < length ks
    → length ks ≤ 42
    → s.rotation.next_rotation_time ≤ time
    → later < c.to_slot (c.to_time_point time + twelve_hours_us)
    → check_rotation_state c ks later (check_rotation_state c ks time s).1
      ≡ check_rotation_state c ks time s
unfolding check_rotation_state update_rotation_time
check_rotation_state_stays c ks time later s v d z l size up early =
    let (bp, sbp, at, at', swap) = next_swap_lem ks s.rotation v l in
    let next = next_indices (length ks) s.rotation in
    let (low, behind, high) = next_indices_bounds (length ks) s.rotation v l in
    let due : leb s.rotation.next_rotation_time time ≡ true = ground arith in
    let waits : leb (c.to_slot (c.to_time_point time + twelve_hours_us)) later ≡ false =
      ground arith in
    let r =
      update_rotation_time c time (set_bps_rotation bp.producer_name sbp.producer_name next) in
    let kept =
      current_swap_kept ks r next.bp_out_index next.sbp_in_index bp sbp
        (index_of-get_elem? next.bp_out_index ks bp d at)
        (index_of-get_elem? next.sbp_in_index ks sbp d at') at at'
        (named next.bp_out_index ks bp at z) (named next.sbp_in_index ks sbp at' z) low behind high
        size in
    rw (due, swap, waits, kept) refl
