-- ===== src/System/Swaps.antt =====
-- What a rotation of contracts/eosio.system/src/system_rotation.cpp does to the schedule, from one
-- rotation to the next.
use telos_arbitration_fix.Prelude.{
  ℕ, ◌≤◌, ◌<◌, ◌≡◌, refl, ◌∙◌, inl, inr, false, none, some, List, [], ◌∷◌, leb, length, get_elem?,
  take, contains, Distinct, arith, Bool-cases,
}
use telos_arbitration_fix.Eosio.{Name}
use telos_arbitration_fix.System.{ProducerKey, RotationState, State, Chain}
use telos_arbitration_fix.System.Rotation.{
  update_rotation_time, index_of, next_indices, next_swap, current_swap, check_rotation_state,
}
use telos_arbitration_fix.System.Schedule.{names, length-schedule, Distinct-schedule, later-take}

-- Where the indices of the rotation stay.
pub record IsRotation (r : RotationState) : Type 0 where
  pub out_index : r.bp_out_index ≤ 21
  pub in_index : 21 ≤ r.sbp_in_index

pub get_elem?-end : (ks : List ProducerKey) → get_elem? ks (length ks) ≡ none
get_elem?-end [] = refl
get_elem?-end (k ∷ ks) = get_elem?-end ks

index_of_bound : (n : Name) (ks : List ProducerKey) → index_of n ks ≤ length ks
unfolding index_of
index_of_bound n [] = omega arith
index_of_bound n (k ∷ ks) = ground (arith, index_of_bound n ks)

-- Where a rotation moves on, it takes the producers of the next indices.
next_swap-sbp :
    (ks : List ProducerKey) (r : RotationState) (k : ProducerKey)
    → (next_swap ks r).it_sbp ≡ some k
    → get_elem? ks (next_indices (length ks) r).sbp_in_index ≡ some k
unfolding next_swap
next_swap-sbp ks r k e = ground arith

pub next_indices-later :
    (n : ℕ) (r : RotationState) → 21 ≤ r.sbp_in_index → 21 ≤ (next_indices n r).sbp_in_index
unfolding next_indices
next_indices-later n r h = ground arith

-- The standby comes from behind the top producers.
next_swap-later :
    (ks : List ProducerKey) (r : RotationState) (k : ProducerKey)
    → IsRotation r
    → Distinct (names ks)
    → (next_swap ks r).it_sbp ≡ some k
    → contains k.producer_name (names (take 21 ks)) ≡ false
next_swap-later ks r k v d e =
    later-take 21 (next_indices (length ks) r).sbp_in_index ks k d (next_swap-sbp ks r k e)
      (next_indices-later (length ks) r v.in_index)

-- Where a rotation stays, the standby stands at its index, behind the top producers.
current_swap-sbp :
    (ks : List ProducerKey) (r : RotationState) (b k : ProducerKey)
    → 21 < length ks
    → (current_swap ks r).it_bp ≡ some b
    → (current_swap ks r).it_sbp ≡ some k
    → (get_elem? ks (index_of r.sbp_currently_in ks) ≡ some k)
      × (21 ≤ index_of r.sbp_currently_in ks)
unfolding current_swap
current_swap-sbp ks r b k l e f = ground (arith, get_elem?-end ks)

current_swap-later :
    (ks : List ProducerKey) (r : RotationState) (b k : ProducerKey)
    → 21 < length ks
    → Distinct (names ks)
    → (current_swap ks r).it_bp ≡ some b
    → (current_swap ks r).it_sbp ≡ some k
    → contains k.producer_name (names (take 21 ks)) ≡ false
current_swap-later ks r b k l d e f =
    let (at, later) = current_swap-sbp ks r b k l e f in
    later-take 21 (index_of r.sbp_currently_in ks) ks k d at later

next_swap-IsRotation :
    (ks : List ProducerKey) (r : RotationState)
    → IsRotation r
    → IsRotation (next_swap ks r).rotation
unfolding next_swap next_indices
next_swap-IsRotation ks r v = record {
  out_index = ground (arith, v.out_index);
  in_index = ground (arith, v.in_index);
}

current_swap-IsRotation :
    (ks : List ProducerKey) (r : RotationState)
    → IsRotation r
    → IsRotation (current_swap ks r).rotation
unfolding current_swap
current_swap-IsRotation ks r v = record {
  out_index = ground (arith, v.out_index);
  in_index = ground (arith, v.in_index);
}

-- Of more than 21 producers with different names, whose index for the standby is at least 21 and
-- whose index for the producer at most 21, the schedule has exactly 21 producers, no two of them the
-- same, whether the rotation moves on, stays, or is given up; and the indices stay so.
pub check_rotation_state-IsRotation :
    (c : Chain) (ks : List ProducerKey) (time : ℕ) (s : State)
    → IsRotation s.rotation
    → Distinct (names ks)
    → 21 < length ks
    → let (top, s') = check_rotation_state c ks time s in
      (length top ≡ 21) × Distinct (names top) × IsRotation s'.rotation
unfolding check_rotation_state update_rotation_time
check_rotation_state-IsRotation c ks time s v d l =
    elim (Bool-cases (leb s.rotation.next_rotation_time time)) [
      | inl up ↦
          let swap = next_swap ks s.rotation in
          let w = next_swap-IsRotation ks s.rotation v in
          rw up (
            length-schedule swap.it_bp swap.it_sbp ks ∙ ground arith,
            Distinct-schedule swap.it_bp swap.it_sbp ks
                (λ b k _. next_swap-later ks s.rotation k v d) d,
            record { out_index = w.out_index; in_index = w.in_index },
          )
      | inr early ↦
          let swap = current_swap ks s.rotation in
          rw early (
            length-schedule swap.it_bp swap.it_sbp ks ∙ ground arith,
            Distinct-schedule swap.it_bp swap.it_sbp ks
                (λ b k. current_swap-later ks s.rotation b k l d) d,
            current_swap-IsRotation ks s.rotation v,
          )
    ]
