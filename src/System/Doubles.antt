-- ===== src/System/Doubles.antt =====
-- A rotation of contracts/eosio.system/src/system_rotation.cpp whose standby has become one of the
-- top producers.
use telos_arbitration_fix.Prelude.{
  ℕ, zero, suc, ◌≤◌, ◌<◌, ◌≡◌, ◌≢◌, refl, ap, inl, inr, true, false, ◌||◌, some, List, [], ◌∷◌,
  ◌==◌, leb, length, get_elem?, take, contains, Distinct, arith, Bool-cases,
}
use telos_arbitration_fix.Eosio.{Name}
use telos_arbitration_fix.System.{ProducerKey, RotationState, State, Chain}
use telos_arbitration_fix.System.Rotation.{
  index_of, current_swap, substitute, schedule, check_rotation_state,
}
use telos_arbitration_fix.System.Schedule.{names}

contains-substitute :
    (bp sbp : ProducerKey) (ks : List ProducerKey)
    → (contains bp.producer_name (names ks) || contains sbp.producer_name (names ks)) ≡ true
    → contains sbp.producer_name (names (substitute bp sbp ks)) ≡ true
unfolding substitute
contains-substitute bp sbp [] h = ground arith
contains-substitute bp sbp (k ∷ ks) h = ground (arith, contains-substitute bp sbp ks)

-- The standby comes in, and stays in its own place too.
substitute_twice :
    (bp sbp : ProducerKey) (ks : List ProducerKey)
    → contains bp.producer_name (names ks) ≡ true
    → contains sbp.producer_name (names ks) ≡ true
    → bp.producer_name ≢ sbp.producer_name
    → ¬ Distinct (names (substitute bp sbp ks))
unfolding substitute
substitute_twice bp sbp [] h m n d = ground arith
substitute_twice bp sbp (k ∷ ks) h m n d =
    ground (arith, substitute_twice bp sbp ks, contains-substitute bp sbp ks)

index_of-contains :
    (n : Name) (ks : List ProducerKey)
    → contains n (names ks) ≡ true
    → (k : ProducerKey) × (get_elem? ks (index_of n ks) ≡ some k)
      × (k.producer_name ≡ n)
      × (index_of n ks < length ks)
unfolding index_of
index_of-contains n [] h = absurd (ground arith)
index_of-contains n (k ∷ ks) h = elim (Bool-cases (k.producer_name == n)) [
  | inl e ↦ (k, ground (arith, e), ground (arith, e), ground (arith, e))
  | inr e ↦
      let (a, at, same, low) = index_of-contains n ks (ground (arith, e)) in
      (a, ground (arith, e, at), same, ground (arith, e, low))
]

take-all : (n : ℕ) (ks : List ProducerKey) → length ks ≤ n → take n ks ≡ ks
take-all zero [] l = refl
take-all zero (k ∷ ks) l = absurd (omega arith)
take-all (suc n) [] l = refl
take-all (suc n) (k ∷ ks) l = ap (λ x. k ∷ x) (take-all n ks (omega arith))

current_swap_few :
    (ks : List ProducerKey) (r : RotationState) (bp sbp : ProducerKey)
    → length ks ≤ 21
    → get_elem? ks (index_of r.bp_currently_out ks) ≡ some bp
    → get_elem? ks (index_of r.sbp_currently_in ks) ≡ some sbp
    → index_of r.bp_currently_out ks < length ks
    → index_of r.sbp_currently_in ks < length ks
    → r.bp_currently_out ≢ 0
    → r.sbp_currently_in ≢ 0
    → current_swap ks r ≡ record { rotation = r; it_bp = some bp; it_sbp = some sbp }
unfolding current_swap
current_swap_few ks r bp sbp few at at' l l' n n' = ground arith

-- Before the time of the next rotation, where at most 21 producers are left and both the producer
-- that is out and the standby that is in are among them, the schedule holds a producer twice.
pub check_rotation_state_doubles :
    (c : Chain) (ks : List ProducerKey) (time : ℕ) (s : State)
    → length ks ≤ 21
    → time < s.rotation.next_rotation_time
    → contains s.rotation.bp_currently_out (names ks) ≡ true
    → contains s.rotation.sbp_currently_in (names ks) ≡ true
    → s.rotation.bp_currently_out ≢ s.rotation.sbp_currently_in
    → s.rotation.bp_currently_out ≢ 0
    → s.rotation.sbp_currently_in ≢ 0
    → ¬ Distinct (names (check_rotation_state c ks time s).0)
unfolding check_rotation_state schedule
check_rotation_state_doubles c ks time s few early out into differ n n' =
    let (bp, at, e, low) = index_of-contains s.rotation.bp_currently_out ks out in
    let (sbp, at', e', low') = index_of-contains s.rotation.sbp_currently_in ks into in
    let waits : leb s.rotation.next_rotation_time time ≡ false = ground arith in
    let swap = current_swap_few ks s.rotation bp sbp few at at' low low' n n' in
    rw (waits, swap, take-all 21 ks few)
      (substitute_twice bp sbp ks (rw e out) (rw e' into) (rw (e, e') differ))
