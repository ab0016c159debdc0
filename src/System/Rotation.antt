-- ===== src/System/Rotation.antt =====
-- contracts/eosio.system/src/system_rotation.cpp: the rotation of a producer in the schedule with a
-- standby. An iterator is the element that it points to, and none at the end.
use telos_arbitration_fix.Prelude.{
  ℕ, ◌+◌, ◌-◌, ◌%◌, ◌^◌, Bool, not, ◌&&◌, ◌||◌, Option, none, some, List, [], ◌∷◌, ◌==◌, ltb, leb,
  if◌then◌else◌, length, get_elem?, take,
}
use telos_arbitration_fix.Eosio.{Table, modify, Name}
use telos_arbitration_fix.System.{ProducerInfo, ProducerKey, RotationState, State, Chain}

-- TWELVE_HOURS_US, TOP_PRODUCERS and MAX_PRODUCERS
abbrev pub twelve_hours_us : ℕ
twelve_hours_us = 43200000000

abbrev pub top_producers : ℕ
top_producers = 21

abbrev pub max_producers : ℕ
max_producers = 42

abbrev pub set_bps_rotation : Name → Name → RotationState → RotationState
set_bps_rotation bp_out sbp_in r = record r { bp_currently_out = bp_out; sbp_currently_in = sbp_in }

unfoldable pub update_rotation_time : Chain → ℕ → RotationState → RotationState
update_rotation_time c block_time r = record r {
  last_rotation_time = block_time;
  next_rotation_time = c.to_slot (c.to_time_point block_time + twelve_hours_us);
}

-- Of a producer that missed no block, a kick is forgotten.
abbrev pub restart_missed_blocks : ProducerInfo → ProducerInfo
restart_missed_blocks p = record p {
  times_kicked =
      if ltb 0 p.times_kicked && p.missed_blocks_per_rotation == 0
      then p.times_kicked - 1
      else p.times_kicked;
  lifetime_missed_blocks = (p.lifetime_missed_blocks + p.missed_blocks_per_rotation) % 2 ^ 32;
  missed_blocks_per_rotation = 0;
}

-- A key that is not in the table leaves it as it is.
unfoldable pub restart_missed_blocks_per_rotation :
    List ProducerKey → Table ProducerInfo → Table ProducerInfo
restart_missed_blocks_per_rotation [] t = t
restart_missed_blocks_per_rotation (k ∷ ks) t =
    restart_missed_blocks_per_rotation ks (modify k.producer_name restart_missed_blocks t)

abbrev pub is_in_range : ℕ → ℕ → ℕ → Bool
is_in_range index low_bound up_bound = leb low_bound index && ltb index up_bound

-- `std::find_if` by the name, as an index: that of the end where there is none.
unfoldable pub index_of : Name → List ProducerKey → ℕ
index_of n [] = 0
index_of n (k ∷ ks) = let rest = index_of n ks in if k.producer_name == n then 0 else rest + 1

abbrev pub name_at : Option ProducerKey → Name
name_at none = 0
name_at (some k) = k.producer_name

-- The next indices, of `total` producers. Neither sum can exceed a uint32_t.
unfoldable pub next_indices : ℕ → RotationState → RotationState
next_indices total r = record r {
  bp_out_index = if leb (top_producers - 1) r.bp_out_index then 0 else r.bp_out_index + 1;
  sbp_in_index = if leb (total - 1) r.sbp_in_index then top_producers else r.sbp_in_index + 1;
}

-- The rotation, the producer that goes out and the standby that comes in.
pub record Swap : Type 0 where
  pub rotation : RotationState
  pub it_bp : Option ProducerKey
  pub it_sbp : Option ProducerKey

-- The branch where the rotation time is over.
unfoldable pub next_swap : List ProducerKey → RotationState → Swap
unfolding next_indices
next_swap prods r =
    if ltb top_producers (length prods)
    then (let next = next_indices (length prods) r in
        let bp = get_elem? prods next.bp_out_index in
        let sbp = get_elem? prods next.sbp_in_index in
        record {
          rotation = set_bps_rotation (name_at bp) (name_at sbp) next;
          it_bp = bp;
          it_sbp = sbp;
        })
    else record { rotation = r; it_bp = none; it_sbp = none }

-- The branch where it is not.
unfoldable pub current_swap : List ProducerKey → RotationState → Swap
unfolding index_of
current_swap prods r =
    let total = length prods in
    let bp_index = index_of r.bp_currently_out prods in
    let sbp_index = index_of r.sbp_currently_in prods in
    let off = set_bps_rotation 0 0 r in
    if not (r.bp_currently_out == 0) && not (r.sbp_currently_in == 0)
    then (if bp_index == total || sbp_index == total
        then record {
          rotation =
              if ltb total top_producers
              then record off { bp_out_index = top_producers; sbp_in_index = max_producers + 1 }
              else off;
          it_bp = get_elem? prods bp_index;
          it_sbp = get_elem? prods sbp_index;
        }
        else (if ltb top_producers total
              && (not (is_in_range bp_index 0 top_producers)
                  || not (is_in_range sbp_index top_producers max_producers))
            then record { rotation = off; it_bp = none; it_sbp = none }
            else record {
              rotation = r;
              it_bp = get_elem? prods bp_index;
              it_sbp = get_elem? prods sbp_index;
            }))
    else record { rotation = r; it_bp = none; it_sbp = none }

-- The loop that puts the standby in the place of the producer.
unfoldable pub substitute : ProducerKey → ProducerKey → List ProducerKey → List ProducerKey
substitute bp sbp [] = []
substitute bp sbp (k ∷ ks) =
    (if k.producer_name == bp.producer_name then sbp else k) ∷ substitute bp sbp ks

unfoldable pub schedule :
    Option ProducerKey → Option ProducerKey → List ProducerKey → List ProducerKey
unfolding substitute
schedule (some bp) (some sbp) prods = substitute bp sbp (take top_producers prods)
schedule (some bp) none prods = take top_producers prods
schedule none it_sbp prods = take top_producers prods

unfoldable pub check_rotation_state :
    Chain → List ProducerKey → ℕ → State → List ProducerKey × State
unfolding next_swap current_swap schedule update_rotation_time restart_missed_blocks_per_rotation
check_rotation_state c prods block_time s =
    if leb s.rotation.next_rotation_time block_time
    then (let swap = next_swap prods s.rotation in
        (
          schedule swap.it_bp swap.it_sbp prods,
          record s {
            rotation = update_rotation_time c block_time swap.rotation;
            producers = restart_missed_blocks_per_rotation prods s.producers;
          },
        ))
    else (let swap = current_swap prods s.rotation in
        (schedule swap.it_bp swap.it_sbp prods, record s { rotation = swap.rotation }))
