-- ===== src/System/Kicking.antt =====
-- contracts/eosio.system/src/system_kick.cpp, and `update_missed_blocks_per_rotation` of
-- contracts/eosio.system/src/system_rotation.cpp: how missed blocks are counted, and who is kicked.
use telos_arbitration_fix.Prelude.{
  ℕ, ◌+◌, ◌-◌, ◌*◌, ◌/◌, ◌%◌, ◌^◌, Bool, true, false, not, ◌&&◌, none, some, List, [], ◌∷◌, ◌==◌,
  ltb, leb, if◌then◌else◌, length,
}
use telos_arbitration_fix.Prelude.Int.{
  ℤ, pos, negsuc, sub_ℕ, pos_part, ◌+ℤ◌, ltb_ℤ, scale_ℤ, quotient_ℤ,
}
use telos_arbitration_fix.Eosio.{find, Name}
use telos_arbitration_fix.Eosio.Names
use telos_arbitration_fix.System.{ProducerMetric, ScheduleMetrics, RotationState, State, Chain}
use telos_arbitration_fix.System.Elected.{max_block_per_cycle, update_elected_producers}

-- A double times 0.15 is compared with a whole number of blocks; 20 times the blocks and 3 times the
-- maximum compare in the same way.
unfoldable pub crossed_missed_blocks_threshold : Chain → RotationState → ℕ → ℕ → Bool
crossed_missed_blocks_threshold c r amount_blocks_missed schedule_size =
    let timeframe =
      quotient_ℤ
        (sub_ℕ (c.to_time_point r.next_rotation_time) (c.to_time_point r.last_rotation_time))
        1000000 in
    let max_blocks_per_cycle = ((schedule_size - 1) * max_block_per_cycle) % 2 ^ 32 in
    let total_blocks =
      quotient_ℤ (scale_ℤ timeframe max_blocks_per_cycle) (max_blocks_per_cycle / 2) in
    let max_blocks_per_producer =
      quotient_ℤ (scale_ℤ total_blocks max_block_per_cycle) max_blocks_per_cycle in
    if leb schedule_size 1
    then false
    else ltb_ℤ (scale_ℤ max_blocks_per_producer 3) (pos (amount_blocks_missed * 20))

unfoldable pub reset_metrics : Name → List ProducerMetric → List ProducerMetric
reset_metrics producer [] = []
reset_metrics producer (pm ∷ pms) =
    record pm {
      missed_blocks_per_cycle =
          if not (producer == 0) && pm.bp_name == producer
          then max_block_per_cycle - 1
          else max_block_per_cycle;
    }
    ∷ reset_metrics producer pms

unfoldable pub reset_schedule_metrics : Name → State → State
unfolding reset_metrics
reset_schedule_metrics producer s =
    let m = s.schedule_metrics in
    record s {
      schedule_metrics = record m { producers_metric = reset_metrics producer m.producers_metric };
    }

unfoldable pub produced_block : Name → List ProducerMetric → List ProducerMetric
produced_block producer [] = []
produced_block producer (pm ∷ pms) =
    let rest = produced_block producer pms in
    if pm.bp_name == producer && ltb 0 pm.missed_blocks_per_cycle
    then record pm { missed_blocks_per_cycle = pm.missed_blocks_per_cycle - 1 } ∷ pms
    else pm ∷ rest

unfoldable pub update_producer_missed_blocks : Name → State → State
unfolding produced_block
update_producer_missed_blocks producer s =
    let m = s.schedule_metrics in
    record s {
      schedule_metrics = record m { producers_metric = produced_block producer m.producers_metric };
    }

unfoldable pub insert_name : Name → List Name → List Name
insert_name n [] = n ∷ []
insert_name n (a ∷ xs) = let rest = insert_name n xs in if leb n a then n ∷ a ∷ xs else a ∷ rest

-- `std::sort` of names.
unfoldable pub sort_names : List Name → List Name
unfolding insert_name
sort_names [] = []
sort_names (n ∷ ns) = insert_name n (sort_names ns)

abbrev pub metric_names : List ProducerMetric → List Name
metric_names [] = []
metric_names (pm ∷ pms) = pm.bp_name ∷ metric_names pms

-- The comparison at the indices of the first list. Its caller has compared the sizes.
abbrev pub begins_with : List Name → List Name → Bool
begins_with [] names = true
begins_with (a ∷ xs) [] = false
begins_with (a ∷ xs) (n ∷ ns) = a == n && begins_with xs ns

unfoldable pub is_new_schedule_activated : List Name → ScheduleMetrics → Bool
unfolding sort_names
is_new_schedule_activated active_schedule m =
    begins_with (sort_names active_schedule) (sort_names (metric_names m.producers_metric))

-- The correction that the first metric of the producer takes.
unfoldable pub correct_metric : Name → ℤ → List ProducerMetric → List ProducerMetric
correct_metric producer correction [] = []
correct_metric producer correction (pm ∷ pms) =
    let rest = correct_metric producer correction pms in
    if pm.bp_name == producer
    then record pm {
      missed_blocks_per_cycle =
          (pm.missed_blocks_per_cycle + 2 ^ 32 - pos_part correction % 2 ^ 32) % 2 ^ 32;
    }
      ∷ pms
    else pm ∷ rest

-- The first metric of the producer counts other than a whole cycle.
unfoldable pub has_missed : Name → List ProducerMetric → Bool
has_missed producer [] = false
has_missed producer (pm ∷ pms) =
    let rest = has_missed producer pms in
    if pm.bp_name == producer then not (pm.missed_blocks_per_cycle == max_block_per_cycle) else rest

abbrev pub set_correction : ℤ → State → State
set_correction n s =
    let m = s.schedule_metrics in
    record s { schedule_metrics = record m { block_counter_correction = n } }

abbrev pub set_caller : Name → State → State
set_caller producer s =
    let m = s.schedule_metrics in
    record s { schedule_metrics = record m { last_onblock_caller = producer } }

-- The schedule is not in force yet.
unfoldable pub count_unactivated : Name → State → State
count_unactivated producer s =
    let m = s.schedule_metrics in
    set_caller producer (
      set_correction
        (if m.last_onblock_caller == producer then m.block_counter_correction +ℤ pos 1 else pos 1)
        s)

-- The positive corrections, of a schedule that has come into force.
unfoldable pub settle_correction : Name → State → State
unfolding correct_metric reset_schedule_metrics
settle_correction producer s =
    let m = s.schedule_metrics in
    if ltb_ℤ (pos 0) m.block_counter_correction
    then set_caller producer (
        if m.last_onblock_caller == Names.eosio
        then record s {
          schedule_metrics = record m {
            producers_metric =
                correct_metric producer m.block_counter_correction m.producers_metric;
          };
        }
        else set_correction (negsuc 2) (reset_schedule_metrics 0 s))
    else s

-- The negative ones: one less of them at each change of producer.
unfoldable pub count_down_correction : Name → State → State
count_down_correction producer s =
    let m = s.schedule_metrics in
    if ltb_ℤ m.block_counter_correction (pos 0)
    then set_caller producer (
        if m.last_onblock_caller == producer
        then s
        else set_correction (m.block_counter_correction +ℤ pos 1) s)
    else s

-- Once the corrections are over: whether the missed blocks of the cycle are to be counted.
unfoldable pub check_cycle : Chain → ℕ → Name → State → Bool × State
unfolding reset_schedule_metrics update_elected_producers has_missed update_producer_missed_blocks
check_cycle c timestamp producer s =
    let m = s.schedule_metrics in
    let inactive : Bool = elim (find producer s.producers) [
      | none ↦ false
      | some p ↦ not p.is_active
    ] in
    if inactive
    then (false, update_elected_producers c timestamp (reset_schedule_metrics 0 s))
    else (if not (m.last_onblock_caller == producer) && has_missed producer m.producers_metric
        then (true, set_caller producer s)
        else (false, set_caller producer (update_producer_missed_blocks producer s)))

unfoldable pub check_missed_blocks : Chain → ℕ → Name → State → Bool × State
unfolding is_new_schedule_activated count_unactivated settle_correction count_down_correction
    check_cycle
check_missed_blocks c timestamp producer s =
    let m = s.schedule_metrics in
    let activated =
      s.gstate.last_producer_schedule_size == length c.active_producers
      && is_new_schedule_activated c.active_producers m in
    if producer == Names.eosio
    then (false, set_caller producer (set_correction (m.block_counter_correction +ℤ pos 1) s))
    else (if not activated
        then (false, count_unactivated producer s)
        else (let s₁ = count_down_correction producer (settle_correction producer s) in
            if ltb_ℤ s₁.schedule_metrics.block_counter_correction (pos 0)
            then (false, s₁)
            else check_cycle c timestamp producer s₁))
