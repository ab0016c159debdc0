-- ===== src/System/Kicked.antt =====
-- How many producers one count of missed blocks can kick, and when one who was kicked may register.
use telos_arbitration_fix.Prelude.{
  ℕ, zero, suc, ◌+◌, ◌/◌, ◌%◌, ◌^◌, ◌≤◌, ◌≡◌, refl, ◌∙◌, inl, inr, List, [], ◌∷◌, if◌then◌else◌,
  length, arith, Bool-cases, Option-cases,
}
use telos_arbitration_fix.Eosio.{Table, find, modify}
use telos_arbitration_fix.System.{ProducerInfo, ProducerMetric, RotationState, State, Chain}
use telos_arbitration_fix.System.Missed.{
  add_missed, add_cycle, collect, kick_missing, kick_first, max_kick_bps, sort_missing,
  update_missed_blocks_per_rotation,
}
use telos_arbitration_fix.System.Kicking.{crossed_missed_blocks_threshold}

-- The active producers of a table.
abbrev pub active_count : Table ProducerInfo → ℕ
active_count [] = 0
active_count ((_, p) ∷ t) = if p.is_active then active_count t + 1 else active_count t

active_count-modify_same :
    (k : ℕ) (f : ProducerInfo → ProducerInfo) (t : Table ProducerInfo)
    → ((p : ProducerInfo) → (f p).is_active ≡ p.is_active)
    → active_count (modify k f t) ≡ active_count t
active_count-modify_same k f [] h = refl
active_count-modify_same k f ((j, p) ∷ t) h = ground (arith, h p, active_count-modify_same k f t h)

active_count-modify_le :
    (k : ℕ) (f : ProducerInfo → ProducerInfo) (t : Table ProducerInfo)
    → active_count t ≤ active_count (modify k f t) + 1
active_count-modify_le k f [] = omega arith
active_count-modify_le k f ((j, p) ∷ t) = ground (arith, active_count-modify_le k f t)

add_cycle-active_count :
    (pm : ProducerMetric) (t : Table ProducerInfo) → active_count (add_cycle pm t) ≡ active_count t
unfolding add_cycle
add_cycle-active_count pm t =
    let same =
      active_count-modify_same pm.bp_name (add_missed pm.missed_blocks_per_cycle) t (λ p. refl) in
    elim (Option-cases (find pm.bp_name t)) [
      | inl e ↦ ground (arith, e)
      | inr (p, e) ↦ ground (arith, e, same)
    ]

collect-active_count :
    (pms : List ProducerMetric) (t : Table ProducerInfo)
    → active_count (collect pms t).1 ≡ active_count t
unfolding collect
collect-active_count [] t = refl
collect-active_count (pm ∷ pms) t =
    collect-active_count pms (add_cycle pm t) ∙ add_cycle-active_count pm t

kick_first-active_count :
    (c : Chain) (r : RotationState) (size n : ℕ) (ps : List ProducerInfo) (t : Table ProducerInfo)
    → active_count t ≤ active_count (kick_first c r size n ps t) + n
unfolding kick_first
kick_first-active_count c r size zero ps t = omega arith
kick_first-active_count c r size (suc n) [] t = omega arith
kick_first-active_count c r size (suc n) (p ∷ ps) t =
    let t' = modify p.owner (kick_missing c) t in
    let one = active_count-modify_le p.owner (kick_missing c) t in
    let rest = kick_first-active_count c r size n ps t' in
    elim (Option-cases (find p.owner t)) [
      | inl e ↦ ground (arith, e)
      | inr (q, e) ↦
          elim (Bool-cases
            (crossed_missed_blocks_threshold c r q.missed_blocks_per_rotation size)) [
              | inl crossed ↦ ground (arith, e, crossed, one, rest)
              | inr not_crossed ↦ ground (arith, e, not_crossed)
            ]
    ]

-- One count of the missed blocks of a rotation deactivates at most a seventh of the producers of the
-- schedule, whatever they missed.
pub update_missed_blocks_per_rotation-active_count :
    (c : Chain) (s : State)
    → active_count s.producers
      ≤ active_count (update_missed_blocks_per_rotation c s).producers
        + length s.schedule_metrics.producers_metric / 7
unfolding update_missed_blocks_per_rotation
update_missed_blocks_per_rotation-active_count c s =
    let pms = s.schedule_metrics.producers_metric in
    let same = collect-active_count pms s.producers in
    let (prods, t) = collect pms s.producers in
    let kicked =
      kick_first-active_count c s.rotation (length pms % 2 ^ 32) (max_kick_bps pms)
        (sort_missing prods) t in
    omega (arith, same, kicked)
