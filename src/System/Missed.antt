-- ===== src/System/Missed.antt =====
-- `update_missed_blocks_per_rotation` of contracts/eosio.system/src/system_rotation.cpp: who is
-- kicked for missed blocks.
use telos_arbitration_fix.Prelude.{
  ℕ, zero, suc, ◌+◌, ◌/◌, ◌%◌, ◌^◌, Bool, ◌&&◌, none, some, List, [], ◌∷◌, ◌==◌, ltb, if◌then◌else◌,
  length,
}
use telos_arbitration_fix.Eosio.{Table, find, modify}
use telos_arbitration_fix.System.{ProducerInfo, ProducerMetric, RotationState, State, Chain}
use telos_arbitration_fix.System.Floats.{less}
use telos_arbitration_fix.System.Producers.{kick, reached_treshold}
use telos_arbitration_fix.System.Kicking.{crossed_missed_blocks_threshold}

abbrev pub add_missed : ℕ → ProducerInfo → ProducerInfo
add_missed n p = record p {
  missed_blocks_per_rotation = (p.missed_blocks_per_rotation + n) % 2 ^ 32;
}

-- One round of the first loop: the blocks missed in the cycle are added to those of the rotation.
unfoldable pub add_cycle : ProducerMetric → Table ProducerInfo → Table ProducerInfo
add_cycle pm t = elim (find pm.bp_name t) [
  | none ↦ t
  | some p ↦
      if p.is_active && ltb 0 pm.missed_blocks_per_cycle
      then modify pm.bp_name (add_missed pm.missed_blocks_per_cycle) t
      else t
]

-- The producer that the round collects, as it is then.
unfoldable pub collect_one :
    ProducerMetric → Table ProducerInfo → List ProducerInfo → List ProducerInfo
collect_one pm t rest = elim (find pm.bp_name t) [
  | none ↦ rest
  | some p ↦ if p.is_active && ltb 0 p.missed_blocks_per_rotation then p ∷ rest else rest
]

unfoldable pub collect :
    List ProducerMetric → Table ProducerInfo → List ProducerInfo × Table ProducerInfo
unfolding add_cycle collect_one
collect [] t = ([], t)
collect (pm ∷ pms) t =
    let counted = add_cycle pm t in
    let (rest, t') = collect pms counted in (collect_one pm counted rest, t')

-- The order of the sort: more missed blocks first, then fewer votes.
abbrev pub goes_before : ProducerInfo → ProducerInfo → Bool
goes_before p q =
    if p.missed_blocks_per_rotation == q.missed_blocks_per_rotation
    then less p.total_votes q.total_votes
    else ltb q.missed_blocks_per_rotation p.missed_blocks_per_rotation

unfoldable pub insert_missing : ProducerInfo → List ProducerInfo → List ProducerInfo
insert_missing p [] = p ∷ []
insert_missing p (q ∷ qs) =
    let rest = insert_missing p qs in if goes_before q p then q ∷ rest else p ∷ q ∷ qs

unfoldable pub sort_missing : List ProducerInfo → List ProducerInfo
unfolding insert_missing
sort_missing [] = []
sort_missing (p ∷ ps) = insert_missing p (sort_missing ps)

-- The missed blocks are added to those of the lifetime, and then the producer is kicked.
abbrev pub kick_missing : Chain → ProducerInfo → ProducerInfo
kick_missing c p = kick c reached_treshold 0 (record p {
  lifetime_missed_blocks = (p.lifetime_missed_blocks + p.missed_blocks_per_rotation) % 2 ^ 32;
})

-- The second loop: it ends at the first who stays, or when nobody may be kicked any more.
unfoldable pub kick_first :
    Chain → RotationState → ℕ → ℕ → List ProducerInfo → Table ProducerInfo → Table ProducerInfo
kick_first c r size zero prods t = t
kick_first c r size (suc n) [] t = t
kick_first c r size (suc n) (p ∷ ps) t = elim (find p.owner t) [
  | none ↦ t
  | some q ↦
      let kicked = modify p.owner (kick_missing c) t in
      let rest = kick_first c r size n ps kicked in
      if crossed_missed_blocks_threshold c r q.missed_blocks_per_rotation size then rest else t
]

-- A seventh of the schedule may be kicked.
abbrev pub max_kick_bps : List ProducerMetric → ℕ
max_kick_bps pms = length pms / 7 % 2 ^ 16

unfoldable pub update_missed_blocks_per_rotation : Chain → State → State
unfolding collect sort_missing kick_first
update_missed_blocks_per_rotation c s =
    let pms = s.schedule_metrics.producers_metric in
    let (prods, counted) = collect pms s.producers in
    record s {
      producers =
          kick_first c s.rotation (length pms % 2 ^ 32) (max_kick_bps pms) (sort_missing prods)
            counted;
    }
