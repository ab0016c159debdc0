-- ===== src/System/Elected.antt =====
-- `update_elected_producers` of contracts/eosio.system/src/voting.cpp.
use telos_arbitration_fix.Prelude.{
  ℕ, zero, suc, ◌%◌, ◌^◌, ◌&&◌, List, [], ◌∷◌, ltb, leb, if◌then◌else◌, length,
}
use telos_arbitration_fix.System.{ProducerInfo, ProducerKey, ProducerMetric, State, Chain}
use telos_arbitration_fix.System.Floats.{less}
use telos_arbitration_fix.System.Rotation.{max_producers, check_rotation_state}

-- MAX_BLOCK_PER_CYCLE
abbrev pub max_block_per_cycle : ℕ
max_block_per_cycle = 12

-- The loop over the index: it ends at the first producer without votes or not active.
unfoldable pub voted_producers : ℕ → List ProducerInfo → List ProducerKey
voted_producers n [] = []
voted_producers zero ps = []
voted_producers (suc n) (p ∷ ps) =
    let rest = voted_producers n ps in
    if less 0 p.total_votes && p.is_active
    then record { producer_name = p.owner; block_signing_key = p.producer_key } ∷ rest
    else []

-- `std::sort` by the names.
unfoldable pub insert_key : ProducerKey → List ProducerKey → List ProducerKey
insert_key k [] = k ∷ []
insert_key k (a ∷ xs) =
    let rest = insert_key k xs in
    if leb k.producer_name a.producer_name then k ∷ a ∷ xs else a ∷ rest

unfoldable pub sort_keys : List ProducerKey → List ProducerKey
unfolding insert_key
sort_keys [] = []
sort_keys (k ∷ ks) = insert_key k (sort_keys ks)

unfoldable pub new_metrics : List ProducerKey → List ProducerMetric
new_metrics [] = []
new_metrics (k ∷ ks) =
    record { bp_name = k.producer_name; missed_blocks_per_cycle = max_block_per_cycle }
    ∷ new_metrics ks

unfoldable pub update_elected_producers : Chain → ℕ → State → State
unfolding voted_producers sort_keys new_metrics check_rotation_state
update_elected_producers c block_time s =
    let index = c.by_votes s.producers in
    let total = if ltb max_producers (length index) then max_producers else length index in
    let gstate = s.gstate in
    let s₁ = record s { gstate = record gstate { last_producer_schedule_update = block_time } } in
    let (chosen, s₂) = check_rotation_state c (voted_producers total index) block_time s₁ in
    let top = sort_keys chosen in
    if c.set_proposed_producers top
    then (let metrics = s₂.schedule_metrics in
        let g = s₂.gstate in
        record s₂ {
          proposed = top;
          gstate = record g {
            last_proposed_schedule_update = block_time;
            last_producer_schedule_size = length top % 2 ^ 16;
          };
          schedule_metrics = record metrics { producers_metric = new_metrics top };
        })
    else s₂
