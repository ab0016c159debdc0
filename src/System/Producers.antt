-- ===== src/System/Producers.antt =====
-- `regproducer`, `unregprod` and `unregreason` of contracts/eosio.system/src/voting.cpp, the
-- operations of `producer_info`, and two actions of contracts/eosio.system/src/eosio.system.cpp.
use telos_arbitration_fix.Prelude.{
  ℕ, ◌+◌, ◌*◌, ◌%◌, ◌^◌, true, false, not, none, some, String, ◌==◌, ltb, if◌then◌else◌, ◌||◌,
}
use telos_arbitration_fix.Eosio.{
  Result, ok, check, or_fail, ◌>>=◌, ◌>>◌, find, insert, modify, Name,
}
use telos_arbitration_fix.System.{ProducerInfo, State, Chain}
use Prim.Native.String.{len}

abbrev pub deactivate : ProducerInfo → ProducerInfo
deactivate p = record p { producer_key = 0; is_active = false }

-- `kick_type`
abbrev pub reached_treshold : ℕ
reached_treshold = 1

abbrev pub bps_voting : ℕ
bps_voting = 2

-- `uint32_t(std::pow(2, times_kicked))`
abbrev pub penalty_hours : Chain → ℕ → ℕ
penalty_hours c times = if ltb times 32 then 2 ^ times else c.uint32_of_large

abbrev pub hour_us : ℕ
hour_us = 3600000000

-- `time_point(hours(int64_t(kick_penalty_hours)))` after the last kick, as a slot.
abbrev pub penalty_expiration : Chain → ProducerInfo → ℕ
penalty_expiration c p =
    c.to_slot (c.to_time_point p.last_time_kicked + p.kick_penalty_hours * hour_us)

unfoldable pub kick : Chain → ℕ → ℕ → ProducerInfo → ProducerInfo
kick c kt penalty p =
    let times = (p.times_kicked + 1) % 2 ^ 32 in
    let hours = if penalty == 0 then penalty_hours c times else p.kick_penalty_hours in
    let reached = kt == reached_treshold in
    let by_vote = kt == bps_voting in
    deactivate (record p {
      times_kicked = times;
      last_time_kicked = c.to_slot c.host.now_us;
      kick_penalty_hours = if by_vote then penalty else hours;
      kick_reason_id = if reached || by_vote then kt else p.kick_reason_id;
      kick_reason =
          if reached
          then "Producer account was deactivated because it reached the maximum missed blocks in this rotation timeframe."
          else (if by_vote then "Producer account was deactivated by vote." else p.kick_reason);
      lifetime_missed_blocks = (p.lifetime_missed_blocks + p.missed_blocks_per_rotation) % 2 ^ 32;
      missed_blocks_per_rotation = 0;
    })

-- A producer that registers again; the message of the check tells the time left.
unfoldable pub register_again : Chain → ℕ → String → ℕ → ProducerInfo → Result ProducerInfo
register_again c producer_key url location info = do
  check (ltb (penalty_expiration c info) (c.to_slot c.host.now_us))
      "Producer is not allowed to register at this time. Please fix your node and try again later"
  ok (record info {
    producer_key = producer_key;
    url = url;
    location = location;
    is_active = true;
    unreg_reason = "";
  })

abbrev pub new_producer : Chain → Name → ℕ → String → ℕ → ProducerInfo
new_producer c producer producer_key url location = record {
  owner = producer;
  total_votes = 0;
  producer_key = producer_key;
  is_active = true;
  unreg_reason = "";
  url = url;
  unpaid_blocks = 0;
  lifetime_produced_blocks = 0;
  missed_blocks_per_rotation = 0;
  lifetime_missed_blocks = 0;
  last_claim_time = c.host.now_us;
  location = location;
  kick_reason_id = 0;
  kick_reason = "";
  times_kicked = 0;
  kick_penalty_hours = 0;
  last_time_kicked = 0;
}

unfoldable pub regproducer : Chain → Name → ℕ → String → ℕ → State → Result State
unfolding register_again
regproducer c producer producer_key url location s = do
  check (ltb (len url) 512) "url too long"
  check (not (producer_key == 0)) "public key should not be the default value"
  check (c.host.has_auth producer) "missing authority"
  elim (find producer s.producers) [
    | some info ↦ do
      again ← register_again c producer_key url location info
      ok (record s { producers = modify producer (λ _. again) s.producers })
    | none ↦ ok (record s {
      producers = insert producer (new_producer c producer producer_key url location) s.producers;
    })
  ]

unfoldable pub unregprod : Chain → Name → State → Result State
unregprod c producer s = do
  check (c.host.has_auth producer) "missing authority"
  _ ← or_fail (find producer s.producers) "producer not found"
  ok (record s { producers = modify producer deactivate s.producers })

unfoldable pub unregreason : Chain → Name → String → State → Result State
unregreason c producer reason s = do
  check (ltb (len reason) 255)
      "The reason is too long. Reason should not have more than 255 characters."
  check (c.host.has_auth producer) "missing authority"
  _ ← or_fail (find producer s.producers) "producer not found"
  ok (record s {
    producers =
        modify producer (λ info. record (deactivate info) { unreg_reason = reason }) s.producers;
  })

-- `votebpout` and `rmvproducer` of contracts/eosio.system/src/eosio.system.cpp.
unfoldable pub votebpout : Chain → Name → ℕ → State → Result State
unfolding kick
votebpout c bp hours s = do
  check (c.host.has_auth c.host.self) "missing authority"
  check (not (hours == 0)) "The penalty should be greater than zero."
  _ ← or_fail (find bp s.producers) "Producer account was not found"
  ok (record s { producers = modify bp (kick c bps_voting hours) s.producers })

unfoldable pub rmvproducer : Chain → Name → State → Result State
rmvproducer c producer s = do
  check (c.host.has_auth c.host.self) "missing authority"
  _ ← or_fail (find producer s.producers) "producer not found"
  ok (record s { producers = modify producer deactivate s.producers })
