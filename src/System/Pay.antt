-- ===== src/System/Pay.antt =====
-- `claimrewards` and `claimrewards_snapshot` of contracts/eosio.system/src/producer_pay.cpp.
use telos_arbitration_fix.Prelude.{
  ℕ, zero, suc, ◌+◌, ◌-◌, ◌*◌, ◌%◌, ◌^◌, true, false, not, ◌&&◌, none, some, List, [], ◌∷◌, ◌++◌,
  ◌==◌, ltb, leb, if◌then◌else◌,
}
use telos_arbitration_fix.Prelude.Int.{ℤ, pos, ◌+ℤ◌, ◌-ℤ◌, ltb_ℤ, leb_ℤ, scale_ℤ, quotient_ℤ}
use telos_arbitration_fix.Eosio.{
  Result, ok, check, or_fail, ◌>>=◌, ◌>>◌, Table, find, insert, modify, erase, Name, Asset,
}
use telos_arbitration_fix.Eosio.Names
use telos_arbitration_fix.Token.Queries.{get_supply, get_balance}
use telos_arbitration_fix.System.{ProducerInfo, PaymentInfo, Sent, State, Chain}

abbrev pub send : Sent → State → State
send a s = record s { sent = s.sent ++ a ∷ [] }

abbrev useconds_per_year : ℤ
useconds_per_year = pos 31449600000000

-- The shares of the inflation, in doubles.
unfoldable pub to_workers : Chain → ℕ → State → ℤ
to_workers c usecs s = c.int64_of (
    c.double_div
      (c.double_mul
        (c.double_mul (c.double_of (pos 12)) (c.double_of (pos s.payrate.worker_amount)))
        (c.double_of (pos usecs)))
      (c.double_of useconds_per_year))

unfoldable pub to_producers : Chain → ℕ → Asset → State → ℤ
to_producers c usecs supply s =
    let bpay_rate =
      c.double_div (c.double_of (pos s.payrate.bpay_rate)) (c.double_of (pos 100000)) in
    c.int64_of (
      c.double_div
        (c.double_mul (c.double_mul bpay_rate (c.double_of supply.amount))
          (c.double_of (pos usecs)))
        (c.double_of useconds_per_year))

-- What of the new tokens the reserve can pay.
unfoldable pub transfer_tokens : ℤ → ℤ → ℤ
transfer_tokens tedp_balance new_tokens =
    if ltb_ℤ (pos 0) tedp_balance
    then (if leb_ℤ new_tokens tedp_balance then new_tokens else tedp_balance)
    else pos 0

-- An action with a quantity, which is sent if it is positive.
unfoldable pub send_positive : Chain → (Asset → Sent) → ℤ → State → Result State
send_positive c act amount s =
    if ltb_ℤ (pos 0) amount
    then (do quantity ← c.host.make_asset amount c.core_symbol; ok (send (act quantity) s))
    else ok s

-- The actions that move the new tokens: out of the reserve, by an issue, to the workers and to the
-- producers.
unfoldable pub send_tokens : Chain → ℤ → ℤ → ℤ → State → Result State
unfolding send_positive
send_tokens c transferred workers producers s = do
  s₁ ←
      send_positive c (λ q. Sent.transfer Names.exrsrv_tf c.host.self q "TEDP: Inflation offset")
        transferred s
  s₂ ←
      send_positive c (λ q. Sent.issue c.host.self q "Issue new TLOS tokens")
        (workers +ℤ producers -ℤ transferred) s₁
  s₃ ←
      send_positive c
        (λ q.
          Sent.transfer c.host.self Names.works_decide q
            "Transfer worker proposal share to works.decide account")
        workers s₂
  send_positive c
      (λ q.
        Sent.transfer c.host.self Names.eosio_bpay q "Transfer producer share to per-block bucket")
      producers s₃

unfoldable pub distribute : Chain → ℕ → Asset → State → Result State
unfolding to_workers to_producers transfer_tokens send_tokens
distribute c usecs token_supply s = do
  let workers = to_workers c usecs s
  let producers = to_producers c usecs token_supply s
  tedp_balance ← get_balance c.ledger Names.exrsrv_tf c.core_symbol.code
  s₁ ←
      send_tokens c (transfer_tokens tedp_balance.amount (workers +ℤ producers)) workers producers s
  let g = s₁.gstate
  ok (record s₁ {
    gstate = record g {
      perblock_bucket = g.perblock_bucket +ℤ producers;
      last_pervote_bucket_fill = c.host.now_us;
    };
  })

unfoldable pub fill_bucket : Chain → State → Result State
unfolding distribute
fill_bucket c s = do
  token_supply ← get_supply c.ledger c.core_symbol.code
  let last = s.gstate.last_pervote_bucket_fill
  if ltb last c.host.now_us && ltb 0 last
      then distribute c (c.host.now_us - last) token_supply s
      else ok s

-- The active producers at the head of the index, as far as the number says.
unfoldable pub count_active : ℕ → List ProducerInfo → ℕ
count_active zero ps = 0
count_active (suc n) [] = 0
count_active (suc n) (p ∷ ps) = let rest = count_active n ps in if p.is_active then rest + 1 else 0

abbrev pub share_count : ℕ → ℕ
share_count active = if leb active 21 then active * 2 else 42 + (active - 21)

-- The top producers have two shares, the standbys one.
abbrev pub shares_of : ℕ → ℕ
shares_of index = if ltb index 21 then 2 else 1

unfoldable pub add_payment : Chain → Name → Asset → Table PaymentInfo → Result (Table PaymentInfo)
add_payment c owner pay t = elim (find owner t) [
  | none ↦ ok (insert owner (record { bp = owner; pay = pay }) t)
  | some row ↦ do
    more ← c.host.asset_add row.pay pay
    ok (modify owner (λ a. record a { pay = more }) t)
]

unfoldable pub pay_producer : Chain → ℤ → ProducerInfo → State → Result State
unfolding add_payment
pay_producer c amount p s = do
  pay ← c.host.make_asset amount c.core_symbol
  payments ← add_payment c p.owner pay s.payments
  let g = s.gstate
  ok (record s {
    gstate = record g {
      perblock_bucket = g.perblock_bucket -ℤ amount;
      total_unpaid_blocks = (g.total_unpaid_blocks + 2 ^ 32 - p.unpaid_blocks % 2 ^ 32) % 2 ^ 32;
    };
    producers =
        modify p.owner (λ a. record a { last_claim_time = c.host.now_us; unpaid_blocks = 0 })
          s.producers;
    payments = payments;
  })

-- The loop over the index, after `paid` producers were paid.
unfoldable pub pay_all : Chain → ℤ → ℕ → List ProducerInfo → State → Result State
unfolding pay_producer
pay_all c share paid [] s = ok s
pay_all c share paid (p ∷ ps) s = elim p.is_active [
  | false ↦ pay_all c share paid ps s
  | true ↦ elim (ltb paid 42) [
    | false ↦ ok s
    | true ↦ do
      s₁ ← pay_producer c (scale_ℤ share (shares_of paid)) p s
      pay_all c share (paid + 1) ps s₁
  ]
]

-- The shares of the bucket. A division by no share stops the action.
unfoldable pub pay_shares : Chain → State → Result State
unfolding count_active pay_all
pay_shares c s = do
  let index = c.by_votes s.producers
  let shares = share_count (count_active 42 index)
  check (not (shares == 0)) "integer divide by zero"
  pay_all c (quotient_ℤ s.gstate.perblock_bucket shares) 0 index s

unfoldable pub claimrewards_snapshot : Chain → State → Result State
unfolding fill_bucket pay_shares
claimrewards_snapshot c s = do
  check (ltb 0 s.gstate.thresh_activated_stake_time) "cannot take snapshot until chain is activated"
  if s.gstate.total_unpaid_blocks == 0 then ok s else (do s₁ ← fill_bucket c s; pay_shares c s₁)

unfoldable pub claimrewards : Chain → Name → State → Result State
claimrewards c owner s = do
  check (c.host.has_auth owner) "missing authority"
  check (ltb 0 s.gstate.thresh_activated_stake_time)
      "cannot claim rewards until the chain is activated (1,000,000 blocks produced)"
  prod ← or_fail (find owner s.producers) "unable to find key"
  check prod.is_active "producer does not have an active key"
  p ← or_fail (find owner s.payments) "No payment exists for account"
  ok (record (send (Sent.transfer Names.eosio_bpay owner p.pay "Producer/Standby Payment") s) {
    payments = erase owner s.payments;
  })
