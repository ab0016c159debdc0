-- ===== src/System/Rex/Balances.antt =====
-- The balances of REX of contracts/eosio.system/src/rex.cpp: a purchase, and the stake that REX
-- adds to a vote.
use telos_arbitration_fix.Prelude.{Option, none, some, if◌then◌else◌, []}
use telos_arbitration_fix.Prelude.Int.{ℤ, pos, ◌+ℤ◌, ◌-ℤ◌, ltb_ℤ, eqb_ℤ}
use telos_arbitration_fix.Eosio.{Result, ok, or_fail, ◌>>=◌, find, modify, put, Name}
use telos_arbitration_fix.System.{Chain}
use telos_arbitration_fix.System.Rex.{RexPool, RexBalance, RexState}
use telos_arbitration_fix.System.Rex.Pool.{mul_div, try_mul_div}
use telos_arbitration_fix.System.Rex.Buckets.{
  read_rex_savings, process_rex_maturities, get_rex_maturity, add_to_bucket, put_rex_savings,
  add_maturing,
}

-- The tokens that the REX is worth.
abbrev pub worth : RexPool → ℤ → Result ℤ
worth p rex = try_mul_div rex p.total_lendable p.total_rex

abbrev pub store_balance : RexBalance → RexState → RexState
store_balance rb s = record s { rexbalance = put rb.owner rb s.rexbalance }

-- The row as the purchase changes its balance and its stake.
unfoldable pub grow_balance : Name → ℤ → ℤ → RexPool → Option RexBalance → Result RexBalance
unfolding try_mul_div
grow_balance owner payment rex_received p none = ok (record {
  owner = owner;
  vote_stake = payment;
  rex_balance = rex_received;
  matured_rex = pos 0;
  rex_maturities = [];
})
grow_balance owner payment rex_received p (some rb) = do
  stake ← worth p (rb.rex_balance +ℤ rex_received)
  ok (record rb { rex_balance = rb.rex_balance +ℤ rex_received; vote_stake = stake })

-- The REX that is bought goes to the bucket of its maturity, before the savings.
unfoldable pub bucket_rex : Chain → ℤ → RexBalance → RexBalance
unfolding read_rex_savings process_rex_maturities add_to_bucket get_rex_maturity put_rex_savings
bucket_rex c rex_received rb =
    let (rex_in_savings, rb₁) = read_rex_savings rb in
    put_rex_savings rex_in_savings
      (add_maturing c.host.now rex_received (process_rex_maturities c.host.now rb₁))

-- The change of the stake of the vote.
unfoldable pub add_to_rex_balance : Chain → Name → ℤ → ℤ → RexState → Result (ℤ × RexState)
unfolding grow_balance bucket_rex
add_to_rex_balance c owner payment rex_received s = do
  p ← or_fail s.rexpool "rex pool is empty"
  let old = find owner s.rexbalance
  rb ← grow_balance owner payment rex_received p old
  let init_stake = elim old as (λ o. ℤ) [ none ↦ pos 0 | some b ↦ b.vote_stake ]
  ok (
    rb.vote_stake -ℤ init_stake,
    record s { rexbalance = put owner (bucket_rex c rex_received rb) s.rexbalance },
  )

-- The stake of the voter changes only where its REX is worth more or less than before.
unfoldable pub update_rex_stake : Name → RexState → RexState
unfolding mul_div
update_rex_stake voter s = elim (find voter s.rexbalance) [
  | none ↦ s
  | some rb ↦ elim s.rexpool [
    | none ↦ s
    | some p ↦
        let current = mul_div rb.rex_balance p.total_lendable p.total_rex in
        let delta = current -ℤ rb.vote_stake in
        let t = record s {
          rexbalance = modify voter (λ b. record b { vote_stake = current }) s.rexbalance;
        } in
        let a = s.accounts in
        let sys = a.system in
        let staked = record t {
          accounts = record a {
            system = record sys {
              voters = modify voter (λ v. record v { staked = v.staked +ℤ delta }) sys.voters;
            };
          };
        } in
        if ltb_ℤ (pos 0) p.total_rex then (if eqb_ℤ delta (pos 0) then t else staked) else s
  ]
]
