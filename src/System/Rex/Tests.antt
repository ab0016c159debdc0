-- ===== src/System/Rex/Tests.antt =====
-- The theorems on the resource exchange of contracts/eosio.system at concrete inputs.
use telos_arbitration_fix.Prelude.{◌≡◌, refl, false, none, some, [], ◌∷◌, arith}
use telos_arbitration_fix.Prelude.Int.{ℤ, pos, ◌+ℤ◌, ◌-ℤ◌, ◌≤ℤ◌}
use telos_arbitration_fix.Eosio.{ok}
use telos_arbitration_fix.Eosio.Names
use telos_arbitration_fix.Eosio.Example.{example_host-IsDocumented}
use telos_arbitration_fix.System.Tests.{telos, chain, state}
use telos_arbitration_fix.System.Proxies.{new_voter}
use telos_arbitration_fix.System.Limits.{Accounts, pay, is_managed, update_voting_power}
use telos_arbitration_fix.System.Stake.{
  Staking, check_deltas, change_delegated, change_totals, change_refund, settle_refund, changebw,
}
use telos_arbitration_fix.System.Refunds.{custody, transferred}
use telos_arbitration_fix.System.Staked.{changebw-custody}
use telos_arbitration_fix.System.Rex.{Buckets, RexPool, RexBalance, RexState}
use telos_arbitration_fix.System.Rex.Pool.{
  wide, mul_div, try_mul_div, new_pool, buy_from_pool, add_to_rex_pool, channel_to_rex,
}
use telos_arbitration_fix.System.Rex.Funds.{
  transfer_from_fund, transfer_to_fund, settle_order, update_rex_account,
}
use telos_arbitration_fix.System.Rex.Buckets.{
  get_rex_maturity, unsnoc, add_to_bucket, mature, process_rex_maturities, read_rex_savings,
  put_rex_savings, drain, move_rex,
}
use telos_arbitration_fix.System.Rex.Balances.{
  grow_balance, bucket_rex, add_to_rex_balance, update_rex_stake,
}
use telos_arbitration_fix.System.Rex.Orders.{open_orders, run_orders}
use telos_arbitration_fix.System.Rex.Loans.{
  first_expiring, expired, run_loans, take_namebids, runrex,
}
use telos_arbitration_fix.System.Rex.Actions.{deposit, buyrex}
use telos_arbitration_fix.System.Rex.Holders.{move_to_savings}
use telos_arbitration_fix.System.Rex.Surplus.{NonNegative, surplus, IsSound}
use telos_arbitration_fix.System.Rex.Savings.{move_to_savings-held}
use telos_arbitration_fix.System.Rex.Totals.{held}
use telos_arbitration_fix.System.Rex.Drained.{drain_returns}
use telos_arbitration_fix.System.Rex.Price.{buy_from_pool-try_mul_div}
use telos_arbitration_fix.System.Rex.Solvent.{
  deposits, buys, act, IsOrdinary, Run, stay, next, Run-surplus,
}

-- An exchange that has not started.
abbrev exchange : RexState
exchange = record {
  accounts = record { system = state 100 []; userres = []; delband = []; limits = []; sent = [] };
  rexpool = none;
  rexfunds = [];
  rexbalance = [];
  rexorders = [];
  cpu_loans = [];
  net_loans = [];
}

abbrev funded : RexState
funded = record exchange {
  accounts = pay 5 Names.eosio_rex (pos 1000) exchange.accounts;
  rexfunds = (5, pos 1000) ∷ [];
}

abbrev holding : RexBalance
holding = record {
  owner = 5;
  vote_stake = pos 100;
  rex_balance = pos 1000000;
  matured_rex = pos 0;
  rex_maturities = (432000, pos 1000000) ∷ [];
}

abbrev accounts_after : Accounts
accounts_after =
    let a = funded.accounts in
    let s = a.system in
    record a { system = record s { voters = (5, record (new_voter 5) { staked = pos 100 }) ∷ [] } }

abbrev bought : RexState
bought = record funded {
  accounts = accounts_after;
  rexfunds = (5, pos 900) ∷ [];
  rexpool = some (new_pool (pos 100) (pos 0) 0);
  rexbalance = (5, holding) ∷ [];
}

exchange-IsSound : IsSound exchange
unfolding NonNegative
exchange-IsSound = record {
  balanced = tt;
  cpu_covered = tt;
  net_covered = tt;
  orders_due = tt;
  funds_covered = tt;
}

run : Run chain exchange bought
unfolding IsOrdinary act deposit buyrex transfer_to_fund transfer_from_fund add_to_rex_pool ◌+ℤ◌
    ◌-ℤ◌ add_to_rex_balance grow_balance bucket_rex read_rex_savings put_rex_savings
    process_rex_maturities mature add_to_bucket unsnoc get_rex_maturity runrex take_namebids
    channel_to_rex run_loans expired first_expiring run_orders open_orders update_rex_account
    settle_order update_voting_power
run =
    next (deposits 5 (telos 1000)) exchange funded bought refl refl
      (next (buys 5 (telos 100)) funded bought bought tt refl (stay bought))

Run-surplus_example : (surplus bought ≡ surplus exchange) × IsSound bought
Run-surplus_example =
    Run-surplus chain exchange bought example_host-IsDocumented exchange-IsSound run

abbrev buckets : Buckets
buckets = (432000, pos 30) ∷ (518400, pos 40) ∷ []

drain_returns_example : (r : ℤ × Buckets) × (drain 4 (pos 50) buckets ≡ some r)
drain_returns_example = drain_returns (pos 50) buckets

abbrev saver : RexBalance
saver = record holding { rex_balance = pos 75; matured_rex = pos 5; rex_maturities = buckets }

abbrev saved : RexBalance
saved = record saver { rex_maturities = (432000, pos 20) ∷ (4294967295, pos 50) ∷ [] }

move_saver : move_to_savings chain (pos 50) (pos 0) saver ≡ ok saved
unfolding move_to_savings read_rex_savings process_rex_maturities mature move_rex drain
    put_rex_savings add_to_bucket unsnoc ◌+ℤ◌ ◌-ℤ◌
move_saver = refl

move_to_savings-held_example : (held saved ≡ held saver) × (saved.rex_balance ≡ saver.rex_balance)
move_to_savings-held_example = move_to_savings-held chain (pos 50) (pos 0) saver saved move_saver

abbrev pool : ℤ → ℤ → RexPool
pool tokens rex = record (new_pool tokens (pos 0) 0) { total_unlent = tokens; total_rex = rex }

buy_pool :
    buy_from_pool (pos 5) (pool (pos 1000) (pos 7777)) ≡ ok (pos 38, pool (pos 1005) (pos 7815))
unfolding buy_from_pool mul_div wide ◌+ℤ◌ ◌-ℤ◌
buy_pool = refl

sell_pool : try_mul_div (pos 38) (pos 1005) (pos 7815) ≡ ok (pos 4)
unfolding try_mul_div mul_div wide
sell_pool = refl

buy_from_pool-try_mul_div_example : pos 4 ≤ℤ pos 5
buy_from_pool-try_mul_div_example =
    buy_from_pool-try_mul_div 1000 7777 5 (pool (pos 1000) (pos 7777)) (pool (pos 1005) (pos 7815))
      (pos 38) (pos 4) refl refl (omega arith) (omega arith) (omega arith) buy_pool sell_pool

-- A refund that waits, and the state after a greater stake for oneself.
abbrev waiting : Staking
waiting = record {
  rex = exchange;
  refunds =
      (5, record { owner = 5; request_time = 900; net_amount = pos 10; cpu_amount = pos 0 }) ∷ [];
  deferred = (5, 259200) ∷ [];
}

abbrev staked : Staking
staked = record {
  rex = record exchange {
    accounts = record {
      system = record (state 100 []) {
        voters = (5, record (new_voter 5) { staked = pos 50 }) ∷ [];
      };
      userres = (5, record { net_weight = pos 30; cpu_weight = pos 20; ram_bytes = pos 0 }) ∷ [];
      delband = (5, (5, record { net_weight = pos 30; cpu_weight = pos 20 }) ∷ []) ∷ [];
      limits = (5, record { ram_bytes = pos 1400; net = pos 30; cpu = pos 20 }) ∷ [];
      sent = record { from = 5; to = Names.eosio_stake; amount = pos 40 } ∷ [];
    };
  };
  refunds = [];
  deferred = [];
}

stake_more : changebw chain 5 5 (pos 30) (pos 20) false waiting ≡ ok staked
unfolding changebw check_deltas change_delegated change_totals settle_refund change_refund
    is_managed update_rex_stake update_voting_power ◌+ℤ◌ ◌-ℤ◌
stake_more = refl

changebw-custody_example :
    custody 5 staked +ℤ transferred waiting ≡ custody 5 waiting +ℤ transferred staked
changebw-custody_example =
    changebw-custody chain 5 5 (pos 30) (pos 20) false waiting staked refl stake_more
