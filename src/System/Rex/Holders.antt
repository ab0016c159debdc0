-- ===== src/System/Rex/Holders.antt =====
-- The actions of contracts/eosio.system/src/rex.cpp of those who hold REX or keep the exchange
-- running, and `voteproducer` of contracts/eosio.system/src/voting.cpp.
use telos_arbitration_fix.Prelude.{
  ℕ, Bool, true, false, not, ◌&&◌, none, some, List, [], ◌∷◌, ◌==◌, if◌then◌else◌,
}
use telos_arbitration_fix.Prelude.Int.{ℤ, pos, ◌+ℤ◌, ◌-ℤ◌, ltb_ℤ, leb_ℤ, eqb_ℤ}
use telos_arbitration_fix.Eosio.{
  Result, ok, check, or_fail, ◌>>=◌, ◌>>◌, Table, find, modify, remove, Name, Asset, sym_eq,
}
use telos_arbitration_fix.Eosio.Names
use telos_arbitration_fix.System.{Chain}
use telos_arbitration_fix.System.Voting.{update_votes}
use telos_arbitration_fix.System.Rex.{RexBalance, RexLoan, RexState}
use telos_arbitration_fix.System.Rex.Pool.{mul_div, set_pool, rex_system_initialized}
use telos_arbitration_fix.System.Rex.Funds.{update_rex_account}
use telos_arbitration_fix.System.Rex.Buckets.{
  process_rex_maturities, read_rex_savings, put_rex_savings, consolidate_rex_balance, move_rex,
  mature_savings,
}
use telos_arbitration_fix.System.Rex.Balances.{update_rex_stake}
use telos_arbitration_fix.System.Rex.Loans.{runrex}
use telos_arbitration_fix.System.Rex.Actions.{authorised, mature_row, rex_row, is_rex}

abbrev pub set_row : Name → RexBalance → RexState → RexState
set_row owner rb s = record s { rexbalance = modify owner (λ _. rb) s.rexbalance }

unfoldable pub updaterex : Chain → Name → RexState → Result RexState
unfolding runrex update_rex_account process_rex_maturities mul_div
updaterex c owner s = do
  authorised c owner
  s₁ ← runrex c 2 s
  rb ← rex_row owner "account has no REX balance" s₁
  p ← or_fail s₁.rexpool "rex system not initialized yet"
  let current =
      if ltb_ℤ (pos 0) p.total_rex
      then mul_div rb.rex_balance p.total_lendable p.total_rex
      else pos 0
  let s₂ = record s₁ {
    rexbalance = modify owner (λ b. record b { vote_stake = current }) s₁.rexbalance;
  }
  (_, s₃) ← update_rex_account c owner (pos 0) (current -ℤ rb.vote_stake) true s₂
  ok (mature_row c owner s₃)

unfoldable pub setrex : Chain → Asset → RexState → Result RexState
setrex c balance s = do
  authorised c Names.eosio
  check (ltb_ℤ (pos 0) balance.amount) "balance must be set to have a positive amount"
  check (sym_eq balance.symbol c.core_symbol) "balance symbol must be core symbol"
  p ← or_fail s.rexpool "rex system is not initialized"
  ok (set_pool (record p { total_rent = balance.amount }) s)

unfoldable pub rexexec : Chain → Name → ℕ → RexState → Result RexState
unfolding runrex
rexexec c user max s = do authorised c user; runrex c max s

unfoldable pub consolidate : Chain → Name → RexState → Result RexState
unfolding runrex update_rex_account consolidate_rex_balance
consolidate c owner s = do
  authorised c owner
  s₁ ← runrex c 2 s
  rb ← rex_row owner "account has no REX balance" s₁
  (rex_in_sell_order, s₂) ← update_rex_account c owner (pos 0) (pos 0) false s₁
  ok (set_row owner (consolidate_rex_balance c.host.now rex_in_sell_order rb) s₂)

-- The row after the move, if there is that much.
unfoldable pub move_to_savings : Chain → ℤ → ℤ → RexBalance → Result RexBalance
unfolding read_rex_savings process_rex_maturities move_rex put_rex_savings
move_to_savings c rex rex_in_sell_order rb = do
  let (rex_in_savings, rb₁) = read_rex_savings rb
  check (leb_ℤ (rex +ℤ rex_in_sell_order +ℤ rex_in_savings) rb₁.rex_balance)
      "insufficient REX balance"
  rb₂ ← move_rex rex rex_in_sell_order (process_rex_maturities c.host.now rb₁)
  ok (put_rex_savings (rex_in_savings +ℤ rex) rb₂)

unfoldable pub mvtosavings : Chain → Name → Asset → RexState → Result RexState
unfolding runrex update_rex_account move_to_savings
mvtosavings c owner rex s = do
  authorised c owner
  s₁ ← runrex c 2 s
  rb ← rex_row owner "account has no REX balance" s₁
  check (is_rex rex) "asset must be a positive amount of (REX, 4)"
  (rex_in_sell_order, s₂) ← update_rex_account c owner (pos 0) (pos 0) false s₁
  rb₁ ← move_to_savings c rex.amount rex_in_sell_order rb
  ok (set_row owner rb₁ s₂)

unfoldable pub move_from_savings : Chain → ℤ → RexBalance → Result RexBalance
unfolding read_rex_savings mature_savings
move_from_savings c rex rb = do
  let (rex_in_savings, rb₁) = read_rex_savings rb
  check (leb_ℤ rex rex_in_savings) "insufficient REX in savings"
  ok (mature_savings c.host.now rex rex_in_savings rb₁)

unfoldable pub mvfrsavings : Chain → Name → Asset → RexState → Result RexState
unfolding runrex update_rex_account move_from_savings
mvfrsavings c owner rex s = do
  authorised c owner
  s₁ ← runrex c 2 s
  rb ← rex_row owner "account has no REX balance" s₁
  check (is_rex rex) "asset must be a positive amount of (REX, 4)"
  rb₁ ← move_from_savings c rex.amount rb
  (_, s₂) ← update_rex_account c owner (pos 0) (pos 0) false (set_row owner rb₁ s₁)
  ok s₂

-- No loan in the table is of this account.
abbrev pub has_no_loan : Name → Table RexLoan → Bool
has_no_loan owner [] = true
has_no_loan owner ((_, l) ∷ t) = not (l.from == owner) && has_no_loan owner t

-- A fund of nothing is erased where no loan can pay into it.
abbrev pub close_fund : Name → RexState → RexState
close_fund owner s = elim (find owner s.rexfunds) [
  | none ↦ s
  | some balance ↦
      if has_no_loan owner s.cpu_loans && has_no_loan owner s.net_loans && eqb_ℤ balance (pos 0)
      then record s { rexfunds = remove owner s.rexfunds }
      else s
]

unfoldable pub closerex : Chain → Name → RexState → Result RexState
unfolding runrex update_rex_account
closerex c owner s = do
  authorised c owner
  s₁ ← if rex_system_initialized s then runrex c 2 s else ok s
  (_, s₂) ← update_rex_account c owner (pos 0) (pos 0) false s₁
  let s₃ = close_fund owner s₂
  elim (find owner s₃.rexbalance) [
    | none ↦ ok s₃
    | some rb ↦ do
      check (eqb_ℤ rb.rex_balance (pos 0)) "account has remaining REX balance, must sell first"
      ok (record s₃ { rexbalance = remove owner s₃.rexbalance })
  ]

-- The stake of REX is brought up to date before the vote counts.
unfoldable pub voteproducer : Chain → Name → Name → List Name → RexState → Result RexState
unfolding update_rex_stake update_votes
voteproducer c voter_name proxy producers s = do
  authorised c voter_name
  let s₁ = update_rex_stake voter_name s
  system ← update_votes c c.call_depth voter_name proxy producers true s₁.accounts.system
  let a = s₁.accounts
  ok (record s₁ { accounts = record a { system = system } })
