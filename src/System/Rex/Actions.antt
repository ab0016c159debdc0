-- ===== src/System/Rex/Actions.antt =====
-- The actions of contracts/eosio.system/src/rex.cpp that trade, rent and move tokens. Actions that
-- only show a result are left out: they do nothing.
use telos_arbitration_fix.Prelude.{
  ℕ, Bool, true, false, not, ◌&&◌, ◌||◌, none, some, ◌==◌, String, if◌then◌else◌,
}
use telos_arbitration_fix.Prelude.Int.{ℤ, pos, ◌+ℤ◌, ◌-ℤ◌, ltb_ℤ, leb_ℤ, eqb_ℤ}
use telos_arbitration_fix.Eosio.{
  Result, ok, check, or_fail, ◌>>=◌, ◌>>◌, find, insert, modify, remove, scope, put, Name, Asset,
  sym_eq,
}
use telos_arbitration_fix.Eosio.Names
use telos_arbitration_fix.System.{Chain}
use telos_arbitration_fix.System.Limits.{Accounts, DelegatedBandwidth, pay, update_resource_limits}
use telos_arbitration_fix.System.Rex.{RexBalance, RexState, rex_symbol}
use telos_arbitration_fix.System.Rex.Pool.{add_to_rex_pool}
use telos_arbitration_fix.System.Rex.Funds.{
  transfer_from_fund, transfer_to_fund, update_rex_account,
}
use telos_arbitration_fix.System.Rex.Buckets.{process_rex_maturities}
use telos_arbitration_fix.System.Rex.Balances.{add_to_rex_balance}
use telos_arbitration_fix.System.Rex.Orders.{fill_rex_order}
use telos_arbitration_fix.System.Rex.Loans.{
  Resource, change_limit, runrex, rent_rex, fund_rex_loan, defund_rex_loan,
}

abbrev pub authorised : Chain → Name → Result (Unit {0})
authorised c owner = check (c.host.has_auth owner) "missing authority"

unfoldable pub deposit : Chain → Name → Asset → RexState → Result RexState
unfolding transfer_to_fund
deposit c owner amount s = do
  authorised c owner
  check (sym_eq amount.symbol c.core_symbol) "must deposit core token"
  check (ltb_ℤ (pos 0) amount.amount) "must deposit a positive amount"
  transfer_to_fund owner amount.amount
      (record s { accounts = pay owner Names.eosio_rex amount.amount s.accounts })

unfoldable pub withdraw : Chain → Name → Asset → RexState → Result RexState
unfolding update_rex_account transfer_from_fund
withdraw c owner amount s = do
  authorised c owner
  check (sym_eq amount.symbol c.core_symbol) "must withdraw core token"
  check (ltb_ℤ (pos 0) amount.amount) "must withdraw a positive amount"
  (_, s₁) ← update_rex_account c owner (pos 0) (pos 0) false s
  s₂ ← transfer_from_fund owner amount.amount s₁
  ok (record s₂ { accounts = pay Names.eosio_rex owner amount.amount s₂.accounts })

unfoldable pub buyrex : Chain → Name → Asset → RexState → Result RexState
unfolding transfer_from_fund add_to_rex_pool add_to_rex_balance runrex update_rex_account
buyrex c from amount s = do
  authorised c from
  check (sym_eq amount.symbol c.core_symbol) "asset must be core token"
  check (ltb_ℤ (pos 0) amount.amount) "must use positive amount"
  s₁ ← transfer_from_fund from amount.amount s
  (rex_received, s₂) ← add_to_rex_pool amount.amount s₁
  (delta_rex_stake, s₃) ← add_to_rex_balance c from amount.amount rex_received s₂
  s₄ ← runrex c 2 s₃
  (_, s₅) ← update_rex_account c from (pos 0) delta_rex_stake false s₄
  ok s₅

-- What `owner` delegates to `receiver` falls; a row of nothing is erased.
unfoldable pub take_bandwidth : Name → Name → ℤ → ℤ → Accounts → Result Accounts
take_bandwidth owner receiver from_net from_cpu a = do
  d ← or_fail (find receiver (scope owner a.delband)) "delegated bandwidth record does not exist"
  check (leb_ℤ from_net d.net_weight) "amount exceeds tokens staked for net"
  check (leb_ℤ from_cpu d.cpu_weight) "amount exceeds tokens staked for cpu"
  let left : DelegatedBandwidth = record {
    net_weight = d.net_weight -ℤ from_net;
    cpu_weight = d.cpu_weight -ℤ from_cpu;
  }
  let t = scope owner a.delband
  let changed =
      if eqb_ℤ left.net_weight (pos 0) && eqb_ℤ left.cpu_weight (pos 0)
      then remove receiver t
      else modify receiver (λ _. left) t
  ok (record a { delband = put owner changed a.delband })

unfoldable pub unstaketorex : Chain → Name → Name → Asset → Asset → RexState → Result RexState
unfolding take_bandwidth update_resource_limits add_to_rex_pool add_to_rex_balance runrex
    update_rex_account
unstaketorex c owner receiver from_net from_cpu s = do
  authorised c owner
  check (sym_eq from_net.symbol c.core_symbol && sym_eq from_cpu.symbol c.core_symbol)
      "asset must be core token"
  check
      (leb_ℤ (pos 0) from_net.amount
        && leb_ℤ (pos 0) from_cpu.amount
        && (ltb_ℤ (pos 0) from_net.amount || ltb_ℤ (pos 0) from_cpu.amount))
      "must unstake a positive amount to buy rex"
  a₁ ← take_bandwidth owner receiver from_net.amount from_cpu.amount s.accounts
  a₂ ← update_resource_limits receiver (pos 0 -ℤ from_net.amount) (pos 0 -ℤ from_cpu.amount) a₁
  payment ← c.host.asset_add from_net from_cpu
  (rex_received, s₁) ←
      add_to_rex_pool payment.amount
        (record s { accounts = pay Names.eosio_stake Names.eosio_rex payment.amount a₂ })
  (_, s₂) ← add_to_rex_balance c owner payment.amount rex_received s₁
  s₃ ← runrex c 2 s₂
  (_, s₄) ← update_rex_account c owner (pos 0) (pos 0) true s₃
  ok s₄

-- An order that is not filled at once joins the open one of its owner.
unfoldable pub queue_order : Chain → Name → ℤ → RexState → ℤ × RexState
queue_order c from rex s = elim (find from s.rexorders) [
  | none ↦ (
    rex,
    record s {
      rexorders =
          insert from
            (record {
              owner = from;
              rex_requested = rex;
              proceeds = pos 0;
              stake_change = pos 0;
              order_time = c.host.now_us;
              is_open = true;
            })
            s.rexorders;
    },
  )
  | some o ↦ (
    o.rex_requested +ℤ rex,
    record s {
      rexorders =
          modify from (λ o. record o { rex_requested = o.rex_requested +ℤ rex }) s.rexorders;
    },
  )
]

abbrev pub mature_row : Chain → Name → RexState → RexState
unfolding process_rex_maturities
mature_row c owner s = record s {
  rexbalance = modify owner (process_rex_maturities c.host.now) s.rexbalance;
}

abbrev pub rex_row : Name → String → RexState → Result RexBalance
rex_row owner message s = or_fail (find owner s.rexbalance) message

abbrev pub is_rex : Asset → Bool
is_rex rex = ltb_ℤ (pos 0) rex.amount && sym_eq rex.symbol rex_symbol

-- The end of `sellrex`.
unfoldable pub finish_sale : Chain → Name → ℤ → Bool → ℤ → RexState → Result RexState
unfolding queue_order
finish_sale c from rex success pending s = do
  check (success || not (from == Names.b1)) "b1 sellrex orders should not be queued"
  let (scheduled, s₁) = if success then (pending, s) else queue_order c from rex s
  rb ← rex_row from "user must first buyrex" s₁
  check (leb_ℤ scheduled rb.matured_rex) "insufficient funds for current and scheduled orders"
  ok s₁

unfoldable pub sellrex : Chain → Name → Asset → RexState → Result RexState
unfolding runrex process_rex_maturities fill_rex_order update_rex_account finish_sale
sellrex c from rex s = do
  authorised c from
  s₁ ← runrex c 2 s
  _ ← rex_row from "user must first buyrex" s₁
  check (is_rex rex) "asset must be a positive amount of (REX, 4)"
  let s₂ = mature_row c from s₁
  rb ← rex_row from "user must first buyrex" s₂
  check (leb_ℤ rex.amount rb.matured_rex) "insufficient available rex"
  (order, s₃) ← fill_rex_order from rb rex.amount s₂
  check (not (order.success && eqb_ℤ order.proceeds (pos 0))) "proceeds are negligible"
  (pending, s₄) ← update_rex_account c from order.proceeds order.stake_change false s₃
  finish_sale c from rex.amount order.success pending s₄

unfoldable pub cnclrexorder : Chain → Name → RexState → Result RexState
cnclrexorder c owner s = do
  authorised c owner
  o ← or_fail (find owner s.rexorders) "no sellrex order is scheduled"
  check o.is_open "sellrex order has been filled and cannot be canceled"
  ok (record s { rexorders = remove owner s.rexorders })

-- `rentcpu` and `rentnet`
unfoldable pub rent : Chain → Resource → Name → Name → Asset → Asset → RexState → Result RexState
unfolding rent_rex update_resource_limits
rent c r from receiver loan_payment loan_fund s = do
  authorised c from
  (rented_tokens, s₁) ← rent_rex c r from receiver loan_payment loan_fund s
  change_limit r receiver rented_tokens s₁

-- `fundcpuloan` and `fundnetloan`
unfoldable pub fund_loan : Chain → Resource → Name → ℕ → Asset → RexState → Result RexState
unfolding fund_rex_loan
fund_loan c r from loan_num payment s = do
  authorised c from
  fund_rex_loan c r from loan_num payment s

-- `defcpuloan` and `defnetloan`
unfoldable pub def_loan : Chain → Resource → Name → ℕ → Asset → RexState → Result RexState
unfolding defund_rex_loan
def_loan c r from loan_num amount s = do
  authorised c from
  defund_rex_loan c r from loan_num amount s
