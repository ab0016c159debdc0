-- ===== src/System/Rex/Loans.antt =====
-- Loans of CPU and NET of contracts/eosio.system/src/rex.cpp, which the code writes once, over the
-- table, and `runrex`, which closes or renews those that have expired.
use telos_arbitration_fix.Prelude.{
  ℕ, zero, suc, ◌+◌, Bool, true, false, ◌&&◌, Option, none, some, [], ◌∷◌, ◌==◌, ltb, leb,
  if◌then◌else◌,
}
use telos_arbitration_fix.Prelude.Int.{ℤ, pos, ◌+ℤ◌, ◌-ℤ◌, ltb_ℤ, leb_ℤ, eqb_ℤ}
use telos_arbitration_fix.Eosio.{
  Result, ok, check, or_fail, ◌>>=◌, ◌>>◌, Table, find, modify, remove, emplace, Name, Asset,
  sym_eq,
}
use telos_arbitration_fix.Eosio.Names
use telos_arbitration_fix.System.{Chain}
use telos_arbitration_fix.System.Limits.{update_resource_limits}
use telos_arbitration_fix.System.Rex.{RexLoan, RexState}
use telos_arbitration_fix.System.Rex.Pool.{
  get_bancor_output, rex_available, set_pool, add_loan_to_rex_pool, remove_loan_from_rex_pool,
  channel_to_rex,
}
use telos_arbitration_fix.System.Rex.Funds.{transfer_from_fund, transfer_to_fund, fund_positive}
use telos_arbitration_fix.System.Rex.Orders.{open_orders, run_orders}

-- The table that the code is written over.
pub data Resource : Type 0 where
  cpu : Resource
  net : Resource

abbrev pub loans : Resource → RexState → Table RexLoan
loans cpu s = s.cpu_loans
loans net s = s.net_loans

abbrev pub set_loans : Resource → Table RexLoan → RexState → RexState
set_loans cpu t s = record s { cpu_loans = t }
set_loans net t s = record s { net_loans = t }

-- The change of the receiver's limit of the resource.
abbrev pub change_limit : Resource → Name → ℤ → RexState → Result RexState
change_limit cpu receiver delta s = do
  a ← update_resource_limits receiver (pos 0) delta s.accounts
  ok (record s { accounts = a })
change_limit net receiver delta s = do
  a ← update_resource_limits receiver delta (pos 0) s.accounts
  ok (record s { accounts = a })

-- In the index by time the open orders come first.
unfoldable pub rex_loans_available : RexState → Bool
unfolding open_orders
rex_loans_available s =
    rex_available s && (elim (open_orders s.rexorders) [ [] ↦ true | _ ∷ _ ↦ false ])

-- `eosio::days(30)`, in microseconds.
abbrev pub thirty_days : ℕ
thirty_days = 2592000000000

-- The fields of `update_renewed_loan`.
abbrev pub renewed : ℤ → RexLoan → RexLoan
renewed rented_tokens loan = record loan {
  total_staked = rented_tokens;
  expiration = loan.expiration + thirty_days;
  balance = loan.balance -ℤ loan.payment;
}

unfoldable pub update_renewed_loan : Resource → ℕ → ℤ → RexState → RexState
update_renewed_loan r k rented_tokens s =
    set_loans r (modify k (renewed rented_tokens) (loans r s)) s

-- The number and the time of the first loan to expire, and of the lower number among several.
unfoldable pub first_expiring : Table RexLoan → Option (ℕ × ℕ)
first_expiring [] = none
first_expiring ((k, l) ∷ t) = elim (first_expiring t) [
  | none ↦ some (k, l.expiration)
  | some (j, time) ↦ if leb l.expiration time then some (k, l.expiration) else some (j, time)
]

-- The number, if the loan has expired.
unfoldable pub expired : ℕ → Table RexLoan → Option ℕ
unfolding first_expiring
expired now t = elim (first_expiring t) [
  | none ↦ none
  | some (k, time) ↦ if ltb now time then none else some k
]

-- Whether the loan goes, and the change of what is staked for its receiver.
unfoldable pub process_expired_loan :
    Chain → Resource → ℕ → RexLoan → RexState → Result (Bool × ℤ × RexState)
unfolding remove_loan_from_rex_pool get_bancor_output rex_loans_available add_loan_to_rex_pool
    update_renewed_loan
process_expired_loan c r k loan s = do
  p ← or_fail s.rexpool "rex system not initialized yet"
  let q = remove_loan_from_rex_pool c loan p
  let s₁ = set_pool q s
  let rented_tokens = get_bancor_output c q.total_rent q.total_unlent loan.payment
  let renew_loan =
      leb_ℤ loan.payment loan.balance && ltb_ℤ loan.payment rented_tokens && rex_loans_available s₁
  if renew_loan
      then ok (
        false,
        rented_tokens -ℤ loan.total_staked,
        update_renewed_loan r k rented_tokens
            (set_pool (add_loan_to_rex_pool loan.payment rented_tokens false q) s₁),
      )
      else (do
        s₂ ← fund_positive loan.from loan.balance s₁
        ok (true, pos 0 -ℤ loan.total_staked, s₂))

-- One turn of the loop over the loans.
unfoldable pub run_loan : Chain → Resource → ℕ → RexLoan → RexState → Result RexState
unfolding process_expired_loan
run_loan c r k loan s = do
  (delete_loan, delta_stake, s₁) ← process_expired_loan c r k loan s
  s₂ ← if eqb_ℤ delta_stake (pos 0) then ok s₁ else change_limit r loan.receiver delta_stake s₁
  ok (if delete_loan then set_loans r (remove k (loans r s₂)) s₂ else s₂)

unfoldable pub run_loans : Chain → Resource → ℕ → RexState → Result RexState
unfolding expired run_loan
run_loans c r zero s = ok s
run_loans c r (suc max) s = elim (expired c.host.now_us (loans r s)) [
  | none ↦ ok s
  | some k ↦ do
    loan ← or_fail (find k (loans r s)) "unable to find key"
    s₁ ← run_loan c r k loan s
    run_loans c r max s₁
]

-- The proceeds of the auction of names.
unfoldable pub take_namebids : RexState → Result RexState
unfolding channel_to_rex
take_namebids s = do
  p ← or_fail s.rexpool "rex system not initialized yet"
  let s₁ = channel_to_rex Names.eosio_names p.namebid_proceeds s
  q ← or_fail s₁.rexpool "rex system not initialized yet"
  if ltb_ℤ (pos 0) p.namebid_proceeds
      then ok (set_pool (record q { namebid_proceeds = pos 0 }) s₁)
      else ok s

-- `max` is a uint16_t.
unfoldable pub runrex : Chain → ℕ → RexState → Result RexState
unfolding take_namebids run_loans run_orders open_orders
runrex c max s = do
  s₁ ← take_namebids s
  s₂ ← run_loans c cpu max s₁
  s₃ ← run_loans c net max s₂
  run_orders max (open_orders s₃.rexorders) s₃

abbrev pub new_loan : Name → Name → ℤ → ℤ → ℤ → ℕ → RexLoan
new_loan from receiver payment fund rented_tokens expiration = record {
  from = from;
  receiver = receiver;
  payment = payment;
  balance = fund;
  total_staked = rented_tokens;
  expiration = expiration;
}

-- What follows the checks of a loan.
unfoldable pub lend : Chain → Resource → Name → Name → ℤ → ℤ → RexState → Result (ℤ × RexState)
unfolding get_bancor_output add_loan_to_rex_pool
lend c r from receiver payment fund s = do
  p ← or_fail s.rexpool "rex loans are currently not available"
  let rented_tokens = get_bancor_output c p.total_rent p.total_unlent payment
  check (ltb_ℤ payment rented_tokens) "loan price does not favor renting"
  let q = add_loan_to_rex_pool payment rented_tokens true p
  let row = new_loan from receiver payment fund rented_tokens (c.host.now_us + thirty_days)
  t ← emplace q.loan_num row (loans r s)
  ok (rented_tokens, set_loans r t (set_pool q s))

unfoldable pub rent_rex :
    Chain → Resource → Name → Name → Asset → Asset → RexState → Result (ℤ × RexState)
unfolding runrex rex_loans_available transfer_from_fund lend
rent_rex c r from receiver payment fund s = do
  s₁ ← runrex c 2 s
  check (rex_loans_available s₁) "rex loans are currently not available"
  check (sym_eq payment.symbol c.core_symbol && sym_eq fund.symbol c.core_symbol)
      "must use core token"
  check (ltb_ℤ (pos 0) payment.amount && leb_ℤ (pos 0) fund.amount) "must use positive asset amount"
  total ← c.host.asset_add payment fund
  s₂ ← transfer_from_fund from total.amount s₁
  lend c r from receiver payment.amount fund.amount s₂

-- The loan of that number, which `from` has and which has not expired.
unfoldable pub running_loan : Chain → Resource → Name → ℕ → RexState → Result RexLoan
running_loan c r from loan_num s = do
  loan ← or_fail (find loan_num (loans r s)) "loan not found"
  check (loan.from == from) "user must be loan creator"
  check (ltb c.host.now_us loan.expiration) "loan has already expired"
  ok loan

abbrev pub change_balance : ℤ → RexLoan → RexLoan
change_balance delta loan = record loan { balance = loan.balance +ℤ delta }

unfoldable pub fund_rex_loan : Chain → Resource → Name → ℕ → Asset → RexState → Result RexState
unfolding transfer_from_fund running_loan
fund_rex_loan c r from loan_num payment s = do
  check (sym_eq payment.symbol c.core_symbol) "must use core token"
  s₁ ← transfer_from_fund from payment.amount s
  _ ← running_loan c r from loan_num s₁
  ok (set_loans r (modify loan_num (change_balance payment.amount) (loans r s₁)) s₁)

unfoldable pub defund_rex_loan : Chain → Resource → Name → ℕ → Asset → RexState → Result RexState
unfolding transfer_to_fund running_loan
defund_rex_loan c r from loan_num amount s = do
  check (sym_eq amount.symbol c.core_symbol) "must use core token"
  loan ← running_loan c r from loan_num s
  check (leb_ℤ amount.amount loan.balance) "insufficent loan balance"
  transfer_to_fund from amount.amount
      (set_loans r (modify loan_num (change_balance (pos 0 -ℤ amount.amount)) (loans r s)) s)
