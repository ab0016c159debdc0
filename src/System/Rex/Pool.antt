-- ===== src/System/Rex/Pool.antt =====
-- The pool of contracts/eosio.system/src/rex.cpp, and the price of a loan of
-- contracts/eosio.system/src/exchange_state.cpp.
use telos_arbitration_fix.Prelude.{
  ℕ, ◌+◌, ◌-◌, ◌*◌, ◌/◌, ◌%◌, ◌^◌, Bool, true, false, not, none, some, if◌then◌else◌,
}
use telos_arbitration_fix.Prelude.Int.{ℤ, pos, negsuc, ◌+ℤ◌, ◌-ℤ◌, ltb_ℤ, leb_ℤ, eqb_ℤ, scale_ℤ}
use telos_arbitration_fix.Eosio.{Result, ok, check, ◌>>=◌, ◌>>◌, Name}
use telos_arbitration_fix.Eosio.Names
use telos_arbitration_fix.System.{Chain}
use telos_arbitration_fix.System.Limits.{pay}
use telos_arbitration_fix.System.Rex.{RexPool, RexLoan, RexState}

-- The conversion to uint128_t.
unfoldable pub wide : ℤ → ℕ
wide (pos n) = n % 2 ^ 128
wide (negsuc n) = 2 ^ 128 - 1 - n % 2 ^ 128

-- `(uint128_t(a) * b) / c`, where c is not 0.
unfoldable pub mul_div : ℤ → ℤ → ℤ → ℤ
unfolding wide
mul_div a b c = pos (wide a * wide b % 2 ^ 128 / wide c)

-- The same where c may be 0, which ends the action.
unfoldable pub try_mul_div : ℤ → ℤ → ℤ → Result ℤ
unfolding mul_div
try_mul_div a b c = do check (not (eqb_ℤ c (pos 0))) "divide by zero"; ok (mul_div a b c)

unfoldable pub get_bancor_output : Chain → ℤ → ℤ → ℤ → ℤ
get_bancor_output c inp_reserve out_reserve inp =
    let ib = c.double_of inp_reserve in
    let ob = c.double_of out_reserve in
    let in_ = c.double_of inp in
    let out = c.int64_of (c.double_div (c.double_mul in_ ob) (c.double_add ib in_)) in
    if ltb_ℤ out (pos 0) then pos 0 else out

abbrev pub rex_system_initialized : RexState → Bool
rex_system_initialized s = elim s.rexpool [ none ↦ false | some _ ↦ true ]

abbrev pub rex_available : RexState → Bool
rex_available s = elim s.rexpool [ none ↦ false | some p ↦ ltb_ℤ (pos 0) p.total_rex ]

abbrev pub set_pool : RexPool → RexState → RexState
set_pool p s = record s { rexpool = some p }

unfoldable pub add_loan_to_rex_pool : ℤ → ℤ → Bool → RexPool → RexPool
add_loan_to_rex_pool payment rented_tokens new_loan p =
    let unlent = p.total_unlent -ℤ rented_tokens +ℤ payment in
    let lent = p.total_lent +ℤ rented_tokens in
    record p {
      total_rent = p.total_rent +ℤ payment;
      total_unlent = unlent;
      total_lent = lent;
      total_lendable = unlent +ℤ lent;
      loan_num = if new_loan then (p.loan_num + 1) % 2 ^ 64 else p.loan_num;
    }

unfoldable pub remove_loan_from_rex_pool : Chain → RexLoan → RexPool → RexPool
unfolding get_bancor_output
remove_loan_from_rex_pool c loan p =
    let unlent = p.total_unlent +ℤ loan.total_staked in
    let lent = p.total_lent -ℤ loan.total_staked in
    record p {
      total_rent =
          p.total_rent -ℤ get_bancor_output c p.total_unlent p.total_rent loan.total_staked;
      total_unlent = unlent;
      total_lent = lent;
      total_lendable = unlent +ℤ lent;
    }

-- The bounds of an empty pool, and what a payment makes of one.
abbrev rex_ratio : ℕ
rex_ratio = 10000

abbrev init_total_rent : ℤ
init_total_rent = pos 200000000

abbrev pub new_pool : ℤ → ℤ → ℕ → RexPool
new_pool payment namebid_proceeds loan_num = record {
  total_lent = pos 0;
  total_unlent = payment -ℤ pos 0;
  total_rent = init_total_rent;
  total_lendable = payment;
  total_rex = scale_ℤ payment rex_ratio;
  namebid_proceeds = namebid_proceeds;
  loan_num = loan_num;
}

-- A purchase from a pool that has both REX and tokens.
unfoldable pub buy_from_pool : ℤ → RexPool → Result (ℤ × RexPool)
unfolding mul_div
buy_from_pool payment p = do
  check (ltb_ℤ (pos 0) p.total_lendable) "lendable REX pool is empty"
  let s1 = p.total_lendable +ℤ payment
  let r1 = mul_div s1 p.total_rex p.total_lendable
  let unlent = s1 -ℤ p.total_lent
  check (leb_ℤ (pos 0) unlent) "programmer error, this should never go negative"
  ok (r1 -ℤ p.total_rex, record p { total_lendable = s1; total_rex = r1; total_unlent = unlent })

-- The REX that the payment buys.
unfoldable pub add_to_rex_pool : ℤ → RexState → Result (ℤ × RexState)
unfolding buy_from_pool
add_to_rex_pool payment s = elim s.rexpool [
  | none ↦ ok (scale_ℤ payment rex_ratio, set_pool (new_pool payment (pos 0) 0) s)
  | some p ↦
      if not (ltb_ℤ (pos 0) p.total_rex)
      then ok
          (scale_ℤ payment rex_ratio, set_pool (new_pool payment p.namebid_proceeds p.loan_num) s)
      else (do (rex, q) ← buy_from_pool payment p; ok (rex, set_pool q s))
]

unfoldable pub channel_to_rex : Name → ℤ → RexState → RexState
channel_to_rex from amount s = elim s.rexpool [
  | none ↦ s
  | some p ↦
      if ltb_ℤ (pos 0) p.total_rex
      then record s {
        rexpool = some (record p {
          total_unlent = p.total_unlent +ℤ amount;
          total_lendable = p.total_lendable +ℤ amount;
        });
        accounts = pay from Names.eosio_rex amount s.accounts;
      }
      else s
]

unfoldable pub channel_namebid_to_rex : ℤ → RexState → RexState
channel_namebid_to_rex highest_bid s = elim s.rexpool [
  | none ↦ s
  | some p ↦
      if ltb_ℤ (pos 0) p.total_rex
      then set_pool (record p { namebid_proceeds = p.namebid_proceeds +ℤ highest_bid }) s
      else s
]
