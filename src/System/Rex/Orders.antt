-- ===== src/System/Rex/Orders.antt =====
-- Orders to sell REX, of contracts/eosio.system/src/rex.cpp.
use telos_arbitration_fix.Prelude.{
  ℕ, zero, suc, ◌*◌, ◌/◌, ◌%◌, ◌^◌, true, false, none, some, [], ◌∷◌, leb, if◌then◌else◌,
}
use telos_arbitration_fix.Prelude.Int.{ℤ, pos, ◌-ℤ◌, leb_ℤ}
use telos_arbitration_fix.Eosio.{Result, ok, or_fail, ◌>>=◌, Table, find, modify, Name}
use telos_arbitration_fix.System.Rex.{RexPool, RexBalance, RexOrder, RexOrderOutcome, RexState}
use telos_arbitration_fix.System.Rex.Pool.{wide, try_mul_div}
use telos_arbitration_fix.System.Rex.Balances.{worth}

-- A fifth of what is lent has to stay.
unfoldable pub available_unlent : RexPool → ℤ
unfolding wide
available_unlent p = p.total_unlent -ℤ pos (2 * wide p.total_lent % 2 ^ 128 / 10)

abbrev pub sell_from_pool : ℤ → ℤ → RexPool → RexPool
sell_from_pool rex proceeds p =
    let s1 = p.total_lendable -ℤ proceeds in
    record p {
      total_rex = p.total_rex -ℤ rex;
      total_lendable = s1;
      total_unlent = s1 -ℤ p.total_lent;
    }

abbrev pub sell_from_balance : ℤ → ℤ → RexBalance → RexBalance
sell_from_balance rex stake rb = record rb {
  vote_stake = stake;
  rex_balance = rb.rex_balance -ℤ rex;
  matured_rex = rb.matured_rex -ℤ rex;
}

-- The order of the holder with this row.
unfoldable pub fill_rex_order :
    Name → RexBalance → ℤ → RexState → Result (RexOrderOutcome × RexState)
unfolding try_mul_div available_unlent
fill_rex_order owner rb rex s = do
  p ← or_fail s.rexpool "rex pool is empty"
  proceeds ← worth p rex
  value ← worth p rb.rex_balance
  let stake = value -ℤ proceeds
  if leb_ℤ proceeds (available_unlent p)
      then ok (
        record { success = true; proceeds = proceeds; stake_change = stake -ℤ rb.vote_stake },
        record s {
          rexpool = some (sell_from_pool rex proceeds p);
          rexbalance = modify owner (sell_from_balance rex stake) s.rexbalance;
        },
      )
      else ok (record { success = false; proceeds = pos 0; stake_change = pos 0 }, s)

-- The open orders by their time, and by their owners where the time is the same.
abbrev insert_order : Name → RexOrder → Table RexOrder → Table RexOrder
insert_order k o [] = (k, o) ∷ []
insert_order k o ((j, u) ∷ t) =
    if leb o.order_time u.order_time then (k, o) ∷ (j, u) ∷ t else (j, u) ∷ insert_order k o t

unfoldable pub open_orders : Table RexOrder → Table RexOrder
open_orders [] = []
open_orders ((k, o) ∷ t) =
    let rest = open_orders t in if o.is_open then insert_order k o rest else rest

abbrev pub close_order : RexOrderOutcome → RexOrder → RexOrder
close_order r o = record o { proceeds = r.proceeds; stake_change = r.stake_change; is_open = false }

-- One turn of the loop over the orders.
unfoldable pub run_order : Name → RexOrder → RexState → Result RexState
unfolding fill_rex_order
run_order k o s = elim (find o.owner s.rexbalance) [
  | none ↦ ok s
  | some rb ↦ do
    (r, s₁) ← fill_rex_order o.owner rb o.rex_requested s
    if r.success
        then ok (record s₁ { rexorders = modify k (close_order r) s₁.rexorders })
        else ok s₁
]

-- `max` turns, over the orders that were open at the start; the first that is not open ends them.
unfoldable pub run_orders : ℕ → Table RexOrder → RexState → Result RexState
unfolding run_order
run_orders zero os s = ok s
run_orders (suc max) [] s = ok s
run_orders (suc max) ((k, _) ∷ os) s = elim (find k s.rexorders) [
  | none ↦ ok s
  | some o ↦ elim o.is_open [ false ↦ ok s | true ↦ do s₁ ← run_order k o s; run_orders max os s₁ ]
]
