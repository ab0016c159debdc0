-- ===== src/System/Rex/Funds.antt =====
-- The funds of contracts/eosio.system/src/rex.cpp, and what an owner is due from a filled order.
use telos_arbitration_fix.Prelude.{Bool, ◌||◌, not, none, some, if◌then◌else◌}
use telos_arbitration_fix.Prelude.Int.{ℤ, pos, ◌+ℤ◌, ◌-ℤ◌, ltb_ℤ, leb_ℤ, eqb_ℤ}
use telos_arbitration_fix.Eosio.{
  Result, ok, check, or_fail, ◌>>=◌, ◌>>◌, Table, find, insert, modify, remove, Name,
}
use telos_arbitration_fix.System.{Chain}
use telos_arbitration_fix.System.Limits.{update_voting_power}
use telos_arbitration_fix.System.Rex.{RexState}

unfoldable pub transfer_from_fund : Name → ℤ → RexState → Result RexState
transfer_from_fund owner amount s = do
  check (ltb_ℤ (pos 0) amount) "must transfer positive amount from REX fund"
  balance ← or_fail (find owner s.rexfunds) "must deposit to REX fund first"
  check (leb_ℤ amount balance) "insufficient funds"
  ok (record s { rexfunds = modify owner (λ b. b -ℤ amount) s.rexfunds })

abbrev pub add_fund : Name → ℤ → Table ℤ → Table ℤ
add_fund owner amount t = elim (find owner t) [
  | none ↦ insert owner amount t
  | some _ ↦ modify owner (λ b. b +ℤ amount) t
]

unfoldable pub transfer_to_fund : Name → ℤ → RexState → Result RexState
transfer_to_fund owner amount s = do
  check (ltb_ℤ (pos 0) amount) "must transfer positive amount to REX fund"
  ok (record s { rexfunds = add_fund owner amount s.rexfunds })

-- The call of `update_voting_power` on the state of the exchange.
abbrev pub vote_stake : Chain → Name → ℤ → RexState → Result RexState
vote_stake c owner delta s = do
  system ← update_voting_power c owner delta s.accounts.system
  let a = s.accounts
  ok (record s { accounts = record a { system = system } })

-- What a filled order adds to the fund and to the stake, the REX in an open one, and the orders
-- without the filled one.
unfoldable pub settle_order : Name → ℤ → ℤ → RexState → ℤ × ℤ × ℤ × RexState
settle_order owner proceeds delta_stake s = elim (find owner s.rexorders) [
  | none ↦ (proceeds, delta_stake, pos 0, s)
  | some o ↦ if o.is_open then (proceeds, delta_stake, o.rex_requested, s) else (
    proceeds +ℤ o.proceeds,
    delta_stake +ℤ o.stake_change,
    pos 0,
    record s { rexorders = remove owner s.rexorders },
  )
]

abbrev pub fund_positive : Name → ℤ → RexState → Result RexState
fund_positive owner amount s =
    if ltb_ℤ (pos 0) amount then transfer_to_fund owner amount s else ok s

-- The REX in the owner's open order.
unfoldable pub update_rex_account : Chain → Name → ℤ → ℤ → Bool → RexState → Result (ℤ × RexState)
unfolding settle_order transfer_to_fund update_voting_power
update_rex_account c owner proceeds delta_stake force_vote_update s = do
  let (to_fund, to_stake, rex_in_sell_order, s₁) = settle_order owner proceeds delta_stake s
  s₂ ← fund_positive owner to_fund s₁
  s₃ ←
      if force_vote_update || not (eqb_ℤ to_stake (pos 0))
      then vote_stake c owner to_stake s₂
      else ok s₂
  ok (rex_in_sell_order, s₃)
