-- ===== src/System/Managed.antt =====
-- The limits that contracts/eosio.system/src/eosio.system.cpp sets by hand.
use telos_arbitration_fix.Prelude.{ℕ, Bool, true, false, not, ◌||◌, Option, none, some}
use telos_arbitration_fix.Prelude.Int.{ℤ, pos, negsuc, ◌+ℤ◌, leb_ℤ}
use telos_arbitration_fix.Eosio.{Result, ok, check, ◌>>◌, Table, find, insert, modify, put, Name}
use telos_arbitration_fix.System.{VoterInfo, Chain}
use telos_arbitration_fix.System.Proxies.{new_voter}
use telos_arbitration_fix.System.Limits.{
  Accounts, Limit, ram_managed, net_managed, cpu_managed, set_field, is_managed, limit_of,
  resources_of,
}
use telos_arbitration_fix.System.Stake.{ram_gift_bytes}

-- The flag in the row of the voter, which an account gets with its first flag.
unfoldable pub set_flag : ℕ → Bool → Name → Table VoterInfo → Table VoterInfo
unfolding set_field
set_flag field value account t = elim (find account t) [
  | none ↦ insert account (record (new_voter account) { flags1 = set_field 0 field value }) t
  | some _ ↦ modify account (λ v. record v { flags1 = set_field v.flags1 field value }) t
]

abbrev pub flagged : ℕ → Bool → Name → Accounts → Accounts
unfolding set_flag
flagged field value account a =
    let s = a.system in
    record a { system = record s { voters = set_flag field value account s.voters } }

abbrev pub set_limits : Name → Limit → Accounts → Accounts
set_limits account l a = record a { limits = put account l a.limits }

unfoldable pub setalimits : Chain → Name → ℤ → ℤ → ℤ → Accounts → Result Accounts
unfolding is_managed
setalimits c account ram net cpu a = do
  check (c.host.has_auth c.host.self) "missing authority"
  check (elim (find account a.userres) as (λ o. Bool) [ none ↦ true | some _ ↦ false ])
      "only supports unlimited accounts"
  check
      (not (
        is_managed ram_managed account a.system
        || is_managed net_managed account a.system
        || is_managed cpu_managed account a.system))
      "cannot use setalimits on an account with managed resources"
  ok (set_limits account (record { ram_bytes = ram; net = net; cpu = cpu }) a)

unfoldable pub setacctram : Chain → Name → Option ℤ → Accounts → Result Accounts
unfolding is_managed set_flag
setacctram c account none a = do
  check (c.host.has_auth c.host.self) "missing authority"
  check (is_managed ram_managed account a.system) "RAM of account is already unmanaged"
  let l = limit_of account a
  let ram = ram_gift_bytes +ℤ (resources_of account a).ram_bytes
  ok (set_limits account (record l { ram_bytes = ram }) (flagged ram_managed false account a))
setacctram c account (some ram_bytes) a = do
  check (c.host.has_auth c.host.self) "missing authority"
  check (leb_ℤ (pos 0) ram_bytes) "not allowed to set RAM limit to unlimited"
  let l = limit_of account a
  ok (set_limits account (record l { ram_bytes = ram_bytes }) (flagged ram_managed true account a))

-- The flag stays where no weight is given.
unfoldable pub setacctnet : Chain → Name → Option ℤ → Accounts → Result Accounts
unfolding is_managed set_flag
setacctnet c account none a = do
  check (c.host.has_auth c.host.self) "missing authority"
  check (is_managed net_managed account a.system)
      "Network bandwidth of account is already unmanaged"
  let l = limit_of account a
  ok (set_limits account (record l { net = (resources_of account a).net_weight }) a)
setacctnet c account (some net_weight) a = do
  check (c.host.has_auth c.host.self) "missing authority"
  let l = limit_of account a
  ok (set_limits account (record l { net = net_weight }) (flagged net_managed true account a))

unfoldable pub setacctcpu : Chain → Name → Option ℤ → Accounts → Result Accounts
unfolding is_managed set_flag
setacctcpu c account none a = do
  check (c.host.has_auth c.host.self) "missing authority"
  check (is_managed cpu_managed account a.system) "CPU bandwidth of account is already unmanaged"
  let l = limit_of account a
  ok (
      set_limits account (record l { cpu = (resources_of account a).cpu_weight })
        (flagged cpu_managed false account a))
setacctcpu c account (some cpu_weight) a = do
  check (c.host.has_auth c.host.self) "missing authority"
  check (leb_ℤ (negsuc 0) cpu_weight) "invalid value for cpu_weight"
  let l = limit_of account a
  ok (set_limits account (record l { cpu = cpu_weight }) (flagged cpu_managed true account a))
