-- ===== src/System/Limits.antt =====
-- `update_resource_limits` of contracts/eosio.system/src/rex.cpp, `update_voting_power` of
-- contracts/eosio.system/src/delegate_bandwidth.cpp, and the tables that they and the actions on
-- resources share. Amounts are of the core symbol, and REX where a field says so.
use telos_arbitration_fix.Prelude.{
  ℕ, ◌+◌, ◌-◌, ◌/◌, ◌%◌, Bool, true, false, not, ◌&&◌, ◌||◌, none, some, List, [], ◌∷◌, ◌++◌, ◌==◌,
  ltb, if◌then◌else◌, length,
}
use telos_arbitration_fix.Prelude.Int.{ℤ, pos, negsuc, ◌+ℤ◌, leb_ℤ, eqb_ℤ}
use telos_arbitration_fix.Eosio.{
  Result, ok, check, or_fail, ◌>>=◌, ◌>>◌, Table, find, insert, modify, put, remove, Name,
}
use telos_arbitration_fix.System.{VoterInfo, State, Chain}
use telos_arbitration_fix.System.Voting.{update_votes}
use telos_arbitration_fix.System.Proxies.{new_voter}

pub record UserResources : Type 0 where
  pub net_weight : ℤ
  pub cpu_weight : ℤ
  pub ram_bytes : ℤ

pub record DelegatedBandwidth : Type 0 where
  pub net_weight : ℤ
  pub cpu_weight : ℤ

-- What `get_resource_limits` and `set_resource_limits` read and write.
pub record Limit : Type 0 where
  pub ram_bytes : ℤ
  pub net : ℤ
  pub cpu : ℤ

-- A transfer of core tokens that the contract sends.
pub record Payment : Type 0 where
  pub from : Name
  pub to : Name
  pub amount : ℤ

-- The bandwidth is scoped by who delegates and keyed by who receives.
pub record Accounts : Type 0 where
  pub system : State
  pub userres : Table UserResources
  pub delband : Table (Table DelegatedBandwidth)
  pub limits : Table Limit
  pub sent : List Payment

abbrev pub pay : Name → Name → ℤ → Accounts → Accounts
pay from to amount s = record s {
  sent = s.sent ++ record { from = from; to = to; amount = amount } ∷ [];
}

-- `has_field` and `set_field` of a flag that is a power of 2.
abbrev pub ram_managed : ℕ
ram_managed = 1

abbrev pub net_managed : ℕ
net_managed = 2

abbrev pub cpu_managed : ℕ
cpu_managed = 4

unfoldable pub has_field : ℕ → ℕ → Bool
has_field flags field = flags / field % 2 == 1

unfoldable pub set_field : ℕ → ℕ → Bool → ℕ
unfolding has_field
set_field flags field value =
    if has_field flags field
    then (if value then flags else flags - field)
    else (if value then flags + field else flags)

unfoldable pub is_managed : ℕ → Name → State → Bool
unfolding has_field
is_managed field account s = elim (find account s.voters) [
  | none ↦ false
  | some v ↦ has_field v.flags1 field
]

-- An account without limits of its own has none, which is -1.
abbrev pub limit_of : Name → Accounts → Limit
limit_of account s = elim (find account s.limits) [
  | none ↦ record { ram_bytes = negsuc 0; net = negsuc 0; cpu = negsuc 0 }
  | some l ↦ l
]

abbrev pub is_empty : UserResources → Bool
is_empty r = eqb_ℤ r.net_weight (pos 0) && eqb_ℤ r.cpu_weight (pos 0) && eqb_ℤ r.ram_bytes (pos 0)

abbrev pub no_resources : UserResources
no_resources = record { net_weight = pos 0; cpu_weight = pos 0; ram_bytes = pos 0 }

-- The row of the account, or that of a new one.
abbrev pub resources_of : Name → Accounts → UserResources
resources_of account s = elim (find account s.userres) [ none ↦ no_resources | some r ↦ r ]

-- An empty row is erased.
abbrev pub store_resources : Name → UserResources → Accounts → Accounts
store_resources account r s = record s {
  userres = if is_empty r then remove account s.userres else put account r s.userres;
}

unfoldable pub update_resource_limits : Name → ℤ → ℤ → Accounts → Result Accounts
unfolding is_managed
update_resource_limits receiver delta_net delta_cpu s =
    if eqb_ℤ delta_cpu (pos 0) && eqb_ℤ delta_net (pos 0) then ok s else (do
      let found = elim (find receiver s.userres) as (λ o. Bool) [ none ↦ false | some _ ↦ true ]
      check (found || leb_ℤ (pos 0) delta_net && leb_ℤ (pos 0) delta_cpu)
          "logic error, should not occur"
      let old = resources_of receiver s
      let tot = record old {
        net_weight = old.net_weight +ℤ delta_net;
        cpu_weight = old.cpu_weight +ℤ delta_cpu;
      }
      check (leb_ℤ (pos 0) tot.net_weight) "insufficient staked total net bandwidth"
      check (leb_ℤ (pos 0) tot.cpu_weight) "insufficient staked total cpu bandwidth"
      let net = is_managed net_managed receiver s.system
      let cpu = is_managed cpu_managed receiver s.system
      let l = limit_of receiver s
      let limits =
          if net && cpu
          then s.limits
          else put receiver
              (record {
                ram_bytes = l.ram_bytes;
                net = if net then l.net else tot.net_weight;
                cpu = if cpu then l.cpu else tot.cpu_weight;
              })
              s.limits
      ok (store_resources receiver tot (record s { limits = limits })))

-- The stake of a voter, who has a row from the first stake on.
abbrev pub add_stake : Name → ℤ → Table VoterInfo → Table VoterInfo
add_stake voter amount t = elim (find voter t) [
  | none ↦ insert voter (record (new_voter voter) { staked = amount }) t
  | some _ ↦ modify voter (λ v. record v { staked = v.staked +ℤ amount }) t
]

unfoldable pub update_voting_power : Chain → Name → ℤ → State → Result State
unfolding update_votes
update_voting_power c voter total_update s = do
  let s₁ = record s { voters = add_stake voter total_update s.voters }
  v ← or_fail (find voter s₁.voters) "unable to find key"
  check (leb_ℤ (pos 0) v.staked) "stake for voting cannot be negative"
  if ltb 0 (length v.producers) || not (v.proxy == 0)
      then update_votes c c.call_depth voter v.proxy v.producers false s₁
      else ok s₁
