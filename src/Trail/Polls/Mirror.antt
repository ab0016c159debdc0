-- ===== src/Trail/Polls/Mirror.antt =====
-- `mirrorcast` and the handler of TLOS transfers of contracts/eosio.trail/src/eosio.trail.cpp, with
-- the helpers of contracts/eosio.trail/include/trail.system.hpp that read other contracts.
use telos_arbitration_fix.Prelude.{ℕ, none, some, if◌then◌else◌}
use telos_arbitration_fix.Prelude.Int.{pos, ◌+ℤ◌, ltb_ℤ}
use telos_arbitration_fix.Eosio.{
  Result, ok, check, or_fail, ◌>>=◌, ◌>>◌, Table, find, insert, modify, put, scope, Name, Symbol,
  Asset, Host, sym_eq, tlos, vote,
}
use telos_arbitration_fix.Eosio.Accounts.{amount_of}
use telos_arbitration_fix.Trail.Tokens.{CounterBalance, Wallets}
use telos_arbitration_fix.Trail.Tokens.Voters.{get_decay_amount}

pub record DelegatedBandwidth : Type 0 where
  pub net_weight : Asset
  pub cpu_weight : Asset

-- The tables of eosio.token, scoped by the owner and keyed by the token's code, and of eosio, scoped
-- by who delegates and keyed by who receives.
pub record OtherTables : Type 0 where
  pub accounts : Table (Table Asset)
  pub delband : Table (Table DelegatedBandwidth)

unfoldable pub get_liquid_tlos : Host → OtherTables → Name → Result Asset
get_liquid_tlos h o owner = h.make_asset (amount_of (find tlos.code (scope owner o.accounts))) tlos

unfoldable pub get_staked_tlos : Host → OtherTables → Name → Result Asset
get_staked_tlos h o owner =
    h.make_asset
      (elim (find owner (scope owner o.delband)) [
        | none ↦ pos 0
        | some res ↦ res.cpu_weight.amount +ℤ res.net_weight.amount
      ])
      tlos

-- DECAY_RATE
abbrev pub decay_rate : ℕ
decay_rate = 120

-- No less than none.
abbrev pub at_least_zero : Host → Asset → Result Asset
at_least_zero h a = do
  zero ← h.make_asset (pos 0) vote
  ok (if ltb_ℤ a.amount zero.amount then zero else a)

-- The votes that the counterbalance of the voter leaves, and the counterbalances with it decayed.
unfoldable pub apply_counterbal :
    Host → Name → Asset → Table CounterBalance → Result (Asset × Table CounterBalance)
unfolding get_decay_amount
apply_counterbal h voter new_votes cbs = elim (find voter cbs) [
  | none ↦ ok (new_votes, cbs)
  | some cb ↦ do
    decay_amount ← get_decay_amount h cb vote decay_rate
    decayed ← h.asset_sub cb.decayable_cb decay_amount
    new_cb ← at_least_zero h decayed
    rest ← h.asset_sub new_votes new_cb
    ok (rest, modify voter (λ a. record a { decayable_cb = new_cb }) cbs)
]

unfoldable pub mirrorcast : Host → OtherTables → Name → Symbol → Wallets → Result Wallets
unfolding get_liquid_tlos get_staked_tlos apply_counterbal
mirrorcast h o voter token_symbol s = do
  check (h.has_auth voter) "missing authority"
  check (sym_eq token_symbol tlos) "feature in development. can only mirrorcast TLOS"
  liquid ← get_liquid_tlos h o voter
  staked ← get_staked_tlos h o voter
  max_votes ← h.asset_add liquid staked
  mirrored ← h.make_asset max_votes.amount vote
  check (sym_eq max_votes.symbol tlos) "only TLOS can be used to get VOTEs"
  no_tlos ← h.make_asset (pos 0) tlos
  check (ltb_ℤ no_tlos.amount max_votes.amount) "must get a positive amount of VOTEs"
  let bals = scope vote.code s.balances
  bal ← or_fail (find voter bals) "voter is not registered"
  reg ←
      or_fail (find vote.code s.registries) "Token Registry with that symbol doesn't exist in Trail"
  old_supply ← h.asset_sub reg.supply bal.tokens
  (rest, cbs) ← apply_counterbal h voter mirrored (scope vote.code s.counterbals)
  new_votes ← at_least_zero h rest
  new_supply ← h.asset_add old_supply new_votes
  ok (record s {
    counterbals = put vote.code cbs s.counterbals;
    balances = put vote.code (modify voter (λ a. record a { tokens = new_votes }) bals) s.balances;
    registries = modify vote.code (λ a. record a { supply = new_supply }) s.registries;
  })

unfoldable pub update_from_cb : Host → Name → Asset → Wallets → Result Wallets
update_from_cb h from amount s =
    let code = amount.symbol.code in
    let cbs = scope code s.counterbals in
    elim (find from cbs) [
      | none ↦ do
        zero ← h.make_asset (pos 0) vote
        ok (record s {
          counterbals =
              put code
                (insert from
                  (record {
                    owner = from;
                    decayable_cb = zero;
                    persistent_cb = zero;
                    last_decay = h.now;
                  })
                  cbs)
                s.counterbals;
        })
      | some from_cb ↦ do
        lowered ← h.asset_sub from_cb.decayable_cb amount
        new_cb ← at_least_zero h lowered
        ok (record s {
          counterbals =
              put code (modify from (λ a. record a { decayable_cb = new_cb }) cbs) s.counterbals;
        })
    ]

unfoldable pub update_to_cb : Host → Name → Asset → Wallets → Result Wallets
update_to_cb h to amount s =
    let code = amount.symbol.code in
    let cbs = scope code s.counterbals in
    elim (find to cbs) [
      | none ↦ do
        gained ← h.make_asset amount.amount vote
        zero ← h.make_asset (pos 0) vote
        ok (record s {
          counterbals =
              put code
                (insert to
                  (record {
                    owner = to;
                    decayable_cb = gained;
                    persistent_cb = zero;
                    last_decay = h.now;
                  })
                  cbs)
                s.counterbals;
        })
      | some to_cb ↦ do
        new_cb ← h.asset_add to_cb.decayable_cb amount
        ok (record s {
          counterbals =
              put code (modify to (λ a. record a { decayable_cb = new_cb }) cbs) s.counterbals;
        })
    ]

unfoldable pub transfer_handler : Host → Name → Name → Asset → Wallets → Result Wallets
unfolding update_from_cb update_to_cb
transfer_handler h from to quantity s = do
  from_amount ← h.make_asset quantity.amount vote
  s₁ ← update_from_cb h from from_amount s
  to_amount ← h.make_asset quantity.amount vote
  update_to_cb h to to_amount s₁
