-- ===== src/Trail/Tokens/Voters.antt =====
-- `transfer` with its counterbalances, and the region Voter_Registration, of
-- contracts/eosio.trail/src/eosio.trail.cpp.
use telos_arbitration_fix.Prelude.{
  ℕ, ◌+◌, ◌-◌, ◌*◌, ◌/◌, ◌%◌, ◌^◌, true, false, not, none, some, ◌==◌, if◌then◌else◌,
}
use telos_arbitration_fix.Prelude.Int.{pos, ltb_ℤ, leb_ℤ}
use telos_arbitration_fix.Eosio.{
  Result, ok, check, or_fail, ◌>>=◌, ◌>>◌, Table, find, insert, modify, erase, put, scope, Name,
  Symbol, Asset, Host,
}
use telos_arbitration_fix.Trail.Tokens.{Balance, CounterBalance, Wallets}
use telos_arbitration_fix.Trail.Tokens.Actions.{check_positive, update_registry}

-- Where the owner has a counterbalance. `val`, an int, is taken not to overflow.
unfoldable pub get_decay_amount : Host → CounterBalance → Symbol → ℕ → Result Asset
get_decay_amount h cb token_symbol decay_rate =
    let time_delta = (h.now + 2 ^ 32 - cb.last_decay) % 2 ^ 32 in
    h.make_asset (pos (time_delta / decay_rate * 10 ^ token_symbol.precision)) token_symbol

-- The counterbalances of the token after the sender's is decayed and lowered.
unfoldable pub lower_counterbal :
    Host → ℕ → Name → Asset → Table CounterBalance → Result (Table CounterBalance)
unfolding get_decay_amount
lower_counterbal h decay_rate sender amount cbs = elim (find sender cbs) [
  | none ↦ do
    zero ← h.make_asset (pos 0) amount.symbol
    ok (
        insert sender
          (record { owner = sender; decayable_cb = zero; persistent_cb = zero; last_decay = h.now })
          cbs)
  | some cb ↦ do
    decay ← get_decay_amount h cb amount.symbol decay_rate
    decayed ← h.asset_sub cb.decayable_cb decay
    new_cb ← h.asset_sub decayed amount
    none_left ← h.make_asset (pos 0) cb.decayable_cb.symbol
    ok (
        modify sender
          (λ a. record a {
            decayable_cb = if ltb_ℤ new_cb.amount none_left.amount then none_left else new_cb;
          })
          cbs)
]

-- The counterbalances of the token after the recipient's is decayed and raised.
unfoldable pub raise_counterbal :
    Host → ℕ → Name → Asset → Table CounterBalance → Result (Table CounterBalance)
unfolding get_decay_amount
raise_counterbal h decay_rate recipient amount cbs = elim (find recipient cbs) [
  | none ↦ do
    zero ← h.make_asset (pos 0) amount.symbol
    ok (
        insert recipient
          (record {
            owner = recipient;
            decayable_cb = amount;
            persistent_cb = zero;
            last_decay = h.now;
          })
          cbs)
  | some cb ↦ do
    decay ← get_decay_amount h cb amount.symbol decay_rate
    decayed ← h.asset_sub cb.decayable_cb decay
    none_left ← h.make_asset (pos 0) cb.decayable_cb.symbol
    new_cb ←
        h.asset_add (if leb_ℤ decayed.amount none_left.amount then none_left else decayed) amount
    ok (modify recipient (λ a. record a { decayable_cb = new_cb }) cbs)
]

-- The balances of the token after tokens went from the sender to the recipient.
unfoldable pub move_tokens : Host → Name → Name → Asset → Table Balance → Result (Table Balance)
move_tokens h sender recipient amount bals = do
  sbal ← or_fail (find sender bals) "sender doesn't have a balance"
  left ← h.asset_sub sbal.tokens amount
  check (leb_ℤ (pos 0) left.amount) "insufficient funds in sender's balance"
  rbal ← or_fail (find recipient bals) "recipient doesn't have a balance to hold transferred funds"
  sum ← h.asset_add rbal.tokens amount
  ok (
      modify recipient (λ a. record a { tokens = sum })
        (modify sender (λ a. record a { tokens = left }) bals))

unfoldable pub transfer : Host → Name → Name → Asset → Wallets → Result Wallets
transfer h sender recipient amount s = do
  let code = amount.symbol.code
  check (h.has_auth sender) "missing authority"
  check (not (sender == recipient)) "cannot send tokens to yourself"
  check_positive h amount "must transfer grater than 0 tokens"
  reg ← or_fail (find code s.registries) "token registry doesn't exist"
  check reg.settings.is_transferable "token registry disallows transfers"
  bals ← move_tokens h sender recipient amount (scope code s.balances)
  lowered ←
      lower_counterbal h reg.settings.counterbal_decay_rate sender amount (scope code s.counterbals)
  raised ← raise_counterbal h reg.settings.counterbal_decay_rate recipient amount lowered
  ok (record s { balances = put code bals s.balances; counterbals = put code raised s.counterbals })

unfoldable pub regvoter : Host → Name → Symbol → Wallets → Result Wallets
regvoter h voter token_symbol s = do
  let code = token_symbol.code
  check (h.has_auth voter) "missing authority"
  or_fail (find code s.registries) "registry doesn't exist for given token"
  let bals = scope code s.balances
  check (elim (find voter bals) [ none ↦ true | some _ ↦ false ]) "Voter already exists"
  zero ← h.make_asset (pos 0) token_symbol
  ok
      (record (update_registry code (λ a. record a { total_voters = (a.total_voters + 1) % 2 ^ 32 })
        s) {
          balances =
              put code (insert voter (record { owner = voter; tokens = zero }) bals) s.balances;
        })

unfoldable pub unregvoter : Host → Name → Symbol → Wallets → Result Wallets
unregvoter h voter token_symbol s = do
  let code = token_symbol.code
  check (h.has_auth voter) "missing authority"
  let bals = scope code s.balances
  bal ← or_fail (find voter bals) "voter doesn't exist to unregister"
  reg ← or_fail (find code s.registries) "registry doesn't exist"
  check reg.settings.is_burnable
      "token registry disallows burning of funds, transfer whole balance before attempting to unregister."
  new_supply ← h.asset_sub reg.supply bal.tokens
  ok
      (record (update_registry code
        (λ a. record a {
          supply = new_supply;
          total_voters = (a.total_voters + (2 ^ 32 - 1)) % 2 ^ 32;
        })
        s) { balances = put code (erase voter bals) s.balances })
