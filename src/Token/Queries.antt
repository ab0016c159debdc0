-- ===== src/Token/Queries.antt =====
-- The two static reads of contracts/eosio.token/include/eosio.token/eosio.token.hpp.
use telos_arbitration_fix.Prelude.{ℕ}
use telos_arbitration_fix.Eosio.{Result, or_fail, ◌>>=◌, ok, find, scope, Name, Asset}
use telos_arbitration_fix.Token.Types.{Ledger}

unfoldable pub get_supply : Ledger → ℕ → Result Asset
get_supply l sym_code = do
  st ← or_fail (find sym_code (scope sym_code l.stats)) "unable to find key"
  ok st.supply

unfoldable pub get_balance : Ledger → Name → ℕ → Result Asset
get_balance l owner sym_code = or_fail (find sym_code (scope owner l.accounts)) "unable to find key"
