-- ===== src/Token/Actions.antt =====
-- The actions of contracts/eosio.token/src/eosio.token.cpp.
use Prim.Native.String.{len}
use telos_arbitration_fix.Prelude.{
  ℕ, true, false, not, Option, none, some, List, [], ◌∷◌, ◌++◌, String, ◌==◌, leb,
}
use telos_arbitration_fix.Prelude.Int.{pos, ◌-ℤ◌, ltb_ℤ, leb_ℤ, is_zero}
use telos_arbitration_fix.Eosio.{
  Result, ok, err, check, or_fail, ◌>>=◌, ◌>>◌, Table, find, insert, modify, erase, put, scope,
  Name, Symbol, Asset, Host, sym_eq,
}
use telos_arbitration_fix.Token.Types.{CurrencyStats, Ledger}

-- `stats.find(code)` in the scope of the code
abbrev pub find_stats : ℕ → Ledger → Option CurrencyStats
find_stats code s = find code (scope code s.stats)

abbrev pub put_stats : ℕ → CurrencyStats → Ledger → Ledger
put_stats code st s = record s {
  stats = put code (modify code (λ _. st) (scope code s.stats)) s.stats;
}

unfoldable pub create : Host → Name → Asset → Ledger → Result Ledger
create h issuer maximum_supply s = do
  let sym = maximum_supply.symbol
  check (h.has_auth h.self) "missing authority"
  check (h.symbol_is_valid sym) "invalid symbol name"
  check (h.asset_is_valid maximum_supply) "invalid supply"
  check (ltb_ℤ (pos 0) maximum_supply.amount) "max-supply must be positive"
  check (elim (find_stats sym.code s) [ none ↦ true | some _ ↦ false ])
      "token with symbol already exists"
  let st : CurrencyStats = record {
    supply = record { amount = pos 0; symbol = sym };
    max_supply = maximum_supply;
    issuer = issuer;
  }
  ok (record s { stats = put sym.code (insert sym.code st (scope sym.code s.stats)) s.stats })

-- Unlike that of the arbitration contract, it keeps a row of zero.
unfoldable pub sub_balance :
    Host → Name → Asset → Table (Table Asset) → Result (Table (Table Asset))
sub_balance h owner value accounts = do
  let from_acnts = scope owner accounts
  from ← or_fail (find value.symbol.code from_acnts) "no balance object found"
  check (leb_ℤ value.amount from.amount) "overdrawn balance"
  left ← h.asset_sub from value
  ok (put owner (modify value.symbol.code (λ _. left) from_acnts) accounts)

unfoldable pub add_balance :
    Host → Name → Asset → Table (Table Asset) → Result (Table (Table Asset))
add_balance h owner value accounts =
    let to_acnts = scope owner accounts in
    elim (find value.symbol.code to_acnts) [
      | none ↦ ok (put owner (insert value.symbol.code value to_acnts) accounts)
      | some balance ↦ do
        sum ← h.asset_add balance value
        ok (put owner (modify value.symbol.code (λ _. sum) to_acnts) accounts)
    ]

unfoldable pub issue : Host → Name → Asset → String → Ledger → Result Ledger
issue h to quantity memo s = do
  let code = quantity.symbol.code
  check (h.symbol_is_valid quantity.symbol) "invalid symbol name"
  check (leb (len memo) 256) "memo has more than 256 bytes"
  st ← or_fail (find_stats code s) "token with symbol does not exist, create token before issue"
  check (to == st.issuer) "tokens can only be issued to issuer account"
  check (h.has_auth st.issuer) "missing authority"
  check (h.asset_is_valid quantity) "invalid quantity"
  check (ltb_ℤ (pos 0) quantity.amount) "must issue positive quantity"
  check (sym_eq quantity.symbol st.supply.symbol) "symbol precision mismatch"
  check (leb_ℤ quantity.amount (st.max_supply.amount -ℤ st.supply.amount))
      "quantity exceeds available supply"
  supply ← h.asset_add st.supply quantity
  accounts ← add_balance h st.issuer quantity s.accounts
  ok (record (put_stats code (record st { supply = supply }) s) { accounts = accounts })

unfoldable pub retire : Host → Asset → String → Ledger → Result Ledger
retire h quantity memo s = do
  let code = quantity.symbol.code
  check (h.symbol_is_valid quantity.symbol) "invalid symbol name"
  check (leb (len memo) 256) "memo has more than 256 bytes"
  st ← or_fail (find_stats code s) "token with symbol does not exist"
  check (h.has_auth st.issuer) "missing authority"
  check (h.asset_is_valid quantity) "invalid quantity"
  check (ltb_ℤ (pos 0) quantity.amount) "must retire positive quantity"
  check (sym_eq quantity.symbol st.supply.symbol) "symbol precision mismatch"
  supply ← h.asset_sub st.supply quantity
  accounts ← sub_balance h st.issuer quantity s.accounts
  ok (record (put_stats code (record st { supply = supply }) s) { accounts = accounts })

-- Who pays for the row of the receiver is left out.
unfoldable pub transfer : Host → Name → Name → Asset → String → Ledger → Result Ledger
transfer h from to quantity memo s = do
  check (not (from == to)) "cannot transfer to self"
  check (h.has_auth from) "missing authority"
  check (h.is_account to) "to account does not exist"
  st ← or_fail (find_stats quantity.symbol.code s) "unable to find key"
  check (h.asset_is_valid quantity) "invalid quantity"
  check (ltb_ℤ (pos 0) quantity.amount) "must transfer positive quantity"
  check (sym_eq quantity.symbol st.supply.symbol) "symbol precision mismatch"
  check (leb (len memo) 256) "memo has more than 256 bytes"
  taken ← sub_balance h from quantity s.accounts
  given ← add_balance h to quantity taken
  ok (record s { accounts = given; notified = s.notified ++ from ∷ to ∷ [] })

-- `open`
unfoldable pub open_account : Host → Name → Symbol → Name → Ledger → Result Ledger
open_account h owner symbol ram_payer s = do
  check (h.has_auth ram_payer) "missing authority"
  check (h.is_account owner) "owner account does not exist"
  st ← or_fail (find_stats symbol.code s) "symbol does not exist"
  check (sym_eq st.supply.symbol symbol) "symbol precision mismatch"
  let acnts = scope owner s.accounts
  ok (elim (find symbol.code acnts) [
    | none ↦ record s {
      accounts =
          put owner (insert symbol.code (record { amount = pos 0; symbol = symbol }) acnts)
            s.accounts;
    }
    | some _ ↦ s
  ])

-- `close`
unfoldable pub close_account : Host → Name → Symbol → Ledger → Result Ledger
close_account h owner symbol s = do
  check (h.has_auth owner) "missing authority"
  let acnts = scope owner s.accounts
  balance ←
      or_fail (find symbol.code acnts)
        "Balance row already deleted or never existed. Action won't have any effect."
  check (is_zero balance.amount) "Cannot close because the balance is not zero."
  ok (record s { accounts = put owner (erase symbol.code acnts) s.accounts })

pub data Action : Type 0 where
  creates : Name → Asset → Action
  issues : Name → Asset → String → Action
  retires : Asset → String → Action
  transfers : Name → Name → Asset → String → Action
  opens : Name → Symbol → Name → Action
  closes : Name → Symbol → Action

unfoldable pub apply : Host → Action → Ledger → Result Ledger
apply h (creates i m) s = create h i m s
apply h (issues t q m) s = issue h t q m s
apply h (retires q m) s = retire h q m s
apply h (transfers f t q m) s = transfer h f t q m s
apply h (opens o y p) s = open_account h o y p s
apply h (closes o y) s = close_account h o y s

-- An action that fails leaves no trace.
abbrev pub commit : Ledger → Result Ledger → Ledger
commit s (ok s') = s'
commit s (err _) = s

unfoldable pub run : List (Host × Action) → Ledger → Ledger
run [] s = s
run ((h, a) ∷ rest) s = run rest (commit s (apply h a s))

abbrev pub empty : Ledger
empty = record { stats = []; accounts = []; notified = [] }
