-- ===== src/Trail/Tokens/Actions.antt =====
-- The regions Token_Registration and Token_Actions of contracts/eosio.trail/src/eosio.trail.cpp,
-- without `transfer`.
use telos_arbitration_fix.Prelude.{
  ℕ, Bool, true, false, not, none, some, List, [], ◌∷◌, String, ◌==◌, ltb, if◌then◌else◌,
}
use telos_arbitration_fix.Prelude.Int.{pos, ltb_ℤ, leb_ℤ, is_zero}
use telos_arbitration_fix.Eosio.{
  Result, ok, check, or_fail, ◌>>=◌, ◌>>◌, Table, find, insert, modify, erase, put, scope, Name,
  Symbol, Asset, Host,
}
use telos_arbitration_fix.Trail.Tokens.{TokenSettings, Registry, Balance, Airgrab, Wallets}

abbrev pub default_settings : TokenSettings
default_settings = record {
  is_destructible = false;
  is_proxyable = false;
  is_burnable = false;
  is_seizable = false;
  is_max_mutable = false;
  is_transferable = false;
  is_recastable = false;
  is_initialized = false;
  counterbal_decay_rate = 300;
  lock_after_initialize = true;
}

-- `check(amount > asset(0, amount.symbol), message)`
abbrev pub check_positive : Host → Asset → String → Result (Unit {0})
check_positive h amount message = do
  zero ← h.make_asset (pos 0) amount.symbol
  check (ltb_ℤ zero.amount amount.amount) message

abbrev pub update_registry : ℕ → (Registry → Registry) → Wallets → Wallets
update_registry code f s = record s { registries = modify code f s.registries }

-- Adds to the balance of the owner, or makes a new row.
unfoldable pub add_tokens :
    Host → ℕ → Name → Asset → Table (Table Balance) → Result (Table (Table Balance))
add_tokens h code owner tokens balances =
    let bals = scope code balances in
    elim (find owner bals) [
      | none ↦
          ok (put code (insert owner (record { owner = owner; tokens = tokens }) bals) balances)
      | some b ↦ do
        sum ← h.asset_add b.tokens tokens
        ok (put code (modify owner (λ a. record a { tokens = sum }) bals) balances)
    ]

unfoldable pub regtoken : Host → Asset → Name → String → Wallets → Result Wallets
regtoken h max_supply publisher info_url s = do
  let code = max_supply.symbol.code
  check (h.has_auth publisher) "missing authority"
  check (elim (find code s.registries) [ none ↦ true | some _ ↦ false ])
      "Token Registry with that symbol already exists in Trail"
  zero ← h.make_asset (pos 0) max_supply.symbol
  ok (record s {
    registries =
        insert code
          (record {
            max_supply = max_supply;
            supply = zero;
            total_voters = 0;
            total_proxies = 0;
            publisher = publisher;
            info_url = info_url;
            settings = default_settings;
          })
          s.registries;
  })

unfoldable pub initsettings : Host → Name → Symbol → TokenSettings → Wallets → Result Wallets
initsettings h publisher token_symbol new_settings s = do
  check (h.has_auth publisher) "missing authority"
  reg ←
      or_fail (find token_symbol.code s.registries) "Token Registry with that symbol doesn't exist"
  check (reg.publisher == publisher) "cannot change settings of another account's registry"
  check (ltb 0 new_settings.counterbal_decay_rate) "cannot have a counterbalance with zero decay"
  if reg.settings.is_initialized
      then (do
        check (not reg.settings.lock_after_initialize) "settings have been locked"
        ok (update_registry token_symbol.code (λ a. record a { settings = new_settings }) s))
      else ok (
          update_registry token_symbol.code
            (λ a. record a { settings = record new_settings { is_initialized = true } }) s)

unfoldable pub unregtoken : Host → Symbol → Name → Wallets → Result Wallets
unregtoken h token_symbol publisher s = do
  check (h.has_auth publisher) "missing authority"
  reg ←
      or_fail (find token_symbol.code s.registries) "No Token Registry found matching given symbol"
  check reg.settings.is_destructible "Token Registry has been set as indestructible"
  ok (record s { registries = erase token_symbol.code s.registries })

-- Puts tokens into the airgrabs of the publisher.
unfoldable pub add_airgrab :
    Host → Name → Name → Asset → Table (Table Airgrab) → Result (Table (Table Airgrab))
add_airgrab h publisher recipient tokens airgrabs =
    let grabs = scope publisher airgrabs in
    elim (find recipient grabs) [
      | none ↦ ok (
          put publisher (insert recipient (record { recipient = recipient; tokens = tokens }) grabs)
            airgrabs)
      | some g ↦ do
        sum ← h.asset_add g.tokens tokens
        ok (put publisher (modify recipient (λ a. record a { tokens = sum }) grabs) airgrabs)
    ]

unfoldable pub issuetoken : Host → Name → Name → Asset → Bool → Wallets → Result Wallets
issuetoken h publisher recipient tokens airgrab s = do
  let code = tokens.symbol.code
  check (h.has_auth publisher) "missing authority"
  check_positive h tokens "must issue more than 0 tokens"
  reg ← or_fail (find code s.registries) "registry doesn't exist for that token"
  check (reg.publisher == publisher) "only publisher can issue tokens"
  new_supply ← h.asset_add reg.supply tokens
  check (leb_ℤ new_supply.amount reg.max_supply.amount) "Issuing tokens would breach max supply"
  let s₁ = update_registry code (λ a. record a { supply = new_supply }) s
  if airgrab
      then (do
        grabs ← add_airgrab h publisher recipient tokens s₁.airgrabs
        ok (record s₁ { airgrabs = grabs }))
      else do
        bals ← add_tokens h code recipient tokens s₁.balances
        ok (record s₁ { balances = bals })

-- The code looks the airgrab up by the publisher of the registry, and not by its token.
unfoldable pub claimairgrab : Host → Name → Name → Symbol → Wallets → Result Wallets
claimairgrab h claimant publisher token_symbol s = do
  check (h.has_auth claimant) "missing authority"
  reg ←
      or_fail (find token_symbol.code s.registries)
        "Token Registry with that symbol doesn't exist in Trail"
  let grabs = scope reg.publisher s.airgrabs
  grab ← or_fail (find claimant grabs) "no airgrab to claim"
  check (grab.recipient == claimant) "cannot claim another account's airdrop"
  bals ← add_tokens h token_symbol.code claimant grab.tokens s.balances
  ok (record s { balances = bals; airgrabs = put reg.publisher (erase claimant grabs) s.airgrabs })

unfoldable pub burntoken : Host → Name → Asset → Wallets → Result Wallets
burntoken h balance_owner amount s = do
  let code = amount.symbol.code
  check (h.has_auth balance_owner) "missing authority"
  check_positive h amount "must claim more than 0 tokens"
  reg ← or_fail (find code s.registries) "registry doesn't exist for given token"
  check reg.settings.is_burnable "token registry doesn't allow burning"
  let bals = scope code s.balances
  bal ← or_fail (find balance_owner bals) "balance owner has no balance to burn"
  new_supply ← h.asset_sub reg.supply amount
  new_balance ← h.asset_sub bal.tokens amount
  check (leb_ℤ (pos 0) new_balance.amount) "cannot burn more tokens than are owned"
  ok (record (update_registry code (λ a. record a { supply = new_supply }) s) {
    balances =
        put code (modify balance_owner (λ a. record a { tokens = new_balance }) bals) s.balances;
  })

-- Takes tokens from the owner and gives them to the publisher.
unfoldable pub seize_from : Host → Name → Asset → Name → Table Balance → Result (Table Balance)
seize_from h publisher tokens owner bals = do
  obal ← or_fail (find owner bals) "user has no balance to seize"
  left ← h.asset_sub obal.tokens tokens
  check (leb_ℤ (pos 0) left.amount) "cannot seize more tokens than user owns"
  let bals₁ = modify owner (λ a. record a { tokens = left }) bals
  pbal ← or_fail (find publisher bals₁) "publisher has no balance to hold seized tokens"
  sum ← h.asset_add pbal.tokens tokens
  ok (modify publisher (λ a. record a { tokens = sum }) bals₁)

unfoldable pub seizetoken : Host → Name → Name → Asset → Wallets → Result Wallets
unfolding seize_from
seizetoken h publisher owner tokens s = do
  let code = tokens.symbol.code
  check (h.has_auth publisher) "missing authority"
  check (not (publisher == owner)) "cannot seize your own tokens"
  check_positive h tokens "must seize greater than 0 tokens"
  reg ← or_fail (find code s.registries) "registry doesn't exist for given token"
  check (reg.publisher == publisher) "only publisher can seize tokens"
  check reg.settings.is_seizable "token registry doesn't allow seizing"
  bals ← seize_from h publisher tokens owner (scope code s.balances)
  ok (record s { balances = put code bals s.balances })

unfoldable pub seize_group :
    Host → Name → Asset → List Name → Table Balance → Result (Table Balance)
unfolding seize_from
seize_group h publisher tokens [] bals = ok bals
seize_group h publisher tokens (n ∷ group) bals = do
  bals₁ ← seize_from h publisher tokens n bals
  seize_group h publisher tokens group bals₁

unfoldable pub seizebygroup : Host → Name → List Name → Asset → Wallets → Result Wallets
unfolding seize_group
seizebygroup h publisher group tokens s = do
  let code = tokens.symbol.code
  check (h.has_auth publisher) "missing authority"
  check_positive h tokens "must seize greater than 0 tokens"
  reg ← or_fail (find code s.registries) "registry doesn't exist for given token"
  check (reg.publisher == publisher) "only publisher can seize tokens"
  check reg.settings.is_seizable "token registry doesn't allow seizing"
  bals ← seize_group h publisher tokens group (scope code s.balances)
  ok (record s { balances = put code bals s.balances })

unfoldable pub seizeairgrab : Host → Name → Name → Asset → Wallets → Result Wallets
seizeairgrab h publisher recipient amount s = do
  let code = amount.symbol.code
  check (h.has_auth publisher) "missing authority"
  check_positive h amount "must seize greater than 0 tokens"
  reg ← or_fail (find code s.registries) "registry doesn't exist for given token"
  check (reg.publisher == publisher) "only publisher can seize airgrabs"
  check reg.settings.is_seizable "token registry doesn't allow seizing"
  let grabs = scope publisher s.airgrabs
  grab ← or_fail (find recipient grabs) "recipient has no airgrab"
  left ← h.asset_sub grab.tokens amount
  check (leb_ℤ (pos 0) left.amount) "cannot seize more tokens than airgrab holds"
  rest ← h.asset_sub amount grab.tokens
  let bals = scope code s.balances
  pbal ← or_fail (find publisher bals) "publisher has no balance to hold seized tokens"
  sum ← h.asset_add pbal.tokens amount
  ok (record s {
    airgrabs =
        put publisher
          (if is_zero rest.amount
            then erase recipient grabs
            else modify recipient (λ a. record a { tokens = left }) grabs)
          s.airgrabs;
    balances = put code (modify publisher (λ a. record a { tokens = sum }) bals) s.balances;
  })

unfoldable pub raisemax : Host → Name → Asset → Wallets → Result Wallets
raisemax h publisher amount s = do
  let code = amount.symbol.code
  check (h.has_auth publisher) "missing authority"
  check_positive h amount "amount must be greater than 0"
  reg ← or_fail (find code s.registries) "registry doesn't exist for given token"
  check (reg.publisher == publisher) "cannot raise another registry's max supply"
  check reg.settings.is_max_mutable "token registry doesn't allow raising max supply"
  raised ← h.asset_add reg.max_supply amount
  ok (update_registry code (λ a. record a { max_supply = raised }) s)

unfoldable pub lowermax : Host → Name → Asset → Wallets → Result Wallets
lowermax h publisher amount s = do
  let code = amount.symbol.code
  check (h.has_auth publisher) "missing authority"
  check_positive h amount "amount must be greater than 0"
  reg ← or_fail (find code s.registries) "registry doesn't exist for that token"
  check (reg.publisher == publisher) "cannot lower another account's max supply"
  check reg.settings.is_max_mutable "token settings don't allow lowering max supply"
  lowered ← h.asset_sub reg.max_supply amount
  check (leb_ℤ reg.supply.amount lowered.amount) "cannot lower max supply below circulating supply"
  check (leb_ℤ (pos 0) lowered.amount) "cannot lower max supply below 0"
  ok (update_registry code (λ a. record a { max_supply = lowered }) s)
