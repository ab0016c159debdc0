-- ===== src/Eosio/Platform.antt =====
-- The chain and its development kit, which the contracts call and this repository does not hold:
-- authorisations, the clock, accounts, free primary keys, and the arithmetic of assets.
-- `IsDocumented` states what their documentation promises and the theorems rely on.
use telos_arbitration_fix.Prelude.{ℕ, Bool, false, List, ◌≡◌, contains, ◌==◌, ◌&&◌}
use telos_arbitration_fix.Prelude.Int.{ℤ, pos, negsuc, ◌+ℤ◌, ◌-ℤ◌, ◌≤ℤ◌}
use telos_arbitration_fix.Eosio.Outcome.{Result, ok}

-- `eosio::name` by its 64-bit value
abbrev pub Name : Type 0
Name = ℕ

pub record Symbol : Type 0 where
  pub code : ℕ
  pub precision : ℕ

pub record Asset : Type 0 where
  pub amount : ℤ
  pub symbol : Symbol

abbrev pub sym_eq : Symbol → Symbol → Bool
sym_eq a b = a.code == b.code && a.precision == b.precision

pub record Host : Type 0 where
  -- `get_self()`
  pub self : Name
  -- `current_time_point()`, in seconds and in microseconds
  pub now : ℕ
  pub now_us : ℕ
  -- `require_auth(account)` and `require_auth(permission_level{actor, permission})` pass
  pub has_auth : Name → Bool
  pub has_permission : Name → Name → Bool
  pub is_account : Name → Bool
  -- `available_primary_key()` of a table with these keys
  pub available_primary_key : List ℕ → ℕ
  pub symbol_is_valid : Symbol → Bool
  pub asset_is_valid : Asset → Bool
  -- what a read through an empty `std::optional<name>` yields
  pub uninitialised : Name
  -- `asset(amount, symbol)`, `+` and `-`; two assets of one symbol compare by their amounts
  pub make_asset : ℤ → Symbol → Result Asset
  pub asset_add : Asset → Asset → Result Asset
  pub asset_sub : Asset → Asset → Result Asset

-- The greatest amount of an asset, 2^62 - 1.
abbrev pub max_amount : ℤ
max_amount = pos 4611686018427387903

-- The amounts that an asset may hold.
abbrev pub InRange : ℤ → Type 0
InRange a = (negsuc 4611686018427387902 ≤ℤ a) × (a ≤ℤ max_amount)

abbrev pub Sum : Asset → Asset → Asset
Sum a b = record { amount = a.amount +ℤ b.amount; symbol = a.symbol }

abbrev pub Difference : Asset → Asset → Asset
Difference a b = record { amount = a.amount -ℤ b.amount; symbol = a.symbol }

pub record IsDocumented (h : Host) : Type 0 where
  pub fresh_key : (ks : List ℕ) → contains (h.available_primary_key ks) ks ≡ false
  pub make_ok :
      (n : ℤ) (s : Symbol) (c : Asset)
      → h.make_asset n s ≡ ok c
      → (c ≡ record { amount = n; symbol = s }) × InRange n
  pub add_ok :
      (a b c : Asset)
      → h.asset_add a b ≡ ok c
      → (a.symbol ≡ b.symbol) × (c ≡ Sum a b) × InRange c.amount
  pub add_total :
      (a b : Asset)
      → a.symbol ≡ b.symbol
      → InRange (Sum a b).amount
      → h.asset_add a b ≡ ok (Sum a b)
  pub sub_ok :
      (a b c : Asset)
      → h.asset_sub a b ≡ ok c
      → (a.symbol ≡ b.symbol) × (c ≡ Difference a b) × InRange c.amount
  pub sub_total :
      (a b : Asset)
      → a.symbol ≡ b.symbol
      → InRange (Difference a b).amount
      → h.asset_sub a b ≡ ok (Difference a b)

-- `symbol("TLOS", 4)` and `symbol("VOTE", 4)`
abbrev pub tlos : Symbol
tlos = record { code = 1397705812; precision = 4 }

abbrev pub vote : Symbol
vote = record { code = 1163153238; precision = 4 }
