-- ===== src/Eosio/Example.antt =====
-- A host that behaves as documented, for the examples: every authority is there, keys count up, and
-- assets are checked for their symbols and their range.
use telos_arbitration_fix.Prelude.{
  ℕ, suc, ◌≤◌, ◌≡◌, refl, Bool, true, false, ◌&&◌, List, [], ◌∷◌, contains, leb, if◌then◌else◌,
  arith,
}
use telos_arbitration_fix.Prelude.Int.{ℤ, negsuc, leb_ℤ}
use telos_arbitration_fix.Eosio.Names
use telos_arbitration_fix.Eosio.Outcome.{Result, ok, err}
use telos_arbitration_fix.Eosio.Platform.{
  Asset, Host, IsDocumented, sym_eq, Sum, Difference, InRange, max_amount,
}

abbrev pub next_key : List ℕ → ℕ
next_key [] = 0
next_key (k ∷ ks) = let n = next_key ks in if leb n k then suc k else n

next_key-fresh : (n : ℕ) (ks : List ℕ) → next_key ks ≤ n → contains n ks ≡ false
next_key-fresh n [] h = refl
next_key-fresh n (k ∷ ks) h = ground (arith, next_key-fresh n ks)

abbrev in_range : ℤ → Bool
in_range a = leb_ℤ (negsuc 4611686018427387902) a && leb_ℤ a max_amount

abbrev checked : Asset → Result Asset
checked a = if in_range a.amount then ok a else err "out of range"

abbrev example_add : Asset → Asset → Result Asset
example_add a b = if sym_eq a.symbol b.symbol then checked (Sum a b) else err "symbols differ"

abbrev example_sub : Asset → Asset → Result Asset
example_sub a b =
    if sym_eq a.symbol b.symbol then checked (Difference a b) else err "symbols differ"

abbrev pub example_host : Host
example_host = record {
  self = Names.eosio_arb;
  now = 1000;
  now_us = 1000000000;
  has_auth = λ a. true;
  has_permission = λ a p. true;
  is_account = λ a. true;
  available_primary_key = next_key;
  symbol_is_valid = λ s. true;
  asset_is_valid = λ a. in_range a.amount;
  uninitialised = 0;
  make_asset = λ n s. checked (record { amount = n; symbol = s });
  asset_add = example_add;
  asset_sub = example_sub;
}

checked_ok : (a c : Asset) → checked a ≡ ok c → (c ≡ a) × InRange c.amount
checked_ok a c e = ground arith

checked_total : (a : Asset) → InRange a.amount → checked a ≡ ok a
checked_total a p = ground arith

pub example_host-IsDocumented : IsDocumented example_host
example_host-IsDocumented = record {
  fresh_key = λ ks. next_key-fresh (next_key ks) ks (omega arith);
  make_ok = λ n s c e. ground (arith, checked_ok (record { amount = n; symbol = s }) c e);
  add_ok = λ a b c e. ground (arith, checked_ok (Sum a b) c);
  add_total = λ a b e p. ground (arith, checked_total (Sum a b) p);
  sub_ok = λ a b c e. ground (arith, checked_ok (Difference a b) c);
  sub_total = λ a b e p. ground (arith, checked_total (Difference a b) p);
}
