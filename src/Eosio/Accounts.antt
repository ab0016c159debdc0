-- ===== src/Eosio/Accounts.antt =====
-- Balances in a table scoped by their owners and keyed by token codes, as eosio.token and the
-- arbitration contract keep them: the amount of one owner, and the sum over all.
use telos_arbitration_fix.Prelude.{ℕ, ◌≡◌, Option, none, some, arith, Option-cases}
use telos_arbitration_fix.Prelude.Int.{ℤ, pos, ◌+ℤ◌}
use telos_arbitration_fix.Eosio.Platform.{Name, Asset}
use telos_arbitration_fix.Eosio.MultiIndex.{Table, find, put, scope}
use telos_arbitration_fix.Eosio.Sums.{sum_of, sum_of-put}

abbrev pub amount_of : Option Asset → ℤ
amount_of none = pos 0
amount_of (some a) = a.amount

-- What an owner has of a token.
unfoldable pub balance_of : Table (Table Asset) → Name → ℕ → ℤ
balance_of t owner code = amount_of (find code (scope owner t))

-- What all owners have of a token.
unfoldable pub total : ℕ → Table (Table Asset) → ℤ
unfolding sum_of
total code t = sum_of (λ u. amount_of (find code u)) t

-- Storing one owner's balances moves the sum by what the owner gains.
pub total-put :
    (code k : ℕ) (u : Table Asset) (t : Table (Table Asset))
    → total code (put k u t) +ℤ balance_of t k code ≡ total code t +ℤ amount_of (find code u)
unfolding balance_of total
total-put code k u t =
    ground (arith, Option-cases (find k t), sum_of-put (λ u. amount_of (find code u)) k u t)
