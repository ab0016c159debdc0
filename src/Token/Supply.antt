-- ===== src/Token/Supply.antt =====
-- The supply of a token and the balances of its holders, under every action.
use telos_arbitration_fix.Prelude.{
  ℕ, ◌≡◌, ◌≢◌, ap, inl, inr, Option-cases, ◌==◌, if◌then◌else◌, arith,
}
use telos_arbitration_fix.Prelude.Int.{ℤ, pos, pos_part, neg_part, ◌+ℤ◌, ◌-ℤ◌, ◌≤ℤ◌, int_laws}
use telos_arbitration_fix.Eosio.{
  Result-cases, ok, Table, find, insert, modify, put, scope, Asset, Host, IsDocumented, find-insert,
  find-modify, scope-put,
}
use telos_arbitration_fix.Eosio.Accounts.{amount_of, balance_of, total, total-put}
use telos_arbitration_fix.Token.Actions.{sub_balance, add_balance}

-- The amount where the codes agree, and else zero.
abbrev pub share : ℕ → Asset → ℤ
share code v = if v.symbol.code == code then v.amount else pos 0

-- Storing a row moves the balance of the owner and the sum over all owners alike.
module _ (code owner : ℕ) (u : Table Asset) (t : Table (Table Asset)) (x : ℤ) where
  total-put_add :
      amount_of (find code u) ≡ balance_of t owner code +ℤ x
      → total code (put owner u t) ≡ total code t +ℤ x
  total-put_add e = omega (
    int_laws,
    ap pos_part e,
    ap neg_part e,
    ap pos_part (total-put code owner u t),
    ap neg_part (total-put code owner u t),
  )

  balance_of-put :
      (o : ℕ)
      → balance_of (put owner u t) o code
        ≡ (if owner == o then amount_of (find code u) else balance_of t o code)
  unfolding balance_of
  balance_of-put o = ground (arith, scope-put o owner u t)

pub add_zero : (a : ℤ) → a +ℤ pos 0 ≡ a
add_zero a = omega int_laws

pub zero_add : (a : ℤ) → pos 0 +ℤ a ≡ a
zero_add a = omega int_laws

sub_zero : (a : ℤ) → a -ℤ pos 0 ≡ a
sub_zero a = omega int_laws

-- What a change of the balances has done to one token.
pub record Moved (code owner : ℕ) (x : ℤ) (t u : Table (Table Asset)) : Type 0 where
  pub sum : total code u ≡ total code t +ℤ x
  pub own : balance_of u owner code ≡ balance_of t owner code +ℤ x
  pub others : (o : ℕ) → o ≢ owner → balance_of u o code ≡ balance_of t o code

pub put-Moved :
    (code owner : ℕ) (w : Table Asset) (t : Table (Table Asset)) (x : ℤ)
    → amount_of (find code w) ≡ balance_of t owner code +ℤ x
    → Moved code owner x t (put owner w t)
put-Moved code owner w t x e = record {
  sum = total-put_add code owner w t x e;
  own = ground (arith, balance_of-put code owner w t x owner);
  others = λ o ne. ground (arith, balance_of-put code owner w t x o);
}

pub add_balance-Moved :
    (h : Host) (owner code : ℕ) (v : Asset) (t u : Table (Table Asset))
    → IsDocumented h
    → add_balance h owner v t ≡ ok u
    → Moved code owner (share code v) t u
unfolding add_balance balance_of
add_balance-Moved h owner code v t u d e =
    let acnts = scope owner t in
    elim (Option-cases (find v.symbol.code acnts)) [
      | inl n ↦
          let row = insert v.symbol.code v acnts in
          let stored : put owner row t ≡ u = ground arith in
          rw (← stored) (
            put-Moved code owner row t (share code v) (
              ground (
                arith,
                find-insert code v.symbol.code v acnts,
                zero_add v.amount,
                add_zero (amount_of (find code acnts)),
              )))
      | inr (b, n) ↦ elim (Result-cases (h.asset_add b v)) [
        | inr (m, p) ↦ ground arith
        | inl (c, p) ↦
            let row = modify v.symbol.code (λ _. c) acnts in
            let stored : put owner row t ≡ u = ground arith in
            rw (← stored) (
              put-Moved code owner row t (share code v) (
                ground (
                  arith,
                  d.add_ok b v c p,
                  find-modify code v.symbol.code (λ _. c) acnts,
                  add_zero (amount_of (find code acnts)),
                )))
      ]
    ]

sub_as_add : (a b : ℤ) → a -ℤ b ≡ a +ℤ (pos 0 -ℤ b)
sub_as_add a b = omega int_laws

pub sub_balance-Moved :
    (h : Host) (owner code : ℕ) (v : Asset) (t u : Table (Table Asset))
    → IsDocumented h
    → sub_balance h owner v t ≡ ok u
    → Moved code owner (pos 0 -ℤ share code v) t u × (v.amount ≤ℤ balance_of t owner v.symbol.code)
unfolding sub_balance balance_of
sub_balance-Moved h owner code v t u d e =
    let acnts = scope owner t in
    elim (Option-cases (find v.symbol.code acnts)) [
      | inl n ↦ ground arith
      | inr (b, n) ↦ elim (Result-cases (h.asset_sub b v)) [
        | inr (m, p) ↦ ground arith
        | inl (c, p) ↦
            let row = modify v.symbol.code (λ _. c) acnts in
            let stored : put owner row t ≡ u = ground arith in
            (
              rw (← stored) (
                  put-Moved code owner row t (pos 0 -ℤ share code v) (
                    ground (
                      arith,
                      d.sub_ok b v c p,
                      find-modify code v.symbol.code (λ _. c) acnts,
                      sub_as_add b.amount v.amount,
                      sub_zero (pos 0),
                      add_zero (amount_of (find code acnts)),
                    ))),
              ground arith,
            )
      ]
    ]
