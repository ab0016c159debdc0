-- ===== src/Token/Transfer.antt =====
-- What `transfer` of eosio.token does to each balance.
use telos_arbitration_fix.Prelude.{
  ◌≡◌, ◌≢◌, refl, ◌∙◌, inl, inr, Option-cases, [], ◌∷◌, ◌++◌, String, ◌==◌, if◌then◌else◌, arith,
}
use telos_arbitration_fix.Prelude.Int.{ℤ, pos, ◌+ℤ◌, ◌-ℤ◌, ◌≤ℤ◌, int_laws}
use telos_arbitration_fix.Eosio.{Result-cases, ok, Name, Asset, Host, IsDocumented}
use telos_arbitration_fix.Eosio.Accounts.{balance_of}
use telos_arbitration_fix.Token.Types.{Ledger}
use telos_arbitration_fix.Token.Supply.{share, add_balance-Moved, sub_balance-Moved}
use telos_arbitration_fix.Token.Actions.{find_stats, sub_balance, add_balance, transfer}

share_self : (q : Asset) → share q.symbol.code q ≡ q.amount
share_self q = ground arith

plus_minus : (a b : ℤ) → a +ℤ (pos 0 -ℤ b) ≡ a -ℤ b
plus_minus a b = omega int_laws

-- On a documented host, a transfer that succeeds goes from one account to another, takes a
-- positive amount that the sender has, adds it to the receiver, changes no third balance of the
-- token and no supply, and notifies both parties.
pub transfer_moves :
    (h : Host) (from to o : Name) (q : Asset) (m : String) (s s' : Ledger)
    → IsDocumented h
    → transfer h from to q m s ≡ ok s'
    → let code = q.symbol.code in
      (from ≢ to)
      × (pos 1 ≤ℤ q.amount)
      × (q.amount ≤ℤ balance_of s.accounts from code)
      × (balance_of s'.accounts o code ≡ (
          if o == from
          then balance_of s.accounts o code -ℤ q.amount
          else (if o == to
              then balance_of s.accounts o code +ℤ q.amount
              else balance_of s.accounts o code)))
      × (s'.stats ≡ s.stats)
      × (s'.notified ≡ s.notified ++ from ∷ to ∷ [])
unfolding transfer
transfer_moves h from to o q m s s' d e = elim (Option-cases (find_stats q.symbol.code s)) [
  | inl n ↦ ground arith
  | inr (st, n) ↦ elim (Result-cases (sub_balance h from q s.accounts)) [
    | inr (w, p) ↦ ground arith
    | inl (t, p) ↦ elim (Result-cases (add_balance h to q t)) [
      | inr (w, r) ↦ ground arith
      | inl (u, r) ↦
          let code = q.symbol.code in
          let out : record s { accounts = u; notified = s.notified ++ from ∷ to ∷ [] } ≡ s' =
            ground arith in
          let (left, le) = sub_balance-Moved h from code q s.accounts t d p in
          let came = add_balance-Moved h to code q t u d r in
          let apart : from ≢ to = ground arith in
          let share = share_self q in
          let before = balance_of s.accounts from code in
          let paid : balance_of t from code ≡ before -ℤ q.amount =
            left.own ∙ (rw share (plus_minus before q.amount)) in
          rw (← out) (
            apart,
            ground arith,
            le,
            ground (arith, came.others o, came.own, left.others o, left.others to, paid, share),
            refl,
            refl,
          )
    ]
  ]
]
