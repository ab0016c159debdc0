-- ===== src/Token/Sound.antt =====
-- The books of eosio.token balance: the supply of a token is the sum of what its holders have, no
-- holder has less than nothing, and the supply is at most its maximum.
use telos_arbitration_fix.Prelude.{
  ℕ, ◌≡◌, inl, inr, true, Option-cases, Bool-cases, Option, none, some, String, ◌==◌, if◌then◌else◌,
  arith,
}
use telos_arbitration_fix.Prelude.Int.{ℤ, pos, ◌+ℤ◌, ◌-ℤ◌, ◌≤ℤ◌, ltb_ℤ, int_laws}
use telos_arbitration_fix.Eosio.{
  Result-cases, ok, Table, insert, modify, put, scope, Name, Asset, Host, IsDocumented, find-insert,
  find-modify, scope-put,
}
use telos_arbitration_fix.Eosio.Accounts.{balance_of, total}
use telos_arbitration_fix.Token.Types.{CurrencyStats, Ledger}
use telos_arbitration_fix.Token.Supply.{share, Moved, add_balance-Moved, add_zero}
use telos_arbitration_fix.Token.Actions.{find_stats, put_stats, create, add_balance, issue}

abbrev pub supply_of : Option CurrencyStats → ℤ
supply_of none = pos 0
supply_of (some st) = st.supply.amount

abbrev pub Capped : Option CurrencyStats → Type 0
Capped none = Unit
Capped (some st) = st.supply.amount ≤ℤ st.max_supply.amount

-- No owner has less than nothing.
pub data Nonneg (code : ℕ) (t : Table (Table Asset)) : Type 0 where
  nonneg : ((o : Name) → pos 0 ≤ℤ balance_of t o code) → Nonneg code t

pub record IsSound (code : ℕ) (s : Ledger) : Type 0 where
  pub backed : supply_of (find_stats code s) ≡ total code s.accounts
  pub covered : Nonneg code s.accounts
  pub capped : Capped (find_stats code s)

pub Moved-Nonneg :
    (code owner : ℕ) (x : ℤ) (t u : Table (Table Asset))
    → Moved code owner x t u
    → pos 0 ≤ℤ balance_of t owner code +ℤ x
    → Nonneg code t
    → Nonneg code u
Moved-Nonneg code owner x t u m p (nonneg n) = nonneg λ o. elim (Bool-cases (o == owner)) [
  | inl e ↦ ground (arith, m.own)
  | inr e ↦ ground (arith, m.others o, n o)
]

pub balance_nonneg :
    {code : ℕ} {t : Table (Table Asset)} → Nonneg code t → (o : Name) → pos 0 ≤ℤ balance_of t o code
balance_nonneg (nonneg n) = n

pub find_put_stats :
    (code k : ℕ) (st old : CurrencyStats) (s : Ledger)
    → find_stats k s ≡ some old
    → find_stats code (put_stats k st s) ≡ (if k == code then some st else find_stats code s)
find_put_stats code k st old s e = ground (
  arith,
  scope-put code k (modify k (λ _. st) (scope k s.stats)) s.stats,
  find-modify code k (λ _. st) (scope k s.stats),
)

pub share_nonneg : (code : ℕ) (v : Asset) → ltb_ℤ (pos 0) v.amount ≡ true → pos 0 ≤ℤ share code v
share_nonneg code v p = ground arith

pub sum_nonneg : (a b : ℤ) → pos 0 ≤ℤ a → pos 0 ≤ℤ b → pos 0 ≤ℤ a +ℤ b
sum_nonneg a b p q = omega int_laws

pub difference_nonneg : (a b : ℤ) → b ≤ℤ a → pos 0 ≤ℤ a +ℤ (pos 0 -ℤ b)
difference_nonneg a b p = omega int_laws

pub within_cap : (supply max q : ℤ) → q ≤ℤ max -ℤ supply → supply +ℤ q ≤ℤ max
within_cap supply max q p = omega int_laws

pub below_cap : (supply max q : ℤ) → supply ≤ℤ max → pos 0 ≤ℤ q → supply -ℤ q ≤ℤ max
below_cap supply max q p n = omega int_laws

pub sub_as_add : (a b : ℤ) → a -ℤ b ≡ a +ℤ (pos 0 -ℤ b)
sub_as_add a b = omega int_laws

pub minus_zero : (a : ℤ) → a +ℤ (pos 0 -ℤ pos 0) ≡ a
minus_zero a = omega int_laws

module _ (code : ℕ) (h : Host) (d : IsDocumented h) (s s' : Ledger) (v : IsSound code s) where
  pub create-IsSound : (i : Name) (m : Asset) → create h i m s ≡ ok s' → IsSound code s'
  unfolding create
  create-IsSound i m e =
      let k = m.symbol.code in
      let st : CurrencyStats = record {
        supply = record { amount = pos 0; symbol = m.symbol };
        max_supply = m;
        issuer = i;
      } in
      let placed = insert k st (scope k s.stats) in
      let out : record s { stats = put k placed s.stats } ≡ s' = ground arith in
      let new = scope-put code k placed s.stats in
      let absent : find_stats k s ≡ none = ground arith in
      let got = find-insert code k st (scope k s.stats) absent in
      rw (← out) (record {
        backed = ground (arith, v.backed, new, got);
        covered = v.covered;
        capped = ground (arith, v.capped, new, got);
      })

  pub issue-IsSound :
      (to : Name) (q : Asset) (m : String) → issue h to q m s ≡ ok s' → IsSound code s'
  unfolding issue
  issue-IsSound to q m e =
      let k = q.symbol.code in
      elim (Option-cases (find_stats k s)) [
        | inl n ↦ ground arith
        | inr (st, n) ↦ elim (Result-cases (h.asset_add st.supply q)) [
          | inr (w, p) ↦ ground arith
          | inl (supply, p) ↦ elim (Result-cases (add_balance h st.issuer q s.accounts)) [
            | inr (w, r) ↦ ground arith
            | inl (u, r) ↦
                let st' = record st { supply = supply } in
                let out : record (put_stats k st' s) { accounts = u } ≡ s' = ground arith in
                let moved = add_balance-Moved h st.issuer code q s.accounts u d r in
                let stats = find_put_stats code k st' st s n in
                let positive : ltb_ℤ (pos 0) q.amount ≡ true = ground arith in
                let fits : q.amount ≤ℤ st.max_supply.amount -ℤ st.supply.amount = ground arith in
                rw (← out) (record {
                  backed = ground (
                    arith,
                    v.backed,
                    stats,
                    moved.sum,
                    d.add_ok st.supply q supply p,
                    add_zero (total code s.accounts),
                  );
                  covered =
                      Moved-Nonneg code st.issuer (share code q) s.accounts u moved
                        (sum_nonneg _ _ (balance_nonneg v.covered st.issuer)
                          (share_nonneg code q positive))
                        v.covered;
                  capped = ground (
                    arith,
                    v.capped,
                    stats,
                    d.add_ok st.supply q supply p,
                    within_cap st.supply.amount st.max_supply.amount q.amount fits,
                  );
                })
          ]
        ]
      ]
