-- ===== src/System/Rex/Rented.antt =====
-- The surplus of eosio.rex over the actions of contracts/eosio.system/src/rex.cpp on loans.
use telos_arbitration_fix.Prelude.{ℕ, ◌+◌, ◌≡◌, refl, ap, inl, inr, true, some, arith, Option-cases}
use telos_arbitration_fix.Prelude.Int.{ℤ, pos, pos_part, neg_part, ◌+ℤ◌, ◌-ℤ◌, ◌≤ℤ◌, int_laws}
use telos_arbitration_fix.Eosio.{
  Result-cases, ok, Table, find, insert, emplace, modify, Name, Asset, IsDocumented,
}
use telos_arbitration_fix.Eosio.Sums.{sum_of-insert, sum_of-modify}
use telos_arbitration_fix.System.{Chain}
use telos_arbitration_fix.System.Rex.{RexLoan, RexState}
use telos_arbitration_fix.System.Rex.Pool.{get_bancor_output, set_pool, add_loan_to_rex_pool}
use telos_arbitration_fix.System.Rex.Funds.{transfer_from_fund, transfer_to_fund}
use telos_arbitration_fix.System.Rex.Loans.{
  Resource, loans, set_loans, change_limit, thirty_days, runrex, new_loan, lend, rent_rex,
  running_loan, change_balance, fund_rex_loan, defund_rex_loan,
}
use telos_arbitration_fix.System.Rex.Actions.{rent, fund_loan, def_loan}
use telos_arbitration_fix.System.Rex.Surplus.{
  NonNegative-find, NonNegative-insert, NonNegative-modify, IsBalanced, IsSound, Brings,
  transfer_from_fund-Brings, transfer_to_fund-Brings,
}
use telos_arbitration_fix.System.Rex.Settled.{change_limit-Brings}
use telos_arbitration_fix.System.Rex.Renewed.{
  balance_of, IsSound-covered, set_loans-Brings, set_pool-Brings, loans-set_pool, add_loan-lendable,
  add_loan-IsBalanced,
}
use telos_arbitration_fix.System.Rex.Executed.{runrex-Brings}
use telos_arbitration_fix.Prelude.{subst}

emplace-insert :
    (k : ℕ) (l : RexLoan) (t u : Table RexLoan) → emplace k l t ≡ ok u → u ≡ insert k l t
emplace-insert k l t u e = elim (Option-cases (find k t)) [
  | inl h ↦ ground (arith, h)
  | inr (m, h) ↦ absurd (ground (arith, h))
]

lend-Brings :
    (c : Chain) (r : Resource) (from receiver : Name) (x y z : ℤ) (s s' : RexState)
    → IsSound s
    → pos 0 ≤ℤ y
    → lend c r from receiver x y s ≡ ok (z, s')
    → Brings (pos 0 -ℤ (x +ℤ y)) s s'
unfolding lend
lend-Brings c r from receiver x y z s s' sound enough e = elim (Option-cases s.rexpool) [
  | inl h ↦ absurd (ground (arith, h))
  | inr (p, h) ↦
      let n = get_bancor_output c p.total_rent p.total_unlent x in
      let q = add_loan_to_rex_pool x n true p in
      let row = new_loan from receiver x y n (c.host.now_us + thirty_days) in
      elim (Result-cases (emplace q.loan_num row (loans r s))) [
        | inr (m, failed) ↦ absurd (ground (arith, h, failed))
        | inl (t, placed) ↦
            let out : s' ≡ set_loans r t (set_pool q s) = ground (arith, h, placed) in
            let balanced : IsBalanced (some p) = subst (λ o. IsBalanced o) h sound.balanced in
            let first =
              set_pool-Brings q x s sound (add_loan-IsBalanced x n true p)
                (rw h (add_loan-lendable x n true p balanced)) in
            let rows = loans-set_pool r q s in
            let table = emplace-insert q.loan_num row (loans r s) t placed in
            let second =
              set_loans-Brings r t y (set_pool q s) first.1
                (rw table (
                  NonNegative-insert balance_of q.loan_num row (loans r s)
                    (IsSound-covered r s sound) enough))
                (rw (table, rows) (sum_of-insert balance_of q.loan_num row (loans r s))) in
            rw out (both _ _ _ x y first.0 second.0, second.1)
      ]
]
  where
    both :
        (a b c x y : ℤ)
        → b ≡ a +ℤ (pos 0 -ℤ x)
        → c ≡ b +ℤ (pos 0 -ℤ y)
        → c ≡ a +ℤ (pos 0 -ℤ (x +ℤ y))
    both a b c x y h k =
        omega (int_laws, ap pos_part h, ap neg_part h, ap pos_part k, ap neg_part k)

-- A loan of that number changes its balance.
change_loan-Brings :
    (r : Resource) (k : ℕ) (loan : RexLoan) (x : ℤ) (s : RexState)
    → IsSound s
    → find k (loans r s) ≡ some loan
    → pos 0 ≤ℤ loan.balance +ℤ x
    → Brings (pos 0 -ℤ x) s (set_loans r (modify k (change_balance x) (loans r s)) s)
change_loan-Brings r k loan x s sound found enough =
    set_loans-Brings r (modify k (change_balance x) (loans r s)) x s sound
      (NonNegative-modify balance_of (change_balance x) k (loans r s) loan
        (IsSound-covered r s sound) found enough)
      (more _ loan.balance _ x
        (sum_of-modify balance_of (change_balance x) k (loans r s) loan found))
  where
    more : (m b t x : ℤ) → m +ℤ b ≡ t +ℤ (b +ℤ x) → m ≡ t +ℤ x
    more m b t x h = omega (int_laws, ap pos_part h, ap neg_part h)

pub rent-Brings :
    (c : Chain) (r : Resource) (from receiver : Name) (payment fund : Asset) (s s' : RexState)
    → IsDocumented c.host
    → IsSound s
    → rent c r from receiver payment fund s ≡ ok s'
    → Brings (pos 0) s s'
unfolding rent rent_rex
rent-Brings c r from receiver payment fund s s' doc sound e = elim (Result-cases (runrex c 2 s)) [
  | inr (m, failed) ↦ absurd (ground (arith, failed))
  | inl (s₁, ran) ↦ elim (Result-cases (c.host.asset_add payment fund)) [
    | inr (m, failed) ↦ absurd (ground (arith, ran, failed))
    | inl (sum, added) ↦ elim (Result-cases (transfer_from_fund from sum.amount s₁)) [
      | inr (m, failed) ↦ absurd (ground (arith, ran, added, failed))
      | inl (s₂, taken) ↦
          elim (Result-cases (lend c r from receiver payment.amount fund.amount s₂)) [
            | inr (m, failed) ↦ absurd (ground (arith, ran, added, taken, failed))
            | inl ((z, s₃), lent) ↦
                let limited : change_limit r receiver z s₃ ≡ ok s' =
                  ground (arith, ran, added, taken, lent) in
                let enough : pos 0 ≤ℤ fund.amount = ground (arith, ran, added, taken, lent) in
                let (_, whole, _) = doc.add_ok payment fund sum added in
                let f = runrex-Brings c 2 s s₁ sound ran in
                let g = transfer_from_fund-Brings from sum.amount s₁ s₂ f.1 taken in
                let h =
                  lend-Brings c r from receiver payment.amount fund.amount z s₂ s₃ g.1 enough
                    lent in
                let i = change_limit-Brings r receiver z s₃ s' h.1 limited in
                (
                  level _ _ _ _ _ sum.amount (payment.amount +ℤ fund.amount) f.0 g.0 h.0 i.0
                      (ap (λ (a : Asset). a.amount) whole),
                  i.1,
                )
          ]
    ]
  ]
]
  where
    level :
        (a b c d e x y : ℤ)
        → b ≡ a +ℤ pos 0
        → c ≡ b +ℤ x
        → d ≡ c +ℤ (pos 0 -ℤ y)
        → e ≡ d +ℤ pos 0
        → x ≡ y
        → e ≡ a +ℤ pos 0
    level a b c d e x y h i j k l = omega (
      int_laws,
      ap pos_part h,
      ap neg_part h,
      ap pos_part i,
      ap neg_part i,
      ap pos_part j,
      ap neg_part j,
      ap pos_part k,
      ap neg_part k,
      ap pos_part l,
      ap neg_part l,
    )

running_loan-found :
    (c : Chain) (r : Resource) (from : Name) (k : ℕ) (s : RexState) (loan : RexLoan)
    → running_loan c r from k s ≡ ok loan
    → find k (loans r s) ≡ some loan
unfolding running_loan
running_loan-found c r from k s loan e = elim (Option-cases (find k (loans r s))) [
  | inl h ↦ absurd (ground (arith, h))
  | inr (l, h) ↦ let same : l ≡ loan = ground (arith, h) in rw (h, same) refl
]

taken_positive :
    (owner : Name) (x : ℤ) (s s' : RexState) → transfer_from_fund owner x s ≡ ok s' → pos 0 ≤ℤ x
unfolding transfer_from_fund
taken_positive owner x s s' e = ground arith

pub fund_loan-Brings :
    (c : Chain) (r : Resource) (from : Name) (k : ℕ) (payment : Asset) (s s' : RexState)
    → IsSound s
    → fund_loan c r from k payment s ≡ ok s'
    → Brings (pos 0) s s'
unfolding fund_loan fund_rex_loan
fund_loan-Brings c r from k payment s s' sound e =
    let x = payment.amount in
    elim (Result-cases (transfer_from_fund from x s)) [
      | inr (m, failed) ↦ absurd (ground (arith, failed))
      | inl (s₁, taken) ↦ elim (Result-cases (running_loan c r from k s₁)) [
        | inr (m, failed) ↦ absurd (ground (arith, taken, failed))
        | inl (loan, runs) ↦
            let out : s' ≡ set_loans r (modify k (change_balance x) (loans r s₁)) s₁ =
              ground (arith, taken, runs) in
            let first = transfer_from_fund-Brings from x s s₁ sound taken in
            let found = running_loan-found c r from k s₁ loan runs in
            let old =
              NonNegative-find balance_of k (loans r s₁) loan (IsSound-covered r s₁ first.1)
                found in
            let second =
              change_loan-Brings r k loan x s₁ first.1 found
                (sum loan.balance x old (taken_positive from x s s₁ taken)) in
            rw out (level _ _ _ x first.0 second.0, second.1)
      ]
    ]
  where
    sum : (a x : ℤ) → pos 0 ≤ℤ a → pos 0 ≤ℤ x → pos 0 ≤ℤ a +ℤ x
    sum a x h k = omega int_laws

    level : (a b c x : ℤ) → b ≡ a +ℤ x → c ≡ b +ℤ (pos 0 -ℤ x) → c ≡ a +ℤ pos 0
    level a b c x h k = omega (int_laws, ap pos_part h, ap neg_part h, ap pos_part k, ap neg_part k)

pub def_loan-Brings :
    (c : Chain) (r : Resource) (from : Name) (k : ℕ) (amount : Asset) (s s' : RexState)
    → IsSound s
    → def_loan c r from k amount s ≡ ok s'
    → Brings (pos 0) s s'
unfolding def_loan defund_rex_loan
def_loan-Brings c r from k amount s s' sound e =
    let x = amount.amount in
    elim (Result-cases (running_loan c r from k s)) [
      | inr (m, failed) ↦ absurd (ground (arith, failed))
      | inl (loan, runs) ↦
          let s₁ = set_loans r (modify k (change_balance (pos 0 -ℤ x)) (loans r s)) s in
          let paid : transfer_to_fund from x s₁ ≡ ok s' = ground (arith, runs) in
          let enough : x ≤ℤ loan.balance = ground (arith, runs) in
          let found = running_loan-found c r from k s loan runs in
          let first =
            change_loan-Brings r k loan (pos 0 -ℤ x) s sound found (rest loan.balance x enough) in
          let second = transfer_to_fund-Brings from x s₁ s' first.1 paid in
          (level _ _ _ x first.0 second.0, second.1)
    ]
  where
    rest : (a x : ℤ) → x ≤ℤ a → pos 0 ≤ℤ a +ℤ (pos 0 -ℤ x)
    rest a x h = omega int_laws

    level :
        (a b c x : ℤ) → b ≡ a +ℤ (pos 0 -ℤ (pos 0 -ℤ x)) → c ≡ b +ℤ (pos 0 -ℤ x) → c ≡ a +ℤ pos 0
    level a b c x h k = omega (int_laws, ap pos_part h, ap neg_part h, ap pos_part k, ap neg_part k)
