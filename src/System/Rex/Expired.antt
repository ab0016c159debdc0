-- ===== src/System/Rex/Expired.antt =====
-- The surplus of eosio.rex over the loop of contracts/eosio.system/src/rex.cpp on the loans that
-- have expired.
use telos_arbitration_fix.Prelude.{
  ℕ, zero, suc, ◌≡◌, refl, ap, subst, ◌∙◌, inl, inr, Bool, true, false, ◌&&◌, some, arith,
  Bool-cases, Option-cases, String, if◌then◌else◌,
}
use telos_arbitration_fix.Prelude.Int.{
  ℤ, pos, pos_part, neg_part, ◌+ℤ◌, ◌-ℤ◌, ◌≤ℤ◌, int_laws, ltb_ℤ, leb_ℤ, eqb_ℤ,
}
use telos_arbitration_fix.Eosio.{Result-cases, ok, err, find, modify, remove}
use telos_arbitration_fix.Eosio.Sums.{sum_of-modify, sum_of-remove}
use telos_arbitration_fix.System.{Chain}
use telos_arbitration_fix.System.Rex.{RexPool, RexLoan, RexState}
use telos_arbitration_fix.System.Rex.Pool.{
  get_bancor_output, set_pool, add_loan_to_rex_pool, remove_loan_from_rex_pool,
}
use telos_arbitration_fix.System.Rex.Funds.{fund_positive}
use telos_arbitration_fix.System.Rex.Loans.{
  Resource, loans, set_loans, change_limit, rex_loans_available, renewed, update_renewed_loan,
  expired, process_expired_loan, run_loan, run_loans,
}
use telos_arbitration_fix.System.Rex.Surplus.{
  NonNegative-find, NonNegative-modify, NonNegative-remove, IsBalanced, IsSound, Brings, surplus,
}
use telos_arbitration_fix.System.Rex.Settled.{
  Brings-nothing, Brings-same, change_limit-Brings, fund_positive-Brings,
}
use telos_arbitration_fix.System.Rex.Renewed.{
  balance_of, IsSound-covered, set_loans-Brings, set_pool-Brings, loans-set_pool,
  loans-fund_positive, loans-change_limit, remove_loan-lendable, add_loan-lendable,
  remove_loan-IsBalanced, add_loan-IsBalanced,
}

-- How a loan ends: what is left of it once its receiver's limit is changed.
finish_loan :
    (c : Chain) (r : Resource) (k : ℕ) (loan : RexLoan) (s u s' : RexState) (gone : Bool) (d : ℤ)
    → IsSound u
    → process_expired_loan c r k loan s ≡ ok (gone, d, u)
    → run_loan c r k loan s ≡ ok s'
    → (v : RexState) × (Brings (pos 0) u v)
      × (loans r v ≡ loans r u)
      × (s' ≡ (if gone then set_loans r (remove k (loans r v)) v else v))
unfolding run_loan
finish_loan c r k loan s u s' gone d sound e run = elim (Bool-cases (eqb_ℤ d (pos 0))) [
  | inl same ↦ (u, Brings-same u sound, refl, ground (arith, e, same))
  | inr changed ↦ elim (Result-cases (change_limit r loan.receiver d u)) [
    | inr (m, failed) ↦ absurd (ground (arith, e, changed, failed))
    | inl (v, done) ↦ (
      v,
      change_limit-Brings r loan.receiver d u v sound done,
      loans-change_limit r r loan.receiver d u v done,
      ground (arith, e, changed, done),
    )
  ]
]

-- The pool without the loan.
without_loan :
    (c : Chain) (loan : RexLoan) (p : RexPool) (s : RexState)
    → IsSound s
    → s.rexpool ≡ some p
    → Brings (pos 0 -ℤ pos 0) s (set_pool (remove_loan_from_rex_pool c loan p) s)
without_loan c loan p s sound h =
    set_pool-Brings (remove_loan_from_rex_pool c loan p) (pos 0) s sound
      (remove_loan-IsBalanced c loan p)
      (rw h (remove_loan-lendable c loan p (subst (λ o. IsBalanced o) h sound.balanced)))

-- A loan that is closed gives its balance back.
close-Brings :
    (c : Chain) (r : Resource) (k : ℕ) (loan : RexLoan) (p : RexPool) (s s₂ s' : RexState) (d : ℤ)
    → IsSound s
    → s.rexpool ≡ some p
    → find k (loans r s) ≡ some loan
    → fund_positive loan.from loan.balance (set_pool (remove_loan_from_rex_pool c loan p) s) ≡ ok s₂
    → process_expired_loan c r k loan s ≡ ok (true, d, s₂)
    → run_loan c r k loan s ≡ ok s'
    → Brings (pos 0) s s'
close-Brings c r k loan p s s₂ s' d sound hp found paid e run =
    let s₁ = set_pool (remove_loan_from_rex_pool c loan p) s in
    let first = without_loan c loan p s sound hp in
    let enough = NonNegative-find balance_of k (loans r s) loan (IsSound-covered r s sound) found in
    let second = fund_positive-Brings loan.from loan.balance s₁ s₂ first.1 enough paid in
    let (v, third, same, out) = finish_loan c r k loan s s₂ s' true d second.1 e run in
    let rows : loans r v ≡ loans r s =
      same
      ∙ loans-fund_positive r loan.from loan.balance s₁ s₂ paid
      ∙ loans-set_pool r (remove_loan_from_rex_pool c loan p) s in
    let here : find k (loans r v) ≡ some loan = rw rows found in
    let fewer = sum_of-remove balance_of k (loans r v) loan here in
    let left =
      set_loans-Brings r (remove k (loans r v)) (pos 0 -ℤ loan.balance) v third.1
        (NonNegative-remove balance_of k (loans r v) (IsSound-covered r v third.1))
        (drop _ loan.balance _ fewer) in
    rw out (
      total (surplus s) (surplus s₁) (surplus s₂) (surplus v) _ loan.balance first.0 second.0
          third.0 left.0,
      left.1,
    )
  where
    drop : (m b t : ℤ) → m +ℤ b ≡ t → m ≡ t +ℤ (pos 0 -ℤ b)
    drop m b t h = omega (int_laws, ap pos_part h, ap neg_part h)

    total :
        (a b c d e x : ℤ)
        → b ≡ a +ℤ (pos 0 -ℤ pos 0)
        → c ≡ b +ℤ (pos 0 -ℤ x)
        → d ≡ c +ℤ pos 0
        → e ≡ d +ℤ (pos 0 -ℤ (pos 0 -ℤ x))
        → e ≡ a +ℤ pos 0
    total a b c d e x h i j k = omega (
      int_laws,
      ap pos_part h,
      ap neg_part h,
      ap pos_part i,
      ap neg_part i,
      ap pos_part j,
      ap neg_part j,
      ap pos_part k,
      ap neg_part k,
    )

-- A loan that is renewed pays the pool from its balance.
renew-Brings :
    (c : Chain) (r : Resource) (k : ℕ) (loan : RexLoan) (p : RexPool) (s s' : RexState) (d x : ℤ)
    → IsSound s
    → s.rexpool ≡ some p
    → find k (loans r s) ≡ some loan
    → loan.payment ≤ℤ loan.balance
    → process_expired_loan c r k loan s
      ≡ ok (
        false,
        d,
        update_renewed_loan r k x (
            set_pool
              (add_loan_to_rex_pool loan.payment x false (remove_loan_from_rex_pool c loan p))
              (set_pool (remove_loan_from_rex_pool c loan p) s)),
      )
    → run_loan c r k loan s ≡ ok s'
    → Brings (pos 0) s s'
unfolding update_renewed_loan
renew-Brings c r k loan p s s' d x sound hp found enough e run =
    let q = remove_loan_from_rex_pool c loan p in
    let q' = add_loan_to_rex_pool loan.payment x false q in
    let s₁ = set_pool q s in
    let s₂ = set_pool q' s₁ in
    let first = without_loan c loan p s sound hp in
    let second =
      set_pool-Brings q' loan.payment s₁ first.1 (add_loan-IsBalanced loan.payment x false q)
        (add_loan-lendable loan.payment x false q (remove_loan-IsBalanced c loan p)) in
    let rows : loans r s₂ ≡ loans r s = loans-set_pool r q' s₁ ∙ loans-set_pool r q s in
    let here : find k (loans r s₂) ≡ some loan = rw rows found in
    let t = modify k (renewed x) (loans r s₂) in
    let third =
      set_loans-Brings r t (pos 0 -ℤ loan.payment) s₂ second.1
        (NonNegative-modify balance_of (renewed x) k (loans r s₂) loan
          (IsSound-covered r s₂ second.1) here (covers loan.payment loan.balance enough))
        (drop _ loan.balance _ loan.payment
          (sum_of-modify balance_of (renewed x) k (loans r s₂) loan here)) in
    let (v, fourth, same, out) =
      finish_loan c r k loan s (set_loans r t s₂) s' false d third.1 e run in
    rw out (
      total (surplus s) (surplus s₁) (surplus s₂) (surplus (set_loans r t s₂)) (surplus v)
          loan.payment first.0 second.0 third.0 fourth.0,
      fourth.1,
    )
  where
    covers : (x b : ℤ) → x ≤ℤ b → pos 0 ≤ℤ b -ℤ x
    covers x b h = omega int_laws

    drop : (m b t x : ℤ) → m +ℤ b ≡ t +ℤ (b -ℤ x) → m ≡ t +ℤ (pos 0 -ℤ x)
    drop m b t x h = omega (int_laws, ap pos_part h, ap neg_part h)

    total :
        (a b c d e x : ℤ)
        → b ≡ a +ℤ (pos 0 -ℤ pos 0)
        → c ≡ b +ℤ (pos 0 -ℤ x)
        → d ≡ c +ℤ (pos 0 -ℤ (pos 0 -ℤ x))
        → e ≡ d +ℤ pos 0
        → e ≡ a +ℤ pos 0
    total a b c d e x h i j k = omega (
      int_laws,
      ap pos_part h,
      ap neg_part h,
      ap pos_part i,
      ap neg_part i,
      ap pos_part j,
      ap neg_part j,
      ap pos_part k,
      ap neg_part k,
    )

run_fails :
    (c : Chain) (r : Resource) (k : ℕ) (loan : RexLoan) (s s' : RexState) (m : String)
    → process_expired_loan c r k loan s ≡ err m
    → ¬ (run_loan c r k loan s ≡ ok s')
unfolding run_loan
run_fails c r k loan s s' m failed run = ground (arith, failed)

run_loan-Brings :
    (c : Chain) (r : Resource) (k : ℕ) (loan : RexLoan) (s s' : RexState)
    → IsSound s
    → find k (loans r s) ≡ some loan
    → run_loan c r k loan s ≡ ok s'
    → Brings (pos 0) s s'
unfolding process_expired_loan
run_loan-Brings c r k loan s s' sound found run = elim (Option-cases s.rexpool) [
  | inl h ↦ absurd (
      run_fails c r k loan s s' "rex system not initialized yet" (rw (process_expired_loan, h) refl)
        run)
  | inr (p, hp) ↦
      let q = remove_loan_from_rex_pool c loan p in
      let s₁ = set_pool q s in
      let x = get_bancor_output c q.total_rent q.total_unlent loan.payment in
      let renew =
        leb_ℤ loan.payment loan.balance && ltb_ℤ loan.payment x && rex_loans_available s₁ in
      elim (Bool-cases renew) [
        | inl again ↦
            renew-Brings c r k loan p s s' (x -ℤ loan.total_staked) x sound hp found
              (pays (ltb_ℤ loan.payment x) (rex_loans_available s₁) loan.payment loan.balance again)
              (rw (process_expired_loan, hp, again) refl) run
        | inr over ↦ elim (Result-cases (fund_positive loan.from loan.balance s₁)) [
          | inr (m, failed) ↦
              absurd
                (run_fails c r k loan s s' m (rw (process_expired_loan, hp, over, failed) refl) run)
          | inl (s₂, paid) ↦
              close-Brings c r k loan p s s₂ s' (pos 0 -ℤ loan.total_staked) sound hp found paid
                (rw (process_expired_loan, hp, over, paid) refl) run
        ]
      ]
]
  where
    pays : (a b : Bool) (x y : ℤ) → (leb_ℤ x y && a && b) ≡ true → x ≤ℤ y
    pays a b x y h = ground arith

-- The loop over the loans that have expired keeps the surplus.
pub run_loans-Brings :
    (c : Chain) (r : Resource) (max : ℕ) (s s' : RexState)
    → IsSound s
    → run_loans c r max s ≡ ok s'
    → Brings (pos 0) s s'
unfolding run_loans
run_loans-Brings c r zero s s' sound e =
    let out : s' ≡ s = ground arith in rw out (Brings-same s sound)
run_loans-Brings c r (suc max) s s' sound e =
    elim (Option-cases (expired c.host.now_us (loans r s))) [
      | inl h ↦ let out : s' ≡ s = ground (arith, h) in rw out (Brings-same s sound)
      | inr (k, h) ↦ elim (Option-cases (find k (loans r s))) [
        | inl gone ↦ absurd (ground (arith, h, gone))
        | inr (loan, found) ↦ elim (Result-cases (run_loan c r k loan s)) [
          | inr (m, failed) ↦ absurd (ground (arith, h, found, failed))
          | inl (s₁, done) ↦
              let first = run_loan-Brings c r k loan s s₁ sound found done in
              let rest : run_loans c r max s₁ ≡ ok s' = ground (arith, h, found, done) in
              Brings-nothing (pos 0) s s₁ s' first (run_loans-Brings c r max s₁ s' first.1 rest)
        ]
      ]
    ]
