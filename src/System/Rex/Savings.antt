-- ===== src/System/Rex/Savings.antt =====
-- The REX that contracts/eosio.system/src/rex.cpp moves to savings.
use telos_arbitration_fix.Prelude.{suc, ◌≡◌, refl, ap, ◌∙◌, inl, inr, length, arith, Bool-cases}
use telos_arbitration_fix.Prelude.Int.{ℤ, pos, pos_part, neg_part, ◌+ℤ◌, ◌-ℤ◌, ltb_ℤ, int_laws}
use telos_arbitration_fix.Eosio.{Result-cases, ok}
use telos_arbitration_fix.System.{Chain}
use telos_arbitration_fix.System.Rex.{RexBalance}
use telos_arbitration_fix.System.Rex.Buckets.{
  process_rex_maturities, read_rex_savings, put_rex_savings, move_rex,
}
use telos_arbitration_fix.System.Rex.Holders.{move_to_savings}
use telos_arbitration_fix.System.Rex.Totals.{
  total, held, eqb_ℤ→≡, process_rex_maturities-held, read_rex_savings-held, put_rex_savings-held,
}
use telos_arbitration_fix.System.Rex.Drained.{drain-total, drain_returns}

taken : (m l x t r : ℤ) → x +ℤ r ≡ t +ℤ l → m -ℤ l +ℤ x +ℤ r ≡ m +ℤ t
taken m l x t r h = omega (int_laws, ap pos_part h, ap neg_part h)

untaken : (m l x t r : ℤ) → x +ℤ r ≡ t +ℤ l → l ≡ pos 0 → m +ℤ x +ℤ r ≡ m +ℤ t
untaken m l x t r h z = omega (int_laws, ap pos_part h, ap neg_part h, ap pos_part z, ap neg_part z)

move_rex-held :
    (rex in_order : ℤ) (rb rb' : RexBalance)
    → move_rex rex in_order rb ≡ ok rb'
    → (held rb' +ℤ rex ≡ held rb) × (rb'.rex_balance ≡ rb.rex_balance)
unfolding move_rex held
move_rex-held rex in_order rb rb' e =
    let ((left, bs), ended) = drain_returns rex rb.rex_maturities in
    let sums =
      drain-total (suc (suc (length rb.rex_maturities))) rex rb.rex_maturities left bs ended in
    elim (Bool-cases (ltb_ℤ (pos 0) left)) [
      | inl more ↦
          let out : rb' ≡ record rb { matured_rex = rb.matured_rex -ℤ left; rex_maturities = bs } =
            ground (arith, ended, more) in
          rw out (taken rb.matured_rex left (total bs) (total rb.rex_maturities) rex sums, refl)
      | inr done ↦
          let out : rb' ≡ record rb { rex_maturities = bs } = ground (arith, ended, done) in
          let zero : left ≡ pos 0 = eqb_ℤ→≡ left (pos 0) (ground (arith, ended, done)) in
          rw out
            (untaken rb.matured_rex left (total bs) (total rb.rex_maturities) rex sums zero, refl)
    ]

returned : (a b c s r h : ℤ) → a +ℤ r ≡ b → b ≡ c → c +ℤ s ≡ h → a +ℤ (s +ℤ r) ≡ h
returned a b c s r h e f g = omega (
  int_laws,
  ap pos_part e,
  ap neg_part e,
  ap pos_part f,
  ap neg_part f,
  ap pos_part g,
  ap neg_part g,
)

read_rex_savings-balance :
    (rb : RexBalance) → ((read_rex_savings rb).1).rex_balance ≡ rb.rex_balance
unfolding read_rex_savings
read_rex_savings-balance rb = ground arith

put_rex_savings-balance :
    (rex : ℤ) (rb : RexBalance) → (put_rex_savings rex rb).rex_balance ≡ rb.rex_balance
unfolding put_rex_savings
put_rex_savings-balance rex rb = ground arith

-- A move of REX to savings that succeeds neither makes nor loses REX: what the row holds, matured
-- and in all its buckets, is what it held before, and its balance stays.
pub move_to_savings-held :
    (c : Chain) (rex in_order : ℤ) (rb rb' : RexBalance)
    → move_to_savings c rex in_order rb ≡ ok rb'
    → (held rb' ≡ held rb) × (rb'.rex_balance ≡ rb.rex_balance)
unfolding move_to_savings
move_to_savings-held c rex in_order rb rb' e =
    let saved = (read_rex_savings rb).0 in
    let rb₁ = (read_rex_savings rb).1 in
    let rb₂ = process_rex_maturities c.host.now rb₁ in
    elim (Result-cases (move_rex rex in_order rb₂)) [
      | inr (m, failed) ↦ absurd (ground (arith, failed))
      | inl (rb₃, done) ↦
          let out : rb' ≡ put_rex_savings (saved +ℤ rex) rb₃ = ground (arith, done) in
          let kept = move_rex-held rex in_order rb₂ rb₃ done in
          (
            ap held out
                ∙ put_rex_savings-held (saved +ℤ rex) rb₃
                ∙ returned (held rb₃) (held rb₂) (held rb₁) saved rex (held rb) kept.0
                    (process_rex_maturities-held c.host.now rb₁) (read_rex_savings-held rb),
            ap (λ (b : RexBalance). b.rex_balance) out
                ∙ put_rex_savings-balance (saved +ℤ rex) rb₃
                ∙ kept.1
                ∙ read_rex_savings-balance rb,
          )
    ]
