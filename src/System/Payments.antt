-- ===== src/System/Payments.antt =====
-- The shares that contracts/eosio.system/src/producer_pay.cpp pays, against the bucket that it pays
-- them from.
use telos_arbitration_fix.Prelude.{
  ℕ, ◌+◌, ◌*◌, ◌≡◌, ap, inl, inr, true, false, List, [], ◌∷◌, ltb, arith, Bool-cases, Option-cases,
}
use telos_arbitration_fix.Prelude.Int.{
  ℤ, pos, negsuc, pos_part, neg_part, ◌+ℤ◌, ◌-ℤ◌, +ℤ_parts, eq_of_parts, scale_ℤ, int_laws,
}
use telos_arbitration_fix.Eosio.{Result-cases, ok, Table, find, modify, Name, Asset, IsDocumented}
use telos_arbitration_fix.Eosio.Sums.{sum_of, sum_of-insert, sum_of-modify}
use telos_arbitration_fix.System.{ProducerInfo, PaymentInfo, State, Chain}
use telos_arbitration_fix.System.Pay.{add_payment, pay_producer, pay_all, shares_of}

-- What is to be paid out.
abbrev pub amount_due : PaymentInfo → ℤ
amount_due p = p.pay.amount

unfoldable pub total_due : Table PaymentInfo → ℤ
total_due t = sum_of amount_due t

add_payment-total :
    (c : Chain) (owner : Name) (pay : Asset) (t t' : Table PaymentInfo)
    → IsDocumented c.host
    → add_payment c owner pay t ≡ ok t'
    → total_due t' ≡ total_due t +ℤ pay.amount
unfolding add_payment total_due
add_payment-total c owner pay t t' doc e = elim (Option-cases (find owner t)) [
  | inl none_yet ↦
      let row : PaymentInfo = record { bp = owner; pay = pay } in
      ground (arith, none_yet, sum_of-insert amount_due owner row t)
  | inr (row, found) ↦ elim (Result-cases (c.host.asset_add row.pay pay)) [
    | inr (m, failed) ↦ absurd (ground arith)
    | inl (more, added) ↦
        let (_, same, _) = doc.add_ok row.pay pay more added in
        let f = λ (a : PaymentInfo). record a { pay = more } in
        let moved = sum_of-modify amount_due f owner t row found in
        let out : t' ≡ modify owner f t = ground (arith, found, added) in
        let grown : more.amount ≡ row.pay.amount +ℤ pay.amount =
          ap (λ (a : Asset). a.amount) same in
        rw out (
          settle (sum_of amount_due (modify owner f t)) (sum_of amount_due t) row.pay.amount
            more.amount pay.amount moved grown)
  ]
]
  where
    settle : (a b x y p : ℤ) → a +ℤ x ≡ b +ℤ y → y ≡ x +ℤ p → a ≡ b +ℤ p
    settle a b x y p h k =
        omega (int_laws, ap pos_part h, ap neg_part h, ap pos_part k, ap neg_part k)

-- One payment comes out of the bucket.
pay_producer_lem :
    (c : Chain) (amount : ℤ) (p : ProducerInfo) (s s' : State)
    → IsDocumented c.host
    → pay_producer c amount p s ≡ ok s'
    → (s'.gstate.perblock_bucket ≡ s.gstate.perblock_bucket -ℤ amount)
      × (total_due s'.payments ≡ total_due s.payments +ℤ amount)
unfolding pay_producer
pay_producer_lem c amount p s s' doc e =
    elim (Result-cases (c.host.make_asset amount c.core_symbol)) [
      | inr (m, failed) ↦ absurd (ground arith)
      | inl (pay, made) ↦ elim (Result-cases (add_payment c p.owner pay s.payments)) [
        | inr (m, failed) ↦ absurd (ground arith)
        | inl (t, added) ↦
            let (same, _) = doc.make_ok amount c.core_symbol pay made in
            let more = add_payment-total c p.owner pay s.payments t doc added in
            (ground arith, ground (arith, same, more))
      ]
    ]

-- The shares of the producers that the loop pays.
unfoldable pub shares_paid : ℕ → List ProducerInfo → ℕ
shares_paid paid [] = 0
shares_paid paid (p ∷ ps) = elim p.is_active [
  | false ↦ shares_paid paid ps
  | true ↦ elim (ltb paid 42) [ false ↦ 0 | true ↦ shares_of paid + shares_paid (paid + 1) ps ]
]

mul_add : (a m n : ℕ) → a * (m + n) ≡ a * m + a * n
mul_add a m n = omega arith

scale-add : (v : ℤ) (m n : ℕ) → scale_ℤ v (m + n) ≡ scale_ℤ v m +ℤ scale_ℤ v n
scale-add (pos a) m n = omega (int_laws, mul_add a m n)
scale-add (negsuc a) m n =
    eq_of_parts _ _
      (ground (arith, mul_add (a + 1) m n, +ℤ_parts (scale_ℤ (negsuc a) m) (scale_ℤ (negsuc a) n)))

after : (a b d x y : ℤ) → a ≡ b -ℤ x → d ≡ a -ℤ y → d ≡ b -ℤ (x +ℤ y)
after a b d x y h k = omega (int_laws, ap pos_part h, ap neg_part h, ap pos_part k, ap neg_part k)

before : (a b d x y : ℤ) → a ≡ b +ℤ x → d ≡ a +ℤ y → d ≡ b +ℤ (x +ℤ y)
before a b d x y h k = omega (int_laws, ap pos_part h, ap neg_part h, ap pos_part k, ap neg_part k)

scale-zero : (v : ℤ) → scale_ℤ v 0 ≡ pos 0
scale-zero (pos a) = ground arith
scale-zero (negsuc a) = ground arith

-- Nothing is paid.
stays : (v a : ℤ) → (a ≡ a -ℤ scale_ℤ v 0) × (a ≡ a +ℤ scale_ℤ v 0)
stays v a = rw (scale-zero v) (omega int_laws, omega int_laws)

pub pay_all_lem :
    (c : Chain) (v : ℤ) (paid : ℕ) (ps : List ProducerInfo) (s s' : State)
    → IsDocumented c.host
    → pay_all c v paid ps s ≡ ok s'
    → (s'.gstate.perblock_bucket ≡ s.gstate.perblock_bucket -ℤ scale_ℤ v (shares_paid paid ps))
      × (total_due s'.payments ≡ total_due s.payments +ℤ scale_ℤ v (shares_paid paid ps))
unfolding pay_all shares_paid
pay_all_lem c v paid [] s s' doc e =
    let same : s' ≡ s = ground arith in
    (rw same (stays v s.gstate.perblock_bucket).0, rw same (stays v (total_due s.payments)).1)
pay_all_lem c v paid (p ∷ ps) s s' doc e = elim (Bool-cases p.is_active) [
  | inr inactive ↦
      let skipped : pay_all c v paid ps s ≡ ok s' = ground (arith, inactive) in
      rw inactive (pay_all_lem c v paid ps s s' doc skipped)
  | inl active ↦ elim (Bool-cases (ltb paid 42)) [
    | inr full ↦
        let same : s' ≡ s = ground (arith, active, full) in
        rw (active, full, same)
          ((stays v s.gstate.perblock_bucket).0, (stays v (total_due s.payments)).1)
    | inl more ↦
        let amount = scale_ℤ v (shares_of paid) in
        elim (Result-cases (pay_producer c amount p s)) [
          | inr (m, failed) ↦ absurd (ground (arith, active, more))
          | inl (s₁, one) ↦
              let rest : pay_all c v (paid + 1) ps s₁ ≡ ok s' = ground (arith, active, more) in
              let (b, t) = pay_producer_lem c amount p s s₁ doc one in
              let (b', t') = pay_all_lem c v (paid + 1) ps s₁ s' doc rest in
              rw (active, more, scale-add v (shares_of paid) (shares_paid (paid + 1) ps))
                (after _ _ _ _ _ b b', before _ _ _ _ _ t t')
        ]
  ]
]
