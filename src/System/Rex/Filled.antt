-- ===== src/System/Rex/Filled.antt =====
-- The surplus of eosio.rex over the orders that contracts/eosio.system/src/rex.cpp fills.
use telos_arbitration_fix.Prelude.{
  ℕ, zero, suc, ◌≡◌, refl, ap, inl, inr, true, false, some, arith, Bool-cases, Option-cases, [],
  ◌∷◌, ◌==◌, if◌then◌else◌,
}
use telos_arbitration_fix.Prelude.Int.{
  ℤ, pos, pos_part, neg_part, ◌+ℤ◌, ◌-ℤ◌, ◌≤ℤ◌, int_laws, leb_ℤ,
}
use telos_arbitration_fix.Eosio.{Result-cases, ok, Table, find, modify, Name}
use telos_arbitration_fix.Eosio.Names
use telos_arbitration_fix.Eosio.Sums.{sum_of, sum_of-modify}
use telos_arbitration_fix.System.Limits.{pay}
use telos_arbitration_fix.System.Rex.{RexPool, RexBalance, RexOrder, RexOrderOutcome, RexState}
use telos_arbitration_fix.System.Rex.Pool.{mul_div, try_mul_div}
use telos_arbitration_fix.System.Rex.Orders.{
  available_unlent, sell_from_pool, sell_from_balance, fill_rex_order, close_order, run_order,
  run_orders,
}
use telos_arbitration_fix.System.Rex.Surplus.{
  NonNegative-modify, due, owed, received, received-append, surplus, IsSound, Brings,
}
use telos_arbitration_fix.System.Rex.Settled.{Brings-nothing, Brings-same, IsSound-accounts}
use telos_arbitration_fix.System.Rex.Renewed.{set_pool-Brings}

-- What one transfer brings to eosio.rex.
abbrev pub brought : Name → Name → ℤ → ℤ
brought from to x =
    (if to == Names.eosio_rex then x else pos 0) -ℤ (if from == Names.eosio_rex then x else pos 0)

pub pay-Brings :
    (from to : Name) (x : ℤ) (s : RexState)
    → IsSound s
    → Brings (brought from to x) s (record s { accounts = pay from to x s.accounts })
unfolding surplus owed received
pay-Brings from to x s sound = (
  rw (received-append Names.eosio_rex s.accounts.sent (record { from = from; to = to; amount = x }))
      (more (received Names.eosio_rex s.accounts.sent) (brought from to x) (owed s)),
  IsSound-accounts (pay from to x s.accounts) s sound,
)
  where
    more : (r b o : ℤ) → r +ℤ (b +ℤ pos 0) -ℤ o ≡ r -ℤ o +ℤ b
    more r b o = omega int_laws

-- The pool that an order leaves has less by the proceeds.
sell-Brings :
    (rex x stake : ℤ) (owner : Name) (p : RexPool) (s : RexState)
    → IsSound s
    → s.rexpool ≡ some p
    → Brings x s (record s {
      rexpool = some (sell_from_pool rex x p);
      rexbalance = modify owner (sell_from_balance rex stake) s.rexbalance;
    })
unfolding surplus owed
sell-Brings rex x stake owner p s sound hp =
    let t : RexState = record s {
      rexbalance = modify owner (sell_from_balance rex stake) s.rexbalance;
    } in
    let steady : IsSound t = record {
      balanced = sound.balanced;
      cpu_covered = sound.cpu_covered;
      net_covered = sound.net_covered;
      funds_covered = sound.funds_covered;
      orders_due = sound.orders_due;
    } in
    let (h, sold) =
      set_pool-Brings (sell_from_pool rex x p) (pos 0 -ℤ x) t steady
        (back (p.total_lendable -ℤ x) p.total_lent) (rw hp (less p.total_lendable x)) in
    (again (surplus s) _ x h, sold)
  where
    back : (a b : ℤ) → a -ℤ b +ℤ b ≡ a
    back a b = omega int_laws

    less : (a x : ℤ) → a -ℤ x ≡ a +ℤ (pos 0 -ℤ x)
    less a x = omega int_laws

    again : (a b x : ℤ) → b ≡ a +ℤ (pos 0 -ℤ (pos 0 -ℤ x)) → b ≡ a +ℤ x
    again a b x h = omega (int_laws, ap pos_part h, ap neg_part h)

worth_NonNegative : (a b c x : ℤ) → try_mul_div a b c ≡ ok x → pos 0 ≤ℤ x
unfolding try_mul_div mul_div
worth_NonNegative a b c x e = ground arith

-- An order brings its proceeds to the surplus, and its owner is due them.
pub fill_rex_order-Brings :
    (owner : Name) (rb : RexBalance) (rex : ℤ) (s s' : RexState) (r : RexOrderOutcome)
    → IsSound s
    → fill_rex_order owner rb rex s ≡ ok (r, s')
    → (Brings r.proceeds s s')
      × (pos 0 ≤ℤ r.proceeds)
      × (s'.rexorders ≡ s.rexorders)
      × (r.success ≡ false → r.proceeds ≡ pos 0)
unfolding fill_rex_order
fill_rex_order-Brings owner rb rex s s' r sound e = elim (Option-cases s.rexpool) [
  | inl h ↦ absurd (ground (arith, h))
  | inr (p, hp) ↦ elim (Result-cases (try_mul_div rex p.total_lendable p.total_rex)) [
    | inr (m, failed) ↦ absurd (ground (arith, hp, failed))
    | inl (x, priced) ↦
        elim (Result-cases (try_mul_div rb.rex_balance p.total_lendable p.total_rex)) [
          | inr (m, failed) ↦ absurd (ground (arith, hp, priced, failed))
          | inl (v, valued) ↦ elim (Bool-cases (leb_ℤ x (available_unlent p))) [
            | inl filled ↦
                let out : s' ≡ record s {
                  rexpool = some (sell_from_pool rex x p);
                  rexbalance = modify owner (sell_from_balance rex (v -ℤ x)) s.rexbalance;
                } =
                  ground (arith, hp, priced, valued, filled) in
                let success : r.success ≡ true = ground (arith, hp, priced, valued, filled) in
                let same : r.proceeds ≡ x = ground (arith, hp, priced, valued, filled) in
                rw (out, same)
                  (
                    sell-Brings rex x (v -ℤ x) owner p s sound hp,
                    worth_NonNegative rex p.total_lendable p.total_rex x priced,
                    refl,
                    λ h. absurd (ground (arith, success, h)),
                  )
            | inr short ↦
                let out : s' ≡ s = ground (arith, hp, priced, valued, short) in
                let none_left : r.proceeds ≡ pos 0 = ground (arith, hp, priced, valued, short) in
                rw (out, none_left) (Brings-same s sound, omega arith, refl, λ h. refl)
          ]
        ]
  ]
]

-- An open order that is closed is due its proceeds.
close-Brings :
    (k : ℕ) (o : RexOrder) (r : RexOrderOutcome) (s : RexState)
    → IsSound s
    → find k s.rexorders ≡ some o
    → o.is_open ≡ true
    → pos 0 ≤ℤ r.proceeds
    → Brings (pos 0 -ℤ r.proceeds) s (record s { rexorders = modify k (close_order r) s.rexorders })
unfolding surplus owed
close-Brings k o r s sound found opened enough =
    let nothing : due o ≡ pos 0 = ground (arith, opened) in
    (
      more _ _ (sum_of due s.rexorders) _ r.proceeds (due o)
          (sum_of-modify due (close_order r) k s.rexorders o found) nothing,
      record {
        balanced = sound.balanced;
        cpu_covered = sound.cpu_covered;
        net_covered = sound.net_covered;
        funds_covered = sound.funds_covered;
        orders_due =
            NonNegative-modify due (close_order r) k s.rexorders o sound.orders_due found enough;
      },
    )
  where
    more :
        (r l o m x d : ℤ)
        → m +ℤ d ≡ o +ℤ x
        → d ≡ pos 0
        → r -ℤ (l +ℤ m) ≡ r -ℤ (l +ℤ o) +ℤ (pos 0 -ℤ x)
    more r l o m x d h k =
        omega (int_laws, ap pos_part h, ap neg_part h, ap pos_part k, ap neg_part k)

run_order-Brings :
    (k : ℕ) (o : RexOrder) (s s' : RexState)
    → IsSound s
    → find k s.rexorders ≡ some o
    → o.is_open ≡ true
    → run_order k o s ≡ ok s'
    → Brings (pos 0) s s'
unfolding run_order
run_order-Brings k o s s' sound found opened e = elim (Option-cases (find o.owner s.rexbalance)) [
  | inl h ↦ let out : s' ≡ s = ground (arith, h) in rw out (Brings-same s sound)
  | inr (rb, h) ↦ elim (Result-cases (fill_rex_order o.owner rb o.rex_requested s)) [
    | inr (m, failed) ↦ absurd (ground (arith, h, failed))
    | inl ((r, s₁), done) ↦
        let (first, enough, same, nothing) =
          fill_rex_order-Brings o.owner rb o.rex_requested s s₁ r sound done in
        elim (Bool-cases r.success) [
          | inr short ↦
              let out : s' ≡ s₁ = ground (arith, h, done, short) in
              rw (out, ← (nothing short)) first
          | inl filled ↦
              let out : s' ≡ record s₁ { rexorders = modify k (close_order r) s₁.rexorders } =
                ground (arith, h, done, filled) in
              let here : find k s₁.rexorders ≡ some o = rw same found in
              let second = close-Brings k o r s₁ first.1 here opened enough in
              rw out (cancel _ _ _ r.proceeds first.0 second.0, second.1)
        ]
  ]
]
  where
    cancel : (a b c x : ℤ) → b ≡ a +ℤ x → c ≡ b +ℤ (pos 0 -ℤ x) → c ≡ a +ℤ pos 0
    cancel a b c x h k =
        omega (int_laws, ap pos_part h, ap neg_part h, ap pos_part k, ap neg_part k)

pub run_orders-Brings :
    (max : ℕ) (os : Table RexOrder) (s s' : RexState)
    → IsSound s
    → run_orders max os s ≡ ok s'
    → Brings (pos 0) s s'
unfolding run_orders
run_orders-Brings zero os s s' sound e =
    let out : s' ≡ s = ground arith in rw out (Brings-same s sound)
run_orders-Brings (suc max) [] s s' sound e =
    let out : s' ≡ s = ground arith in rw out (Brings-same s sound)
run_orders-Brings (suc max) ((k, _) ∷ os) s s' sound e = elim (Option-cases (find k s.rexorders)) [
  | inl h ↦ let out : s' ≡ s = ground (arith, h) in rw out (Brings-same s sound)
  | inr (o, found) ↦ elim (Bool-cases o.is_open) [
    | inr closed ↦ let out : s' ≡ s = ground (arith, found, closed) in rw out (Brings-same s sound)
    | inl opened ↦ elim (Result-cases (run_order k o s)) [
      | inr (m, failed) ↦ absurd (ground (arith, found, opened, failed))
      | inl (s₁, done) ↦
          let first = run_order-Brings k o s s₁ sound found opened done in
          let rest : run_orders max os s₁ ≡ ok s' = ground (arith, found, opened, done) in
          Brings-nothing (pos 0) s s₁ s' first (run_orders-Brings max os s₁ s' first.1 rest)
    ]
  ]
]
