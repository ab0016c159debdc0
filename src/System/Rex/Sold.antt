-- ===== src/System/Rex/Sold.antt =====
-- The surplus of eosio.rex over `sellrex` and `cnclrexorder` of contracts/eosio.system/src/rex.cpp.
use telos_arbitration_fix.Prelude.{
  ◌≡◌, refl, ap, sym, inl, inr, Bool, true, false, arith, Option-cases,
}
use telos_arbitration_fix.Prelude.Int.{ℤ, pos, pos_part, neg_part, ◌+ℤ◌, ◌-ℤ◌, int_laws}
use telos_arbitration_fix.Eosio.{Result-cases, ok, find, insert, modify, remove, Name, Asset}
use telos_arbitration_fix.Eosio.Sums.{sum_of-insert, sum_of-modify, sum_of-remove}
use telos_arbitration_fix.System.{Chain}
use telos_arbitration_fix.System.Rex.{RexOrder, RexState}
use telos_arbitration_fix.System.Rex.Funds.{update_rex_account}
use telos_arbitration_fix.System.Rex.Orders.{fill_rex_order}
use telos_arbitration_fix.System.Rex.Loans.{runrex}
use telos_arbitration_fix.System.Rex.Actions.{
  queue_order, finish_sale, sellrex, cnclrexorder, mature_row,
}
use telos_arbitration_fix.System.Rex.Surplus.{
  NonNegative-find, NonNegative-insert, NonNegative-modify, NonNegative-remove, due, IsSound,
  Brings,
}
use telos_arbitration_fix.System.Rex.Settled.{Brings-same, update_rex_account-Brings}
use telos_arbitration_fix.System.Rex.Filled.{fill_rex_order-Brings}
use telos_arbitration_fix.System.Rex.Executed.{runrex-Brings}
use telos_arbitration_fix.System.Rex.Traded.{balances-Brings, orders-Brings}

plus_zero : (a b c : ℤ) → a ≡ b +ℤ c → c ≡ pos 0 → a ≡ b
plus_zero a b c h k = omega (int_laws, ap pos_part h, ap neg_part h, ap pos_part k, ap neg_part k)

same_part : (a b c d : ℤ) → a +ℤ c ≡ b +ℤ d → c ≡ d → a ≡ b
same_part a b c d h k = omega (int_laws, ap pos_part h, ap neg_part h, ap pos_part k, ap neg_part k)

-- A queued order owes nothing yet.
queue_order-Brings :
    (c : Chain) (from : Name) (rex : ℤ) (s : RexState)
    → IsSound s
    → Brings (pos 0) s (queue_order c from rex s).1
unfolding queue_order
queue_order-Brings c from rex s sound = elim (Option-cases (find from s.rexorders)) [
  | inl h ↦
      let o : RexOrder = record {
        owner = from;
        rex_requested = rex;
        proceeds = pos 0;
        stake_change = pos 0;
        order_time = c.host.now_us;
        is_open = true;
      } in
      let t = insert from o s.rexorders in
      let out : queue_order c from rex s ≡ (rex, record s { rexorders = t }) = ground (arith, h) in
      rw out (
        orders-Brings t s sound
          (NonNegative-insert due from o s.rexorders sound.orders_due (omega arith))
          (plus_zero _ _ (pos 0) (sum_of-insert due from o s.rexorders) refl))
  | inr (o, h) ↦
      let f = λ (o : RexOrder). record o { rex_requested = o.rex_requested +ℤ rex } in
      let t = modify from f s.rexorders in
      let out : queue_order c from rex s ≡ (o.rex_requested +ℤ rex, record s { rexorders = t }) =
        ground (arith, h) in
      let enough = NonNegative-find due from s.rexorders o sound.orders_due h in
      rw out (
        orders-Brings t s sound
          (NonNegative-modify due f from s.rexorders o sound.orders_due h enough)
          (same_part _ _ (due o) (due o) (sum_of-modify due f from s.rexorders o h) refl))
]

finish_sale-Brings :
    (c : Chain) (from : Name) (rex : ℤ) (success : Bool) (pending : ℤ) (s s' : RexState)
    → IsSound s
    → finish_sale c from rex success pending s ≡ ok s'
    → Brings (pos 0) s s'
unfolding finish_sale
finish_sale-Brings c from rex true pending s s' sound e =
    elim (Option-cases (find from s.rexbalance)) [
      | inl h ↦ absurd (ground (arith, h))
      | inr (rb, h) ↦ let out : s' ≡ s = ground (arith, h) in rw out (Brings-same s sound)
    ]
finish_sale-Brings c from rex false pending s s' sound e =
    let s₁ = (queue_order c from rex s).1 in
    elim (Option-cases (find from s₁.rexbalance)) [
      | inl h ↦ absurd (ground (arith, h))
      | inr (rb, h) ↦
          let out : s' ≡ s₁ = ground (arith, h) in rw out (queue_order-Brings c from rex s sound)
    ]

pub cnclrexorder-Brings :
    (c : Chain) (owner : Name) (s s' : RexState)
    → IsSound s
    → cnclrexorder c owner s ≡ ok s'
    → Brings (pos 0) s s'
unfolding cnclrexorder
cnclrexorder-Brings c owner s s' sound e = elim (Option-cases (find owner s.rexorders)) [
  | inl h ↦ absurd (ground (arith, h))
  | inr (o, h) ↦
      let t = remove owner s.rexorders in
      let out : s' ≡ record s { rexorders = t } = ground (arith, h) in
      let opened : o.is_open ≡ true = ground (arith, h) in
      let nothing : due o ≡ pos 0 = ground (arith, opened) in
      rw out (
        orders-Brings t s sound (NonNegative-remove due owner s.rexorders sound.orders_due)
          (sym (plus_zero _ _ (due o) (sym (sum_of-remove due owner s.rexorders o h)) nothing)))
]

pub sellrex-Brings :
    (c : Chain) (from : Name) (rex : Asset) (s s' : RexState)
    → IsSound s
    → sellrex c from rex s ≡ ok s'
    → Brings (pos 0) s s'
unfolding sellrex
sellrex-Brings c from rex s s' sound e = elim (Result-cases (runrex c 2 s)) [
  | inr (m, failed) ↦ absurd (ground (arith, failed))
  | inl (s₁, ran) ↦ elim (Option-cases (find from s₁.rexbalance)) [
    | inl h ↦ absurd (ground (arith, ran, h))
    | inr (rb₁, here) ↦
        let s₂ = mature_row c from s₁ in
        elim (Option-cases (find from s₂.rexbalance)) [
          | inl h ↦ absurd (ground (arith, ran, here, h))
          | inr (rb, found) ↦ elim (Result-cases (fill_rex_order from rb rex.amount s₂)) [
            | inr (m, failed) ↦ absurd (ground (arith, ran, here, found, failed))
            | inl ((o, s₃), filled) ↦
                let settle = update_rex_account c from o.proceeds o.stake_change false s₃ in
                elim (Result-cases settle) [
                  | inr (m, failed) ↦ absurd (ground (arith, ran, here, found, filled, failed))
                  | inl ((pending, s₄), settled) ↦
                      let rest : finish_sale c from rex.amount o.success pending s₄ ≡ ok s' =
                        ground (arith, ran, here, found, filled, settled) in
                      let f = runrex-Brings c 2 s s₁ sound ran in
                      let g = balances-Brings s₂.rexbalance s₁ f.1 in
                      let h = fill_rex_order-Brings from rb rex.amount s₂ s₃ o g.1 filled in
                      let i =
                        update_rex_account-Brings c from o.proceeds o.stake_change false s₃ s₄
                          pending (h.0).1 h.1 settled in
                      let j =
                        finish_sale-Brings c from rex.amount o.success pending s₄ s' i.1 rest in
                      (level _ _ _ _ _ _ o.proceeds f.0 g.0 (h.0).0 i.0 j.0, j.1)
                ]
          ]
        ]
  ]
]
  where
    level :
        (a b c d e f x : ℤ)
        → b ≡ a +ℤ pos 0
        → c ≡ b +ℤ pos 0
        → d ≡ c +ℤ x
        → e ≡ d +ℤ (pos 0 -ℤ x)
        → f ≡ e +ℤ pos 0
        → f ≡ a +ℤ pos 0
    level a b c d e f x h i j k l = omega (
      int_laws,
      ap pos_part h,
      ap neg_part h,
      ap pos_part i,
      ap neg_part i,
      ap pos_part j,
      ap neg_part j,
      ap pos_part k,
      ap neg_part k,
      ap pos_part l,
      ap neg_part l,
    )
