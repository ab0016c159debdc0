-- ===== src/System/Rex/Executed.antt =====
-- The surplus of eosio.rex over the proceeds of names and over `runrex` of
-- contracts/eosio.system/src/rex.cpp.
use telos_arbitration_fix.Prelude.{
  ℕ, ◌≡◌, refl, ap, subst, inl, inr, some, arith, Bool-cases, Option-cases,
}
use telos_arbitration_fix.Prelude.Int.{ℤ, pos, pos_part, neg_part, ◌+ℤ◌, ◌-ℤ◌, int_laws, ltb_ℤ}
use telos_arbitration_fix.Eosio.{Result-cases, ok}
use telos_arbitration_fix.Eosio.Names
use telos_arbitration_fix.System.{Chain}
use telos_arbitration_fix.System.Limits.{pay}
use telos_arbitration_fix.System.Rex.{RexPool, RexState}
use telos_arbitration_fix.System.Rex.Pool.{set_pool, channel_to_rex}
use telos_arbitration_fix.System.Rex.Orders.{run_orders, open_orders}
use telos_arbitration_fix.System.Rex.Loans.{cpu, net, run_loans, take_namebids, runrex}
use telos_arbitration_fix.System.Rex.Surplus.{IsBalanced, IsSound, Brings}
use telos_arbitration_fix.System.Rex.Settled.{Brings-nothing, Brings-same}
use telos_arbitration_fix.System.Rex.Renewed.{set_pool-Brings}
use telos_arbitration_fix.System.Rex.Expired.{run_loans-Brings}
use telos_arbitration_fix.System.Rex.Filled.{pay-Brings, run_orders-Brings}

abbrev channelled : RexPool → RexState → RexState
channelled p s =
    set_pool
      (record p {
        total_unlent = p.total_unlent +ℤ p.namebid_proceeds;
        total_lendable = p.total_lendable +ℤ p.namebid_proceeds;
        namebid_proceeds = pos 0;
      })
      (record s { accounts = pay Names.eosio_names Names.eosio_rex p.namebid_proceeds s.accounts })

channelled-Brings :
    (p : RexPool) (s : RexState)
    → IsSound s
    → s.rexpool ≡ some p
    → Brings (pos 0) s (channelled p s)
channelled-Brings p s sound hp =
    let x = p.namebid_proceeds in
    let first = pay-Brings Names.eosio_names Names.eosio_rex x s sound in
    let t : RexState = record s { accounts = pay Names.eosio_names Names.eosio_rex x s.accounts } in
    let balanced : IsBalanced (some p) = subst (λ o. IsBalanced o) hp sound.balanced in
    let second =
      set_pool-Brings
        (record p {
          total_unlent = p.total_unlent +ℤ x;
          total_lendable = p.total_lendable +ℤ x;
          namebid_proceeds = pos 0;
        })
        x t first.1 (grown p.total_unlent p.total_lent p.total_lendable x balanced) (rw hp refl) in
    (cancel _ _ _ x first.0 second.0, second.1)
  where
    grown : (u l s x : ℤ) → u +ℤ l ≡ s → u +ℤ x +ℤ l ≡ s +ℤ x
    grown u l s x h = omega (int_laws, ap pos_part h, ap neg_part h)

    cancel : (a b c x : ℤ) → b ≡ a +ℤ (x -ℤ pos 0) → c ≡ b +ℤ (pos 0 -ℤ x) → c ≡ a +ℤ pos 0
    cancel a b c x h k =
        omega (int_laws, ap pos_part h, ap neg_part h, ap pos_part k, ap neg_part k)

unpaid-Brings :
    (p q : RexPool) (s : RexState)
    → IsSound s
    → s.rexpool ≡ some p
    → q.total_lendable ≡ p.total_lendable
    → q.total_unlent ≡ p.total_unlent
    → q.total_lent ≡ p.total_lent
    → Brings (pos 0) s (set_pool q s)
unpaid-Brings p q s sound hp h k l =
    let balanced : IsBalanced (some p) = subst (λ o. IsBalanced o) hp sound.balanced in
    let done =
      set_pool-Brings q (pos 0) s sound (rw (h, k, l) balanced)
        (rw hp (same q.total_lendable p.total_lendable h)) in
    (nothing _ _ done.0, done.1)
  where
    same : (a b : ℤ) → a ≡ b → a ≡ b +ℤ pos 0
    same a b h = omega (int_laws, ap pos_part h, ap neg_part h)

    nothing : (a b : ℤ) → b ≡ a +ℤ (pos 0 -ℤ pos 0) → b ≡ a +ℤ pos 0
    nothing a b h = omega (int_laws, ap pos_part h, ap neg_part h)

take_namebids-Brings : (s s' : RexState) → IsSound s → take_namebids s ≡ ok s' → Brings (pos 0) s s'
unfolding take_namebids channel_to_rex
take_namebids-Brings s s' sound e = elim (Option-cases s.rexpool) [
  | inl h ↦ absurd (ground (arith, h))
  | inr (p, hp) ↦ elim (Bool-cases (ltb_ℤ (pos 0) p.total_rex)) [
    | inl available ↦ elim (Bool-cases (ltb_ℤ (pos 0) p.namebid_proceeds)) [
      | inr few ↦
          let out : s' ≡ s = ground (arith, hp, few, available) in rw out (Brings-same s sound)
      | inl more ↦
          let out : s' ≡ channelled p s = ground (arith, hp, more, available) in
          rw out (channelled-Brings p s sound hp)
    ]
    | inr empty ↦ elim (Bool-cases (ltb_ℤ (pos 0) p.namebid_proceeds)) [
      | inr few ↦ let out : s' ≡ s = ground (arith, hp, few, empty) in rw out (Brings-same s sound)
      | inl more ↦
          let q : RexPool = record p { namebid_proceeds = pos 0 } in
          let out : s' ≡ set_pool q s = ground (arith, hp, more, empty) in
          rw out (unpaid-Brings p q s sound hp refl refl refl)
    ]
  ]
]

pub runrex-Brings :
    (c : Chain) (max : ℕ) (s s' : RexState)
    → IsSound s
    → runrex c max s ≡ ok s'
    → Brings (pos 0) s s'
unfolding runrex
runrex-Brings c max s s' sound e = elim (Result-cases (take_namebids s)) [
  | inr (m, failed) ↦ absurd (ground (arith, failed))
  | inl (s₁, named) ↦ elim (Result-cases (run_loans c cpu max s₁)) [
    | inr (m, failed) ↦ absurd (ground (arith, named, failed))
    | inl (s₂, cpu_run) ↦ elim (Result-cases (run_loans c net max s₂)) [
      | inr (m, failed) ↦ absurd (ground (arith, named, cpu_run, failed))
      | inl (s₃, net_run) ↦
          let a = take_namebids-Brings s s₁ sound named in
          let b = run_loans-Brings c cpu max s₁ s₂ a.1 cpu_run in
          let d = run_loans-Brings c net max s₂ s₃ b.1 net_run in
          let rest : run_orders max (open_orders s₃.rexorders) s₃ ≡ ok s' =
            ground (arith, named, cpu_run, net_run) in
          let f = run_orders-Brings max (open_orders s₃.rexorders) s₃ s' d.1 rest in
          Brings-nothing (pos 0) s s₃ s'
            (Brings-nothing (pos 0) s s₂ s₃ (Brings-nothing (pos 0) s s₁ s₂ a b) d) f
    ]
  ]
]
