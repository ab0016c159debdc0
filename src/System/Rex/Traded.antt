-- ===== src/System/Rex/Traded.antt =====
-- The surplus of eosio.rex over deposits, purchases and sales of contracts/eosio.system/src/rex.cpp.
use telos_arbitration_fix.Prelude.{
  ℕ, ◌≡◌, refl, ap, subst, inl, inr, false, Option, none, some, arith, Bool-cases, Option-cases,
  ◌==◌,
}
use telos_arbitration_fix.Prelude.Int.{ℤ, pos, pos_part, neg_part, ◌+ℤ◌, ◌-ℤ◌, int_laws, ltb_ℤ}
use telos_arbitration_fix.Eosio.{Result-cases, ok, Table, find, put, Name, Asset}
use telos_arbitration_fix.Eosio.Names
use telos_arbitration_fix.Eosio.Sums.{sum_of}
use telos_arbitration_fix.System.{Chain}
use telos_arbitration_fix.System.Limits.{pay}
use telos_arbitration_fix.System.Rex.{RexPool, RexBalance, RexOrder, RexState}
use telos_arbitration_fix.System.Rex.Pool.{
  mul_div, new_pool, buy_from_pool, add_to_rex_pool, set_pool,
}
use telos_arbitration_fix.System.Rex.Funds.{
  transfer_from_fund, transfer_to_fund, update_rex_account,
}
use telos_arbitration_fix.System.Rex.Balances.{grow_balance, bucket_rex, add_to_rex_balance}
use telos_arbitration_fix.System.Rex.Loans.{runrex}
use telos_arbitration_fix.System.Rex.Actions.{deposit, withdraw, buyrex}
use telos_arbitration_fix.System.Rex.Surplus.{
  NonNegative, due, lendable, owed, surplus, IsSound, Brings, transfer_from_fund-Brings,
  transfer_to_fund-Brings,
}
use telos_arbitration_fix.System.Rex.Settled.{add_zero, update_rex_account-Brings}
use telos_arbitration_fix.System.Rex.Renewed.{set_pool-Brings}
use telos_arbitration_fix.System.Rex.Executed.{runrex-Brings}
use telos_arbitration_fix.System.Rex.Filled.{pay-Brings}

-- A pool without REX has no tokens either.
abbrev pub IsSpent : Option RexPool → Type 0
IsSpent none = Unit
IsSpent (some p) = ltb_ℤ (pos 0) p.total_rex ≡ false → p.total_lendable ≡ pos 0

-- The rows of REX are not part of what is owed.
pub balances-Brings :
    (t : Table RexBalance) (s : RexState)
    → IsSound s
    → Brings (pos 0) s (record s { rexbalance = t })
unfolding surplus owed
balances-Brings t s sound = (
  add_zero (surplus s),
  record {
    balanced = sound.balanced;
    cpu_covered = sound.cpu_covered;
    net_covered = sound.net_covered;
    funds_covered = sound.funds_covered;
    orders_due = sound.orders_due;
  },
)

-- The orders as a sum that stays.
pub orders-Brings :
    (t : Table RexOrder) (s : RexState)
    → IsSound s
    → NonNegative due t
    → sum_of due t ≡ sum_of due s.rexorders
    → Brings (pos 0) s (record s { rexorders = t })
unfolding surplus owed
orders-Brings t s sound covered h = (
  rw h (add_zero (surplus s)),
  record {
    balanced = sound.balanced;
    cpu_covered = sound.cpu_covered;
    net_covered = sound.net_covered;
    funds_covered = sound.funds_covered;
    orders_due = covered;
  },
)

new_pool-Brings :
    (x n : ℤ) (k : ℕ) (s : RexState)
    → IsSound s
    → lendable s.rexpool ≡ pos 0
    → Brings (pos 0 -ℤ x) s (set_pool (new_pool x n k) s)
new_pool-Brings x n k s sound h =
    set_pool-Brings (new_pool x n k) x s sound (whole x) (rw h (fresh x))
  where
    whole : (x : ℤ) → x -ℤ pos 0 +ℤ pos 0 ≡ x
    whole x = omega int_laws

    fresh : (x : ℤ) → x ≡ pos 0 +ℤ x
    fresh x = omega int_laws

pub add_to_rex_pool-Brings :
    (x rex : ℤ) (s s' : RexState)
    → IsSound s
    → IsSpent s.rexpool
    → add_to_rex_pool x s ≡ ok (rex, s')
    → Brings (pos 0 -ℤ x) s s'
unfolding add_to_rex_pool buy_from_pool
add_to_rex_pool-Brings x rex s s' sound spent e = elim (Option-cases s.rexpool) [
  | inl h ↦
      let out : s' ≡ set_pool (new_pool x (pos 0) 0) s = ground (arith, h) in
      rw out (new_pool-Brings x (pos 0) 0 s sound (rw h refl))
  | inr (p, h) ↦ elim (Bool-cases (ltb_ℤ (pos 0) p.total_rex)) [
    | inr empty ↦
        let out : s' ≡ set_pool (new_pool x p.namebid_proceeds p.loan_num) s =
          ground (arith, h, empty) in
        let nothing : lendable s.rexpool ≡ pos 0 = rw h (subst (λ o. IsSpent o) h spent empty) in
        rw out (new_pool-Brings x p.namebid_proceeds p.loan_num s sound nothing)
    | inl some_rex ↦
        let s1 = p.total_lendable +ℤ x in
        let q : RexPool = record p {
          total_lendable = s1;
          total_rex = mul_div s1 p.total_rex p.total_lendable;
          total_unlent = s1 -ℤ p.total_lent;
        } in
        let out : s' ≡ set_pool q s = ground (arith, h, some_rex) in
        rw out (set_pool-Brings q x s sound (back s1 p.total_lent) (rw h refl))
  ]
]
  where
    back : (a b : ℤ) → a -ℤ b +ℤ b ≡ a
    back a b = omega int_laws

pub add_to_rex_balance-Brings :
    (c : Chain) (owner : Name) (x rex d : ℤ) (s s' : RexState)
    → IsSound s
    → add_to_rex_balance c owner x rex s ≡ ok (d, s')
    → Brings (pos 0) s s'
unfolding add_to_rex_balance
add_to_rex_balance-Brings c owner x rex d s s' sound e = elim (Option-cases s.rexpool) [
  | inl h ↦ absurd (ground (arith, h))
  | inr (p, h) ↦ elim (Result-cases (grow_balance owner x rex p (find owner s.rexbalance))) [
    | inr (m, failed) ↦ absurd (ground (arith, h, failed))
    | inl (rb, grown) ↦
        let t = put owner (bucket_rex c rex rb) s.rexbalance in
        let out : s' ≡ record s { rexbalance = t } = ground (arith, h, grown) in
        rw out (balances-Brings t s sound)
  ]
]

pub deposit-Brings :
    (c : Chain) (owner : Name) (amount : Asset) (s s' : RexState)
    → IsSound s
    → (owner == Names.eosio_rex) ≡ false
    → deposit c owner amount s ≡ ok s'
    → Brings (pos 0) s s'
unfolding deposit
deposit-Brings c owner amount s s' sound other e =
    let x = amount.amount in
    let s₁ : RexState = record s { accounts = pay owner Names.eosio_rex x s.accounts } in
    let first = pay-Brings owner Names.eosio_rex x s sound in
    let done : transfer_to_fund owner x s₁ ≡ ok s' = ground arith in
    let second = transfer_to_fund-Brings owner x s₁ s' first.1 done in
    (level _ _ _ _ x first.0 (rw other refl) second.0, second.1)
  where
    level : (a b c y x : ℤ) → b ≡ a +ℤ y → y ≡ x -ℤ pos 0 → c ≡ b +ℤ (pos 0 -ℤ x) → c ≡ a +ℤ pos 0
    level a b c y x h k l = omega (
      int_laws,
      ap pos_part h,
      ap neg_part h,
      ap pos_part k,
      ap neg_part k,
      ap pos_part l,
      ap neg_part l,
    )

pub withdraw-Brings :
    (c : Chain) (owner : Name) (amount : Asset) (s s' : RexState)
    → IsSound s
    → (owner == Names.eosio_rex) ≡ false
    → withdraw c owner amount s ≡ ok s'
    → Brings (pos 0) s s'
unfolding withdraw
withdraw-Brings c owner amount s s' sound other e =
    let x = amount.amount in
    elim (Result-cases (update_rex_account c owner (pos 0) (pos 0) false s)) [
      | inr (m, failed) ↦ absurd (ground (arith, failed))
      | inl ((r, s₁), settled) ↦ elim (Result-cases (transfer_from_fund owner x s₁)) [
        | inr (m, failed) ↦ absurd (ground (arith, settled, failed))
        | inl (s₂, taken) ↦
            let first =
              update_rex_account-Brings c owner (pos 0) (pos 0) false s s₁ r sound (omega arith)
                settled in
            let second = transfer_from_fund-Brings owner x s₁ s₂ first.1 taken in
            let third = pay-Brings Names.eosio_rex owner x s₂ second.1 in
            let out : s' ≡ record s₂ { accounts = pay Names.eosio_rex owner x s₂.accounts } =
              ground (arith, settled, taken) in
            rw out (level _ _ _ _ _ x first.0 second.0 (rw other refl) third.0, third.1)
      ]
    ]
  where
    level :
        (a b c d y x : ℤ)
        → b ≡ a +ℤ (pos 0 -ℤ pos 0)
        → c ≡ b +ℤ x
        → y ≡ pos 0 -ℤ x
        → d ≡ c +ℤ y
        → d ≡ a +ℤ pos 0
    level a b c d y x h k l m = omega (
      int_laws,
      ap pos_part h,
      ap neg_part h,
      ap pos_part k,
      ap neg_part k,
      ap pos_part l,
      ap neg_part l,
      ap pos_part m,
      ap neg_part m,
    )

same_pool :
    (from : Name) (x : ℤ) (s s₁ : RexState)
    → transfer_from_fund from x s ≡ ok s₁
    → s₁.rexpool ≡ s.rexpool
unfolding transfer_from_fund
same_pool from x s s₁ e = ground arith

pub buyrex-Brings :
    (c : Chain) (from : Name) (amount : Asset) (s s' : RexState)
    → IsSound s
    → IsSpent s.rexpool
    → buyrex c from amount s ≡ ok s'
    → Brings (pos 0) s s'
unfolding buyrex
buyrex-Brings c from amount s s' sound spent e =
    let x = amount.amount in
    elim (Result-cases (transfer_from_fund from x s)) [
      | inr (m, failed) ↦ absurd (ground (arith, failed))
      | inl (s₁, taken) ↦ elim (Result-cases (add_to_rex_pool x s₁)) [
        | inr (m, failed) ↦ absurd (ground (arith, taken, failed))
        | inl ((rex, s₂), pooled) ↦ elim (Result-cases (add_to_rex_balance c from x rex s₂)) [
          | inr (m, failed) ↦ absurd (ground (arith, taken, pooled, failed))
          | inl ((d, s₃), held) ↦ elim (Result-cases (runrex c 2 s₃)) [
            | inr (m, failed) ↦ absurd (ground (arith, taken, pooled, held, failed))
            | inl (s₄, ran) ↦ elim (Result-cases (update_rex_account c from (pos 0) d false s₄)) [
              | inr (m, failed) ↦ absurd (ground (arith, taken, pooled, held, ran, failed))
              | inl ((r, s₅), settled) ↦
                  let out : s' ≡ s₅ = ground (arith, taken, pooled, held, ran, settled) in
                  let f = transfer_from_fund-Brings from x s s₁ sound taken in
                  let g =
                    add_to_rex_pool-Brings x rex s₁ s₂ f.1 (still from x s s₁ spent taken) pooled in
                  let h = add_to_rex_balance-Brings c from x rex d s₂ s₃ g.1 held in
                  let i = runrex-Brings c 2 s₃ s₄ h.1 ran in
                  let j =
                    update_rex_account-Brings c from (pos 0) d false s₄ s₅ r i.1 (omega arith)
                      settled in
                  rw out (level _ _ _ _ _ _ x f.0 g.0 h.0 i.0 j.0, j.1)
            ]
          ]
        ]
      ]
    ]
  where
    still :
        (from : Name) (x : ℤ) (s s₁ : RexState)
        → IsSpent s.rexpool
        → transfer_from_fund from x s ≡ ok s₁
        → IsSpent s₁.rexpool
    still from x s s₁ spent taken = rw (same_pool from x s s₁ taken) spent

    level :
        (a b c d e f x : ℤ)
        → b ≡ a +ℤ x
        → c ≡ b +ℤ (pos 0 -ℤ x)
        → d ≡ c +ℤ pos 0
        → e ≡ d +ℤ pos 0
        → f ≡ e +ℤ (pos 0 -ℤ pos 0)
        → f ≡ a +ℤ pos 0
    level a b c d e f x h i j k l = omega (
      int_laws,
      ap pos_part h,
      ap neg_part h,
      ap pos_part i,
      ap neg_part i,
      ap pos_part j,
      ap neg_part j,
      ap pos_part k,
      ap neg_part k,
      ap pos_part l,
      ap neg_part l,
    )
