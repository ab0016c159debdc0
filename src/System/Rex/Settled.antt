-- ===== src/System/Rex/Settled.antt =====
-- The surplus of eosio.rex over `update_rex_account` of contracts/eosio.system/src/rex.cpp, and over
-- the changes of limits and votes.
use telos_arbitration_fix.Prelude.{
  ◌≡◌, ap, inl, inr, Bool, false, not, ◌||◌, arith, Bool-cases, Option-cases,
}
use telos_arbitration_fix.Prelude.Int.{
  ℤ, pos, pos_part, neg_part, ◌+ℤ◌, ◌-ℤ◌, ◌≤ℤ◌, int_laws, ltb_ℤ, eqb_ℤ,
}
use telos_arbitration_fix.Eosio.{Result-cases, ok, find, remove, Name}
use telos_arbitration_fix.Eosio.Sums.{sum_of, sum_of-remove}
use telos_arbitration_fix.System.{Chain}
use telos_arbitration_fix.System.Limits.{Accounts, update_resource_limits, update_voting_power}
use telos_arbitration_fix.System.Rex.{RexState}
use telos_arbitration_fix.System.Rex.Funds.{
  vote_stake, settle_order, update_rex_account, fund_positive,
}
use telos_arbitration_fix.System.Rex.Loans.{Resource, cpu, net, change_limit}
use telos_arbitration_fix.System.Rex.Surplus.{
  NonNegative-find, NonNegative-remove, due, owed, surplus, IsSound, Brings,
  transfer_to_fund-Brings,
}

pub add_zero : (a : ℤ) → a ≡ a +ℤ pos 0
add_zero a = omega int_laws

pub IsSound-accounts :
    (a : Accounts) (s : RexState) → IsSound s → IsSound (record s { accounts = a })
IsSound-accounts a s h = record {
  balanced = h.balanced;
  cpu_covered = h.cpu_covered;
  net_covered = h.net_covered;
  funds_covered = h.funds_covered;
  orders_due = h.orders_due;
}

-- Two steps bring the sum.
pub Brings-then : (x y : ℤ) (s t u : RexState) → Brings x s t → Brings y t u → Brings (x +ℤ y) s u
Brings-then x y s t u (h, _) (k, sound) = (chain (surplus s) (surplus t) (surplus u) x y h k, sound)
  where
    chain : (a b c x y : ℤ) → b ≡ a +ℤ x → c ≡ b +ℤ y → c ≡ a +ℤ (x +ℤ y)
    chain a b c x y h k =
        omega (int_laws, ap pos_part h, ap neg_part h, ap pos_part k, ap neg_part k)

-- Steps that bring nothing, in a row.
pub Brings-nothing : (x : ℤ) (s t u : RexState) → Brings x s t → Brings (pos 0) t u → Brings x s u
Brings-nothing x s t u (h, _) (k, sound) = (chain (surplus s) (surplus t) (surplus u) x h k, sound)
  where
    chain : (a b c x : ℤ) → b ≡ a +ℤ x → c ≡ b +ℤ pos 0 → c ≡ a +ℤ x
    chain a b c x h k = omega (int_laws, ap pos_part h, ap neg_part h, ap pos_part k, ap neg_part k)

pub Brings-same : (s : RexState) → IsSound s → Brings (pos 0) s s
Brings-same s h = (add_zero (surplus s), h)

pub vote_stake-Brings :
    (c : Chain) (owner : Name) (d : ℤ) (s s' : RexState)
    → IsSound s
    → vote_stake c owner d s ≡ ok s'
    → Brings (pos 0) s s'
unfolding surplus owed
vote_stake-Brings c owner d s s' sound e =
    elim (Result-cases (update_voting_power c owner d s.accounts.system)) [
      | inr (m, failed) ↦ absurd (ground (arith, failed))
      | inl (sys, done) ↦
          let a = s.accounts in
          let b : Accounts = record a { system = sys } in
          let out : s' ≡ record s { accounts = b } = ground (arith, done) in
          rw out (add_zero (surplus s), IsSound-accounts b s sound)
    ]

update_resource_limits-sent :
    (receiver : Name) (x y : ℤ) (a a' : Accounts)
    → update_resource_limits receiver x y a ≡ ok a'
    → a'.sent ≡ a.sent
unfolding update_resource_limits
update_resource_limits-sent receiver x y a a' e = ground arith

limits-Brings :
    (receiver : Name) (x y : ℤ) (s s' : RexState) (a : Accounts)
    → IsSound s
    → update_resource_limits receiver x y s.accounts ≡ ok a
    → s' ≡ record s { accounts = a }
    → Brings (pos 0) s s'
unfolding surplus owed
limits-Brings receiver x y s s' a sound done out = rw out (
  rw (update_resource_limits-sent receiver x y s.accounts a done) (add_zero (surplus s)),
  IsSound-accounts a s sound,
)

pub change_limit-Brings :
    (r : Resource) (receiver : Name) (x : ℤ) (s s' : RexState)
    → IsSound s
    → change_limit r receiver x s ≡ ok s'
    → Brings (pos 0) s s'
change_limit-Brings cpu receiver x s s' sound e =
    elim (Result-cases (update_resource_limits receiver (pos 0) x s.accounts)) [
      | inr (m, failed) ↦ absurd (ground (arith, failed))
      | inl (a, done) ↦ limits-Brings receiver (pos 0) x s s' a sound done (ground (arith, done))
    ]
change_limit-Brings net receiver x s s' sound e =
    elim (Result-cases (update_resource_limits receiver x (pos 0) s.accounts)) [
      | inr (m, failed) ↦ absurd (ground (arith, failed))
      | inl (a, done) ↦ limits-Brings receiver x (pos 0) s s' a sound done (ground (arith, done))
    ]

unsettled : (s : RexState) (x : ℤ) → IsSound s → Brings (x -ℤ x) s s
unsettled s x h = (same (surplus s) x, h)
  where
    same : (a x : ℤ) → a ≡ a +ℤ (x -ℤ x)
    same a x = omega int_laws

-- What an order that is filled brings, and that it is not less than the proceeds at hand.
settle_order-Brings :
    (owner : Name) (x d : ℤ) (s : RexState)
    → IsSound s
    → (Brings ((settle_order owner x d s).0 -ℤ x) s (settle_order owner x d s).3)
      × (x ≤ℤ (settle_order owner x d s).0)
unfolding settle_order surplus owed
settle_order-Brings owner x d s sound = elim (Option-cases (find owner s.rexorders)) [
  | inl h ↦
      let out : settle_order owner x d s ≡ (x, d, pos 0, s) = ground (arith, h) in
      rw out (unsettled s x sound, omega arith)
  | inr (o, h) ↦ elim (Bool-cases o.is_open) [
    | inl opened ↦
        let out : settle_order owner x d s ≡ (x, d, o.rex_requested, s) =
          ground (arith, h, opened) in
        rw out (unsettled s x sound, omega arith)
    | inr closed ↦
        let t = remove owner s.rexorders in
        let rest : RexState = record s { rexorders = t } in
        let out : settle_order owner x d s ≡ (x +ℤ o.proceeds, d +ℤ o.stake_change, pos 0, rest) =
          ground (arith, h, closed) in
        let owing : due o ≡ o.proceeds = ground (arith, closed) in
        let enough = NonNegative-find due owner s.rexorders o sound.orders_due h in
        let fewer = sum_of-remove due owner s.rexorders o h in
        rw out (
          (
            settled _ _ x o.proceeds (due o) (sum_of due t) (sum_of due s.rexorders) fewer owing,
            record {
              balanced = sound.balanced;
              cpu_covered = sound.cpu_covered;
              net_covered = sound.net_covered;
              funds_covered = sound.funds_covered;
              orders_due = NonNegative-remove due owner s.rexorders sound.orders_due;
            },
          ),
          greater x o.proceeds (due o) enough owing,
        )
  ]
]
  where
    settled :
        (r l x p o m n : ℤ) → m +ℤ o ≡ n → o ≡ p → r -ℤ (l +ℤ m) ≡ r -ℤ (l +ℤ n) +ℤ (x +ℤ p -ℤ x)
    settled r l x p o m n h k =
        omega (int_laws, ap pos_part h, ap neg_part h, ap pos_part k, ap neg_part k)

    greater : (x p o : ℤ) → pos 0 ≤ℤ o → o ≡ p → x ≤ℤ x +ℤ p
    greater x p o h k = omega (int_laws, ap pos_part k, ap neg_part k)

pub fund_positive-Brings :
    (owner : Name) (x : ℤ) (s s' : RexState)
    → IsSound s
    → pos 0 ≤ℤ x
    → fund_positive owner x s ≡ ok s'
    → Brings (pos 0 -ℤ x) s s'
fund_positive-Brings owner x s s' sound h e = elim (Bool-cases (ltb_ℤ (pos 0) x)) [
  | inl more ↦ transfer_to_fund-Brings owner x s s' sound (ground (arith, more))
  | inr none_left ↦
      let out : s' ≡ s = ground (arith, none_left) in
      let nothing : x ≡ pos 0 = no_less x h none_left in
      rw (out, nothing) (unsettled s (pos 0) sound)
]
  where
    no_less : (x : ℤ) → pos 0 ≤ℤ x → ltb_ℤ (pos 0) x ≡ false → x ≡ pos 0
    no_less x h e = ground arith

-- The owner's fund gets the proceeds at hand and those of a filled order, and the surplus falls by
-- the first alone.
pub update_rex_account-Brings :
    (c : Chain) (owner : Name) (x d : ℤ) (force : Bool) (s s' : RexState) (rex : ℤ)
    → IsSound s
    → pos 0 ≤ℤ x
    → update_rex_account c owner x d force s ≡ ok (rex, s')
    → Brings (pos 0 -ℤ x) s s'
unfolding update_rex_account
update_rex_account-Brings c owner x d force s s' rex sound h e =
    let to_fund = (settle_order owner x d s).0 in
    let to_stake = (settle_order owner x d s).1 in
    let s₁ = (settle_order owner x d s).3 in
    let (first, more) = settle_order-Brings owner x d s sound in
    elim (Result-cases (fund_positive owner to_fund s₁)) [
      | inr (m, failed) ↦ absurd (ground (arith, failed))
      | inl (s₂, paid) ↦
          let second =
            fund_positive-Brings owner to_fund s₁ s₂ first.1 (at_least x to_fund h more) paid in
          let both = settled_sum s s₂ x to_fund (Brings-then _ _ s s₁ s₂ first second) in
          elim (Bool-cases (force || not (eqb_ℤ to_stake (pos 0)))) [
            | inr still ↦ let out : s' ≡ s₂ = ground (arith, paid, still) in rw out both
            | inl changed ↦ elim (Result-cases (vote_stake c owner to_stake s₂)) [
              | inr (m, failed) ↦ absurd (ground (arith, paid, changed, failed))
              | inl (s₃, voted) ↦
                  let out : s' ≡ s₃ = ground (arith, paid, changed, voted) in
                  rw out (
                    Brings-nothing (pos 0 -ℤ x) s s₂ s₃ both
                      (vote_stake-Brings c owner to_stake s₂ s₃ both.1 voted))
            ]
          ]
    ]
  where
    at_least : (x y : ℤ) → pos 0 ≤ℤ x → x ≤ℤ y → pos 0 ≤ℤ y
    at_least x y h k = omega arith

    settled_sum :
        (s t : RexState) (x y : ℤ) → Brings (y -ℤ x +ℤ (pos 0 -ℤ y)) s t → Brings (pos 0 -ℤ x) s t
    settled_sum s t x y (h, sound) = (drop (surplus s) (surplus t) x y h, sound)
      where
        drop : (a b x y : ℤ) → b ≡ a +ℤ (y -ℤ x +ℤ (pos 0 -ℤ y)) → b ≡ a +ℤ (pos 0 -ℤ x)
        drop a b x y h = omega (int_laws, ap pos_part h, ap neg_part h)
