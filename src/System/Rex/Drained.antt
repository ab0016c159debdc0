-- ===== src/System/Rex/Drained.antt =====
-- The loop of `mvtosavings` of contracts/eosio.system/src/rex.cpp.
use telos_arbitration_fix.Prelude.{
  ℕ, zero, suc, ◌+◌, ◌≤◌, ◌≡◌, refl, ap, ◌∙◌, inl, inr, false, some, [], ◌∷◌, ◌++◌, length, arith,
  Option-cases, Bool-cases, length-append,
}
use telos_arbitration_fix.Prelude.Int.{
  ℤ, pos, pos_part, neg_part, ◌+ℤ◌, ◌-ℤ◌, ltb_ℤ, eqb_ℤ, int_laws,
}
use telos_arbitration_fix.System.Rex.{Buckets}
use telos_arbitration_fix.System.Rex.Buckets.{unsnoc, min_ℤ, drain}
use telos_arbitration_fix.System.Rex.Totals.{
  total, eqb_ℤ→≡, total-append, unsnoc-append, unsnoc-total,
}

moved : (x l d r a n : ℤ) → x +ℤ (l -ℤ d) ≡ r +ℤ n → a -ℤ d ≡ pos 0 → x +ℤ l ≡ r +ℤ a +ℤ n
moved x l d r a n h k = omega (int_laws, ap pos_part h, ap neg_part h, ap pos_part k, ap neg_part k)

lowered : (x l d r a n : ℤ) → x +ℤ (l -ℤ d) ≡ r +ℤ (a -ℤ d +ℤ pos 0) +ℤ n → x +ℤ l ≡ r +ℤ a +ℤ n
lowered x l d r a n h = omega (int_laws, ap pos_part h, ap neg_part h)

pub drain-total :
    (fuel : ℕ) (left : ℤ) (bs : Buckets) (rest : ℤ) (cs : Buckets)
    → drain fuel left bs ≡ some (rest, cs)
    → total cs +ℤ left ≡ total bs +ℤ rest
unfolding drain total
drain-total zero left bs rest cs e = absurd (ground arith)
drain-total (suc fuel) left bs rest cs e = elim (Option-cases (unsnoc bs)) [
  | inl h ↦
      let same : cs ≡ bs = ground (arith, h) in
      let stays : rest ≡ left = ground (arith, h) in rw (same, stays) refl
  | inr ((i, (t, a)), h) ↦ elim (Bool-cases (ltb_ℤ (pos 0) left)) [
    | inr done ↦
        let same : cs ≡ bs = ground (arith, h, done) in
        let stays : rest ≡ left = ground (arith, h, done) in rw (same, stays) refl
    | inl more ↦
        let d = min_ℤ left a in
        elim (Bool-cases (eqb_ℤ (a -ℤ d) (pos 0))) [
          | inl empty ↦
              let next : drain fuel (left -ℤ d) i ≡ some (rest, cs) =
                ground (arith, h, more, empty) in
              rw (unsnoc-total bs i t a h) (
                moved (total cs) left d (total i) a rest
                  (drain-total fuel (left -ℤ d) i rest cs next) (eqb_ℤ→≡ (a -ℤ d) (pos 0) empty))
          | inr kept ↦
              let js = i ++ (t, a -ℤ d) ∷ [] in
              let next : drain fuel (left -ℤ d) js ≡ some (rest, cs) =
                ground (arith, h, more, kept) in
              rw (unsnoc-total bs i t a h) (
                lowered (total cs) left d (total i) a rest (
                  drain-total fuel (left -ℤ d) js rest cs next
                  ∙ ap (λ x. x +ℤ rest) (total-append i ((t, a -ℤ d) ∷ []))))
        ]
  ]
]

drain-stops :
    (fuel : ℕ) (left : ℤ) (bs : Buckets)
    → ltb_ℤ (pos 0) left ≡ false
    → drain (suc fuel) left bs ≡ some (left, bs)
unfolding drain
drain-stops fuel left bs done = elim (Option-cases (unsnoc bs)) [
  | inl h ↦ ground (arith, h, done)
  | inr ((i, (t, a)), h) ↦ ground (arith, h, done)
]

-- What is taken is all of the bucket or all that is left.
min_rest :
    (left a : ℤ)
    → eqb_ℤ (a -ℤ min_ℤ left a) (pos 0) ≡ false
    → ltb_ℤ (pos 0) (left -ℤ min_ℤ left a) ≡ false
unfolding ◌-ℤ◌
min_rest left a h = ground arith

shorter : (bs i : Buckets) (b : ℕ × ℤ) → unsnoc bs ≡ some (i, b) → length bs ≡ length i + 1
shorter bs i b h = rw (unsnoc-append bs i b h, length-append i (b ∷ [])) refl

drain_ends :
    (fuel : ℕ) (left : ℤ) (bs : Buckets)
    → length bs + 2 ≤ fuel
    → (r : ℤ × Buckets) × (drain fuel left bs ≡ some r)
unfolding drain
drain_ends zero left bs enough = absurd (omega arith)
drain_ends (suc fuel) left bs enough = elim (Option-cases (unsnoc bs)) [
  | inl h ↦ ((left, bs), ground (arith, h))
  | inr ((i, (t, a)), h) ↦ elim (Bool-cases (ltb_ℤ (pos 0) left)) [
    | inr done ↦ ((left, bs), ground (arith, h, done))
    | inl more ↦
        let d = min_ℤ left a in
        elim (Bool-cases (eqb_ℤ (a -ℤ d) (pos 0))) [
          | inl empty ↦
              let (r, ended) =
                drain_ends fuel (left -ℤ d) i (omega (arith, shorter bs i (t, a) h)) in
              (r, ground (arith, h, more, empty, ended))
          | inr kept ↦
              elim fuel
                  as (λ f.
                    (length bs + 2 ≤ suc f)
                    → (r : ℤ × Buckets) × (drain (suc f) left bs ≡ some r)) [
                      | zero ↦ λ e. absurd (omega (arith, shorter bs i (t, a) h))
                      | suc f ↦ λ e.
                          let js = i ++ (t, a -ℤ d) ∷ [] in
                          let stop = drain-stops f (left -ℤ d) js (min_rest left a kept) in
                          ((left -ℤ d, js), ground (arith, h, more, kept, stop))
                    ]
                enough
        ]
  ]
]

-- The loop of `mvtosavings` ends: with a turn for each bucket and two more, it has a result for any
-- amount and any buckets.
pub drain_returns :
    (left : ℤ) (bs : Buckets) → (r : ℤ × Buckets) × (drain (suc (suc (length bs))) left bs ≡ some r)
drain_returns left bs = drain_ends (suc (suc (length bs))) left bs (omega arith)
