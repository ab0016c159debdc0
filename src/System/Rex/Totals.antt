-- ===== src/System/Rex/Totals.antt =====
-- The REX of a row in the buckets of contracts/eosio.system/src/rex.cpp.
use telos_arbitration_fix.Prelude.{
  ℕ, ◌≡◌, refl, sym, inl, inr, true, none, some, [], ◌∷◌, ◌++◌, arith, Option-cases, Bool-cases,
  ◌==◌, leb,
}
use telos_arbitration_fix.Prelude.Int.{ℤ, pos, ◌+ℤ◌, eqb_ℤ, int_laws}
use telos_arbitration_fix.System.Rex.{Buckets, RexBalance}
use telos_arbitration_fix.System.Rex.Buckets.{
  end_of_days, unsnoc, add_to_bucket, mature, process_rex_maturities, read_rex_savings,
  put_rex_savings, empty_buckets,
}

unfoldable pub total : Buckets → ℤ
total [] = pos 0
total ((_, a) ∷ bs) = a +ℤ total bs

-- The REX of a row, matured or in a bucket.
unfoldable pub held : RexBalance → ℤ
unfolding total
held rb = rb.matured_rex +ℤ total rb.rex_maturities

nested : (a b r : ℤ) → a +ℤ b +ℤ r ≡ a +ℤ (b +ℤ r)
nested a b r = omega int_laws

add_zero : (a : ℤ) → a +ℤ pos 0 ≡ a
add_zero a = omega int_laws

pub eqb_ℤ→≡ : (a b : ℤ) → eqb_ℤ a b ≡ true → a ≡ b
eqb_ℤ→≡ a b h = ground arith

swap : (a : ℤ) → a +ℤ pos 0 ≡ pos 0 +ℤ a
swap a = omega int_laws

regroup : (r b a : ℤ) → r +ℤ (b +ℤ a +ℤ pos 0) ≡ r +ℤ b +ℤ a
regroup r b a = omega int_laws

regroup_one : (r a : ℤ) → r +ℤ (a +ℤ pos 0) ≡ r +ℤ a
regroup_one r a = omega int_laws

pub total-append : (bs cs : Buckets) → total (bs ++ cs) ≡ total bs +ℤ total cs
unfolding total
total-append [] cs = omega int_laws
total-append ((t, a) ∷ bs) cs = rw (total-append bs cs) (sym (nested a (total bs) (total cs)))

unsnoc-none : (bs : Buckets) → unsnoc bs ≡ none → bs ≡ []
unfolding unsnoc
unsnoc-none [] e = refl
unsnoc-none (b ∷ bs) e = elim (Option-cases (unsnoc bs)) [
  | inl h ↦ absurd (ground (arith, h))
  | inr ((i, l), h) ↦ absurd (ground (arith, h))
]

pub unsnoc-append :
    (bs init : Buckets) (last : ℕ × ℤ) → unsnoc bs ≡ some (init, last) → bs ≡ init ++ last ∷ []
unfolding unsnoc
unsnoc-append [] init last e = absurd (ground arith)
unsnoc-append (b ∷ bs) init last e = elim (Option-cases (unsnoc bs)) [
  | inl h ↦
      let empty = unsnoc-none bs h in
      let first : init ≡ [] = ground (arith, h) in
      let same : last ≡ b = ground (arith, h) in rw (empty, first, same) refl
  | inr ((i, l), h) ↦
      let shorter = unsnoc-append bs i l h in
      let first : init ≡ b ∷ i = ground (arith, h) in
      let same : last ≡ l = ground (arith, h) in rw (first, same, shorter) refl
]

pub unsnoc-total :
    (bs init : Buckets) (t : ℕ) (a : ℤ)
    → unsnoc bs ≡ some (init, (t, a))
    → total bs ≡ total init +ℤ a
unfolding total
unsnoc-total bs init t a e =
    rw (unsnoc-append bs init (t, a) e, total-append init ((t, a) ∷ [])) (omega int_laws)

mature-total :
    (now : ℕ) (m : ℤ) (bs : Buckets)
    → (mature now m bs).0 +ℤ total (mature now m bs).1 ≡ m +ℤ total bs
unfolding mature total
mature-total now m [] = refl
mature-total now m ((t, a) ∷ bs) = elim (Bool-cases (leb t now)) [
  | inl h ↦ rw (h, mature-total now (m +ℤ a) bs) (nested m a (total bs))
  | inr h ↦ rw h refl
]

pub process_rex_maturities-held :
    (now : ℕ) (rb : RexBalance) → held (process_rex_maturities now rb) ≡ held rb
unfolding process_rex_maturities held
process_rex_maturities-held now rb = mature-total now rb.matured_rex rb.rex_maturities

add_to_bucket-total : (t : ℕ) (a : ℤ) (bs : Buckets) → total (add_to_bucket t a bs) ≡ total bs +ℤ a
unfolding add_to_bucket total
add_to_bucket-total t a bs = elim (Option-cases (unsnoc bs)) [
  | inl h ↦
      let out : add_to_bucket t a bs ≡ (t, a) ∷ [] = ground (arith, h) in
      rw (out, unsnoc-none bs h) (swap a)
  | inr ((i, (u, b)), h) ↦ elim (Bool-cases (u == t)) [
    | inl same ↦
        let out : add_to_bucket t a bs ≡ i ++ (u, b +ℤ a) ∷ [] = ground (arith, h, same) in
        rw (out, total-append i ((u, b +ℤ a) ∷ []), unsnoc-total bs i u b h) (regroup (total i) b a)
    | inr other ↦
        let out : add_to_bucket t a bs ≡ bs ++ (t, a) ∷ [] = ground (arith, h, other) in
        rw (out, total-append bs ((t, a) ∷ [])) (regroup_one (total bs) a)
  ]
]

pub read_rex_savings-held :
    (rb : RexBalance) → held (read_rex_savings rb).1 +ℤ (read_rex_savings rb).0 ≡ held rb
unfolding read_rex_savings held
read_rex_savings-held rb = elim (Option-cases (unsnoc rb.rex_maturities)) [
  | inl h ↦
      let out : read_rex_savings rb ≡ (pos 0, rb) = ground (arith, h) in rw out (add_zero (held rb))
  | inr ((i, (u, b)), h) ↦ elim (Bool-cases (u == end_of_days)) [
    | inl same ↦
        let out : read_rex_savings rb ≡ (b, record rb { rex_maturities = i }) =
          ground (arith, h, same) in
        rw (out, unsnoc-total rb.rex_maturities i u b h) (nested rb.matured_rex (total i) b)
    | inr other ↦
        let out : read_rex_savings rb ≡ (pos 0, rb) = ground (arith, h, other) in
        rw out (add_zero (held rb))
  ]
]

pub put_rex_savings-held :
    (rex : ℤ) (rb : RexBalance) → held (put_rex_savings rex rb) ≡ held rb +ℤ rex
unfolding put_rex_savings held
put_rex_savings-held rex rb = elim (Bool-cases (eqb_ℤ rex (pos 0))) [
  | inl h ↦
      let nothing : rex ≡ pos 0 = eqb_ℤ→≡ rex (pos 0) h in
      rw (h, nothing) (sym (add_zero (held rb)))
  | inr h ↦
      rw (h, add_to_bucket-total end_of_days rex rb.rex_maturities)
        (sym (nested rb.matured_rex (total rb.rex_maturities) rex))
]

empty_buckets-total : (n : ℤ) (bs : Buckets) → empty_buckets n bs ≡ n +ℤ total bs
unfolding empty_buckets total
empty_buckets-total n [] = sym (add_zero n)
empty_buckets-total n ((t, a) ∷ bs) = rw (empty_buckets-total (n +ℤ a) bs) (nested n a (total bs))
