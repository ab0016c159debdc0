-- ===== src/System/Rex/Price.antt =====
-- The price of REX over a purchase and a sale, of contracts/eosio.system/src/rex.cpp.
use telos_arbitration_fix.Prelude.{
  ℕ, ◌+◌, ◌-◌, ◌*◌, ◌/◌, ◌^◌, ◌≤◌, ◌<◌, ◌≡◌, refl, subst, ◌⊎◌, arith, leb, inl, inr, Bool-cases,
  true,
}
use native.Mathlib.Nat.{
  div-le_of_le-mul, le-div_iff_mul-le, div-mul-le_self, mul-le-mul, mod-eq_of_lt,
}
use telos_arbitration_fix.Prelude.Int.{ℤ, pos, ◌+ℤ◌, ◌-ℤ◌, ◌≤ℤ◌, int_laws, ltb_ℤ}
use telos_arbitration_fix.Eosio.{ok}
use telos_arbitration_fix.System.Rex.{RexPool}
use telos_arbitration_fix.System.Rex.Pool.{wide, mul_div, try_mul_div, buy_from_pool}

split_le : (a b : ℕ) → (a ≤ b) ⊎ ((d : ℕ) × (a ≡ b + d))
split_le a b = elim (Bool-cases (leb a b)) [
  | inl h ↦ inl (ground (arith, h))
  | inr h ↦ inr (a - b, ground (arith, h))
]

-- What R' is worth beyond R, where R' has the old price, is at most what the pool grew by.
gain : (s r x r' : ℕ) → r' * s ≤ (s + x) * r → (r' - r) * (s + x) ≤ r' * x
gain s r x r' h = elim (split_le r' r) [
  | inl low ↦ rw (none_left r' r low) (omega arith)
  | inr (d, e) ↦ rw (e, rest r d) (above s r x d (subst (λ n. n * s ≤ (s + x) * r) e h))
]
  where
    none_left : (a b : ℕ) → a ≤ b → a - b ≡ 0
    none_left a b h = omega arith

    rest : (r d : ℕ) → r + d - r ≡ d
    rest r d = omega arith

    above : (s r x d : ℕ) → (r + d) * s ≤ (s + x) * r → d * (s + x) ≤ (r + d) * x
    above s r x d h = omega arith

-- Two amounts of an asset have a product that fits.
fits : (a b : ℕ) → a < 2 ^ 62 → b < 2 ^ 62 → a * b < 2 ^ 128
fits a b h k = below (mul-le-mul (low a h) (low b k))
  where
    low : (a : ℕ) → a < 2 ^ 62 → a ≤ 2 ^ 62
    low a h = omega arith

    below : {n : ℕ} → n ≤ 2 ^ 62 * 2 ^ 62 → n < 2 ^ 128
    below h = omega arith

wide-small : (a : ℕ) → a < 2 ^ 62 → wide (pos a) ≡ a
unfolding wide
wide-small a h = mod-eq_of_lt (more a h)
  where
    more : (a : ℕ) → a < 2 ^ 62 → a < 2 ^ 128
    more a h = omega arith

pos_add : (a b : ℕ) → pos a +ℤ pos b ≡ pos (a + b)
pos_add a b = omega int_laws

pos_sub : (a b : ℕ) → b ≤ a → pos a -ℤ pos b ≡ pos (a - b)
pos_sub a b h = omega int_laws

old_price : (s r x : ℕ) → 0 < s → r ≤ (s + x) * r / s
old_price s r x p = (le-div_iff_mul-le p).1 (more s r x)
  where
    more : (s r x : ℕ) → r * s ≤ (s + x) * r
    more s r x = omega arith

mul_div-small :
    (a b c : ℕ)
    → a < 2 ^ 62
    → b < 2 ^ 62
    → c < 2 ^ 62
    → mul_div (pos a) (pos b) (pos c) ≡ pos (a * b / c)
unfolding mul_div
mul_div-small a b c ha hb hc =
    rw (wide-small a ha, wide-small b hb, wide-small c hc, mod-eq_of_lt (fits a b ha hb)) refl

-- The REX of a purchase sells for no more than was paid.
worth_at_most : (s r x : ℕ) → 0 < s → ((s + x) * r / s - r) * (s + x) / ((s + x) * r / s) ≤ x
worth_at_most s r x p =
    let r' = (s + x) * r / s in
    div-le_of_le-mul r' (gain s r x r' (div-mul-le_self ((s + x) * r) s))

after_purchase :
    (x : ℤ) (p q : RexPool) (rex : ℤ)
    → buy_from_pool x p ≡ ok (rex, q)
    → (q.total_rex ≡ mul_div (p.total_lendable +ℤ x) p.total_rex p.total_lendable)
      × (rex ≡ q.total_rex -ℤ p.total_rex)
      × (q.total_lendable ≡ p.total_lendable +ℤ x)
      × (ltb_ℤ (pos 0) p.total_lendable ≡ true)
unfolding buy_from_pool
after_purchase x p q rex e = (ground arith, ground arith, ground arith, ground arith)

sale_value : (a b c y : ℤ) → try_mul_div a b c ≡ ok y → y ≡ mul_div a b c
unfolding try_mul_div
sale_value a b c y e = ground arith

-- REX that is bought from a pool and sold to it at once is worth no more than was paid for it,
-- where the amounts of the pool, before and after, are those that an asset may have.
pub buy_from_pool-try_mul_div :
    (s r x : ℕ) (p q : RexPool) (rex y : ℤ)
    → p.total_lendable ≡ pos s
    → p.total_rex ≡ pos r
    → r < 2 ^ 62
    → s + x < 2 ^ 62
    → (s + x) * r / s < 2 ^ 62
    → buy_from_pool (pos x) p ≡ ok (rex, q)
    → try_mul_div rex q.total_lendable q.total_rex ≡ ok y
    → y ≤ℤ pos x
buy_from_pool-try_mul_div s r x p q rex y hs hr low small small' e f =
    let r' = (s + x) * r / s in
    let (total, gained, whole, nonempty) = after_purchase (pos x) p q rex e in
    let some_tokens : 0 < s = positive s p.total_lendable hs nonempty in
    let sum : pos s +ℤ pos x ≡ pos (s + x) = pos_add s x in
    let fewer : s < 2 ^ 62 = lower s x small in
    let price : mul_div (pos s +ℤ pos x) (pos r) (pos s) ≡ pos r' =
      rw sum (mul_div-small (s + x) r s small low fewer) in
    let all : q.total_rex ≡ pos r' = rw (total, hs, hr) price in
    let tokens : q.total_lendable ≡ pos (s + x) = rw (whole, hs) sum in
    let bought : rex ≡ pos (r' - r) =
      rw (gained, all, hr) (pos_sub r' r (old_price s r x some_tokens)) in
    let value : y ≡ pos ((r' - r) * (s + x) / r') =
      rw (sale_value rex q.total_lendable q.total_rex y f, bought, tokens, all)
        (mul_div-small (r' - r) (s + x) r' (less r' r small') small small') in
    rw value (at_most _ x (worth_at_most s r x some_tokens))
  where
    positive : (s : ℕ) (a : ℤ) → a ≡ pos s → ltb_ℤ (pos 0) a ≡ true → 0 < s
    positive s a h k = ground arith

    lower : (s x : ℕ) → s + x < 2 ^ 62 → s < 2 ^ 62
    lower s x h = omega arith

    less : (a b : ℕ) → a < 2 ^ 62 → a - b < 2 ^ 62
    less a b h = omega arith

    at_most : (a x : ℕ) → a ≤ x → pos a ≤ℤ pos x
    at_most a x h = omega arith
