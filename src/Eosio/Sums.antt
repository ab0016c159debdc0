-- ===== src/Eosio/Sums.antt =====
-- The sum of a quantity over the rows of a table, and what storing a row does to it.
use telos_arbitration_fix.Prelude.{
  ℕ, ◌≡◌, ap, inl, inr, none, some, [], ◌∷◌, ◌==◌, arith, Bool-cases, Option-cases,
}
use telos_arbitration_fix.Prelude.Int.{ℤ, pos, ◌+ℤ◌, int_laws, pos_part, neg_part}
use telos_arbitration_fix.Eosio.MultiIndex.{Table, find, insert, modify, remove, put}

pub exchange : (a b c : ℤ) → a +ℤ c +ℤ b ≡ b +ℤ c +ℤ a
exchange a b c = omega int_laws

pub extend : (a m w t u : ℤ) → m +ℤ w ≡ t +ℤ u → a +ℤ m +ℤ w ≡ a +ℤ t +ℤ u
extend a m w t u h = omega (int_laws, ap pos_part h, ap neg_part h)

swap : (a b : ℤ) → b +ℤ a ≡ a +ℤ b
swap a b = omega int_laws

shift : (a m w t : ℤ) → m +ℤ w ≡ t → a +ℤ m +ℤ w ≡ a +ℤ t
shift a m w t h = omega (int_laws, ap pos_part h, ap neg_part h)

module _ {ℓ} {V : Type ℓ} where
  unfoldable pub sum_of : (V → ℤ) → Table V → ℤ
  sum_of f [] = pos 0
  sum_of f ((_, v) ∷ t) = f v +ℤ sum_of f t

  -- What the row of a key adds, and nothing if there is none.
  abbrev pub share_of : (V → ℤ) → ℕ → Table V → ℤ
  share_of f k t = elim (find k t) [ none ↦ pos 0 | some v ↦ f v ]

  pub sum_of-insert :
      (f : V → ℤ) (k : ℕ) (v : V) (t : Table V) → sum_of f (insert k v t) ≡ sum_of f t +ℤ f v
  unfolding sum_of
  sum_of-insert f k v [] = omega int_laws
  sum_of-insert f k v ((j, w) ∷ t) = grind (int_laws, sum_of-insert f k v t)

  pub sum_of-modify :
      (f : V → ℤ) (g : V → V) (k : ℕ) (t : Table V) (w : V)
      → find k t ≡ some w
      → sum_of f (modify k g t) +ℤ f w ≡ sum_of f t +ℤ f (g w)
  unfolding sum_of
  sum_of-modify f g k [] w e = cc
  sum_of-modify f g k ((j, x) ∷ t) w e = ground (
    arith,
    exchange (f (g x)) (f x) (sum_of f t),
    extend (f x) (sum_of f (modify k g t)) (f w) (sum_of f t) (f (g w)),
    sum_of-modify f g k t w,
  )

  pub sum_of-remove :
      (f : V → ℤ) (k : ℕ) (t : Table V) (w : V)
      → find k t ≡ some w
      → sum_of f (remove k t) +ℤ f w ≡ sum_of f t
  unfolding sum_of
  sum_of-remove f k [] w e = absurd (ground arith)
  sum_of-remove f k ((j, x) ∷ t) w e = elim (Bool-cases (j == k)) [
    | inl here ↦
        let same : x ≡ w = ground (arith, here) in rw (here, same) (swap (f w) (sum_of f t))
    | inr other ↦ rw other (
        shift (f x) (sum_of f (remove k t)) (f w) (sum_of f t)
          (sum_of-remove f k t w (ground (arith, other))))
  ]

  pub sum_of-put :
      (f : V → ℤ) (k : ℕ) (v : V) (t : Table V)
      → sum_of f (put k v t) +ℤ share_of f k t ≡ sum_of f t +ℤ f v
  sum_of-put f k v t = elim (Option-cases (find k t)) [
    | inl e ↦ grind (int_laws, sum_of-insert f k v t)
    | inr (w, e) ↦ ground (arith, sum_of-modify f (λ _. v) k t w)
  ]
