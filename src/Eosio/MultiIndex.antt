-- ===== src/Eosio/MultiIndex.antt =====
-- A multi-index table of one scope: the rows by primary key, in the order of the keys.
-- A scoped table is a table of tables, by the scope.
use telos_arbitration_fix.Prelude.{
  ℕ, false, Option, none, some, List, [], ◌∷◌, ◌≡◌, refl, ◌==◌, ltb, if◌then◌else◌, arith, contains,
}
use telos_arbitration_fix.Eosio.Outcome.{Result, ok, err}

abbrev pub Table {ℓ} : Type ℓ → Type ℓ
Table V = List (ℕ × V)

abbrev pub keys {ℓ} : {V : Type ℓ} → Table V → List ℕ
keys [] = []
keys ((k, _) ∷ t) = k ∷ keys t

module _ {ℓ} {V : Type ℓ} where
  abbrev pub find : ℕ → Table V → Option V
  find k [] = none
  find k ((j, v) ∷ t) = if j == k then some v else find k t

  abbrev pub rows : Table V → List V
  rows [] = []
  rows ((_, v) ∷ t) = v ∷ rows t

  -- A new row goes before the first greater key.
  abbrev pub insert : ℕ → V → Table V → Table V
  insert k v [] = (k, v) ∷ []
  insert k v ((j, w) ∷ t) = if ltb k j then (k, v) ∷ (j, w) ∷ t else (j, w) ∷ insert k v t

  -- A key that is taken is refused.
  abbrev pub emplace : ℕ → V → Table V → Result (Table V)
  emplace k v t = elim (find k t) [ none ↦ ok (insert k v t) | some _ ↦ err "key already taken" ]

  abbrev pub modify : ℕ → (V → V) → Table V → Table V
  modify k f [] = []
  modify k f ((j, v) ∷ t) = if j == k then (j, f v) ∷ t else (j, v) ∷ modify k f t

  abbrev pub erase : ℕ → Table V → Table V
  erase k [] = []
  erase k ((j, v) ∷ t) = if j == k then erase k t else (j, v) ∷ erase k t

  -- The first row of the key goes, which is its only one.
  abbrev pub remove : ℕ → Table V → Table V
  remove k [] = []
  remove k ((j, v) ∷ t) = if j == k then t else (j, v) ∷ remove k t

  -- `emplace` where `find` fails, and `modify` where it succeeds
  abbrev pub put : ℕ → V → Table V → Table V
  put k v t = elim (find k t) [ none ↦ insert k v t | some _ ↦ modify k (λ _. v) t ]

  pub find-insert :
      (j k : ℕ) (v : V) (t : Table V)
      → find k t ≡ none
      → find j (insert k v t) ≡ (if k == j then some v else find j t)
  find-insert j k v [] h = refl
  find-insert j k v ((i, w) ∷ t) h = ground (arith, find-insert j k v t)

  pub find-modify :
      (j k : ℕ) (f : V → V) (t : Table V)
      → find j (modify k f t)
        ≡ (if k == j then (elim (find j t) [ none ↦ none | some v ↦ some (f v) ]) else find j t)
  find-modify j k f [] = ground arith
  find-modify j k f ((i, w) ∷ t) = ground (arith, find-modify j k f t)

  pub find-erase :
      (j k : ℕ) (t : Table V) → find j (erase k t) ≡ (if k == j then none else find j t)
  find-erase j k [] = ground arith
  find-erase j k ((i, w) ∷ t) = ground (arith, find-erase j k t)

  pub find-put :
      (j k : ℕ) (v : V) (t : Table V) → find j (put k v t) ≡ (if k == j then some v else find j t)
  find-put j k v t = ground (arith, find-insert j k v t, find-modify j k (λ _. v) t)

  pub find-keys : (k : ℕ) (t : Table V) → contains k (keys t) ≡ false → find k t ≡ none
  find-keys k [] h = refl
  find-keys k ((j, v) ∷ t) h = ground (arith, find-keys k t)

-- The table of one scope, empty where nothing was stored.
abbrev pub scope {ℓ} : {V : Type ℓ} → ℕ → Table (Table V) → Table V
scope s t = elim (find s t) [ none ↦ [] | some u ↦ u ]

pub scope-put {ℓ} :
    {V : Type ℓ} (j k : ℕ) (u : Table V) (t : Table (Table V))
    → scope j (put k u t) ≡ (if k == j then u else scope j t)
scope-put j k u t = ground (arith, find-put j k u t)
