-- ===== src/Prelude/Lists.antt =====
-- Lists measured, indexed and searched by native numbers.
use Prim.Native.Nat.{ℕ, zero, suc, ◌+◌}
use mathlib.Core.Path.{◌≡◌, refl}
use mathlib.Core.Bool.{Bool, false, ◌||◌}
use mathlib.Core.List.{List, [], ◌∷◌, ◌++◌}
use mathlib.Core.Option.{Option, none, some}
use native.Mathlib.Omega.{arith}
use telos_arbitration_fix.Prelude.Tests.{◌==◌, if◌then◌else◌}

module _ {ℓ} {A : Type ℓ} where
  abbrev pub length : List A → ℕ
  length [] = 0
  length (x ∷ xs) = suc (length xs)

  abbrev pub get_elem? : List A → ℕ → Option A
  get_elem? [] i = none
  get_elem? (x ∷ xs) zero = some x
  get_elem? (x ∷ xs) (suc i) = get_elem? xs i

  abbrev pub take : ℕ → List A → List A
  take zero xs = []
  take (suc n) [] = []
  take (suc n) (x ∷ xs) = x ∷ take n xs

  -- A predicate of every element.
  abbrev pub All {κ} : (A → Type κ) → List A → Type κ
  All P [] = Unit
  All P (x ∷ xs) = P x × All P xs

  pub length-append : (xs ys : List A) → length (xs ++ ys) ≡ length xs + length ys
  length-append [] ys = omega arith
  length-append (x ∷ xs) ys = omega (arith, length-append xs ys)

-- `std::find` over a vector of numbers.
abbrev pub contains : ℕ → List ℕ → Bool
contains a [] = false
contains a (x ∷ xs) = x == a || contains a xs

-- `v.erase(std::find(v.begin(), v.end(), a))`: the first occurrence goes.
abbrev pub erase_first : ℕ → List ℕ → List ℕ
erase_first a [] = []
erase_first a (x ∷ xs) = if x == a then xs else x ∷ erase_first a xs

-- No number stands twice.
abbrev pub Distinct : List ℕ → Type 0
Distinct [] = Unit
Distinct (x ∷ xs) = (contains x xs ≡ false) × Distinct xs

pub contains-append :
    (a : ℕ) (xs ys : List ℕ) → contains a (xs ++ ys) ≡ (contains a xs || contains a ys)
contains-append a [] ys = refl
contains-append a (x ∷ xs) ys = ground (arith, contains-append a xs ys)

pub contains-erase_first_ne :
    (a b : ℕ) (xs : List ℕ) → contains a xs ≡ false → contains a (erase_first b xs) ≡ false
contains-erase_first_ne a b [] h = refl
contains-erase_first_ne a b (x ∷ xs) h = ground (arith, contains-erase_first_ne a b xs)

pub Distinct-erase_first : (b : ℕ) (xs : List ℕ) → Distinct xs → Distinct (erase_first b xs)
Distinct-erase_first b [] h = tt
Distinct-erase_first b (x ∷ xs) h =
    ground (arith, Distinct-erase_first b xs h.1, contains-erase_first_ne x b xs h.0)

pub contains-erase_first_self :
    (a : ℕ) (xs : List ℕ) → Distinct xs → contains a (erase_first a xs) ≡ false
contains-erase_first_self a [] h = refl
contains-erase_first_self a (x ∷ xs) h = ground (arith, contains-erase_first_self a xs h.1)

pub Distinct-append_one :
    (a : ℕ) (xs : List ℕ) → contains a xs ≡ false → Distinct xs → Distinct (xs ++ a ∷ [])
Distinct-append_one a [] h d = (refl, tt)
Distinct-append_one a (x ∷ xs) h d =
    ground (arith, Distinct-append_one a xs, contains-append x xs (a ∷ []))
