-- ===== src/Eosio/Outcome.antt =====
-- The outcome of an action: a failed `check` aborts it, and none of its changes is kept.
use telos_arbitration_fix.Prelude.{
  Bool, true, false, String, Option, none, some, ◌≡◌, refl, subst, ◌⊎◌, inl, inr,
}

pub data Result {ℓ} (A : Type ℓ) : Type ℓ where
  ok : A → Result A
  err : String → Result A

infixl 5 ◌>>=◌ ◌>>◌
abbrev pub ◌>>=◌ {ℓ κ} : {A : Type ℓ} {B : Type κ} → Result A → (A → Result B) → Result B
(err message) >>= next = err message
(ok value) >>= next = next value

abbrev pub ◌>>◌ {ℓ κ} : {A : Type ℓ} {B : Type κ} → Result A → Result B → Result B
first >> second = first >>= λ _. second

-- `check(condition, message)`
abbrev pub check : Bool → String → Result (Unit {0})
check true message = ok tt
check false message = err message

-- `table.get(key, message)` on what `find` returned
abbrev pub or_fail {ℓ} : {A : Type ℓ} → Option A → String → Result A
or_fail none e = err e
or_fail (some a) e = ok a

-- The property holds of the result, if there is one.
abbrev pub OnOk {ℓ κ} : {A : Type ℓ} → (A → Type κ) → Result A → Type κ
OnOk P (ok a) = P a
OnOk P (err e) = Unit

pub OnOk-elim {ℓ κ} :
    {A : Type ℓ} (P : A → Type κ) (r : Result A) (a : A) → OnOk P r → r ≡ ok a → P a
OnOk-elim P (ok b) a p e = subst P (cc) p
OnOk-elim P (err x) a p e = cc

pub Result-cases {ℓ} :
    {A : Type ℓ} (r : Result A) → ((a : A) × (r ≡ ok a)) ⊎ ((e : String) × (r ≡ err e))
Result-cases (ok a) = inl (a, refl)
Result-cases (err e) = inr (e, refl)
