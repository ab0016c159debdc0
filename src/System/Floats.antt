-- ===== src/System/Floats.antt =====
-- The order of doubles, by their bits.
use telos_arbitration_fix.Prelude.{ℕ, ◌-◌, ◌^◌, Bool, not, ltb, ◌&&◌, if◌then◌else◌}
use telos_arbitration_fix.Prelude.Int.{ℤ, pos, ◌-ℤ◌, ltb_ℤ}

-- The bits without the sign.
abbrev magnitude : ℕ → ℕ
magnitude x = if ltb x (2 ^ 63) then x else x - 2 ^ 63

-- The exponent has all its bits and the fraction has one.
abbrev is_nan : ℕ → Bool
is_nan x = ltb 9218868437227405312 (magnitude x)

abbrev pub signed : ℕ → ℤ
signed x = if ltb x (2 ^ 63) then pos (magnitude x) else pos 0 -ℤ pos (magnitude x)

-- `x < y`
abbrev pub less : ℕ → ℕ → Bool
less x y = not (is_nan x) && not (is_nan y) && ltb_ℤ (signed x) (signed y)

-- `x <= y`
abbrev pub at_most : ℕ → ℕ → Bool
at_most x y = not (is_nan x) && not (is_nan y) && not (ltb_ℤ (signed y) (signed x))
