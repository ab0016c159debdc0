-- ===== src/System/Rex/Buckets.antt =====
-- The maturity buckets of contracts/eosio.system/src/rex.cpp, which are a deque by the time when
-- their REX matures; savings are a last bucket of the end of days.
use telos_arbitration_fix.Prelude.{
  ℕ, zero, suc, ◌+◌, ◌-◌, ◌*◌, ◌%◌, ◌^◌, not, ◌||◌, Option, none, some, [], ◌∷◌, ◌++◌, ◌==◌, leb,
  if◌then◌else◌, length,
}
use telos_arbitration_fix.Prelude.Int.{ℤ, pos, ◌+ℤ◌, ◌-ℤ◌, ltb_ℤ, leb_ℤ, eqb_ℤ}
use telos_arbitration_fix.Eosio.{Result, ok, check, or_fail, ◌>>=◌, ◌>>◌}
use telos_arbitration_fix.System.Rex.{Buckets, RexBalance}

abbrev pub seconds_per_day : ℕ
seconds_per_day = 86400

-- `time_point_sec::maximum()`
abbrev pub end_of_days : ℕ
end_of_days = 4294967295

unfoldable pub get_rex_maturity : ℕ → ℕ
get_rex_maturity now = (now - now % seconds_per_day + 5 * seconds_per_day) % 2 ^ 32

-- The buckets before the last one, and that one: `back` and `pop_back`.
unfoldable pub unsnoc : Buckets → Option (Buckets × (ℕ × ℤ))
unsnoc [] = none
unsnoc (b ∷ bs) = elim (unsnoc bs) [
  | none ↦ some ([], b)
  | some (init, last) ↦ some (b ∷ init, last)
]

-- An amount goes to the last bucket, if it has that time, and to a new one if not.
unfoldable pub add_to_bucket : ℕ → ℤ → Buckets → Buckets
unfolding unsnoc
add_to_bucket time amount bs = elim (unsnoc bs) [
  | none ↦ (time, amount) ∷ []
  | some (init, (t, a)) ↦
      if t == time then init ++ (t, a +ℤ amount) ∷ [] else bs ++ (time, amount) ∷ []
]

-- The loop of `process_rex_maturities`.
unfoldable pub mature : ℕ → ℤ → Buckets → ℤ × Buckets
mature now matured [] = (matured, [])
mature now matured ((t, a) ∷ bs) =
    let rest = mature now (matured +ℤ a) bs in if leb t now then rest else (matured, (t, a) ∷ bs)

unfoldable pub process_rex_maturities : ℕ → RexBalance → RexBalance
unfolding mature
process_rex_maturities now rb =
    let (matured, bs) = mature now rb.matured_rex rb.rex_maturities in
    record rb { matured_rex = matured; rex_maturities = bs }

unfoldable pub read_rex_savings : RexBalance → ℤ × RexBalance
unfolding unsnoc
read_rex_savings rb = elim (unsnoc rb.rex_maturities) [
  | none ↦ (pos 0, rb)
  | some (init, (t, a)) ↦
      if t == end_of_days then (a, record rb { rex_maturities = init }) else (pos 0, rb)
]

unfoldable pub put_rex_savings : ℤ → RexBalance → RexBalance
unfolding add_to_bucket
put_rex_savings rex rb =
    if eqb_ℤ rex (pos 0)
    then rb
    else record rb { rex_maturities = add_to_bucket end_of_days rex rb.rex_maturities }

abbrev pub add_maturing : ℕ → ℤ → RexBalance → RexBalance
add_maturing now rex rb = record rb {
  rex_maturities = add_to_bucket (get_rex_maturity now) rex rb.rex_maturities;
}

-- The loop of `consolidate_rex_balance`.
unfoldable pub empty_buckets : ℤ → Buckets → ℤ
empty_buckets total [] = total
empty_buckets total ((_, a) ∷ bs) = empty_buckets (total +ℤ a) bs

unfoldable pub consolidate_rex_balance : ℕ → ℤ → RexBalance → RexBalance
unfolding read_rex_savings put_rex_savings empty_buckets get_rex_maturity
consolidate_rex_balance now rex_in_sell_order rb =
    let (rex_in_savings, rb₁) = read_rex_savings rb in
    let total = empty_buckets (rb₁.matured_rex -ℤ rex_in_sell_order) rb₁.rex_maturities in
    put_rex_savings rex_in_savings (record rb₁ {
      matured_rex = rex_in_sell_order;
      rex_maturities = if ltb_ℤ (pos 0) total then (get_rex_maturity now, total) ∷ [] else [];
    })

abbrev pub min_ℤ : ℤ → ℤ → ℤ
min_ℤ a b = if ltb_ℤ b a then b else a

-- The loop of `mvtosavings`, by what is left to move; each turn takes from the last bucket.
unfoldable pub drain : ℕ → ℤ → Buckets → Option (ℤ × Buckets)
unfolding unsnoc
drain zero left bs = none
drain (suc fuel) left bs = elim (unsnoc bs) [
  | none ↦ some (left, bs)
  | some (init, (t, a)) ↦
      let drex = min_ℤ left a in
      let emptied = drain fuel (left -ℤ drex) init in
      let lowered = drain fuel (left -ℤ drex) (init ++ (t, a -ℤ drex) ∷ []) in
      if ltb_ℤ (pos 0) left
      then (if eqb_ℤ (a -ℤ drex) (pos 0) then emptied else lowered)
      else some (left, bs)
]

-- The change of the row in `mvtosavings`, whose loop has a turn for each bucket and one more.
unfoldable pub move_rex : ℤ → ℤ → RexBalance → Result RexBalance
unfolding drain
move_rex rex rex_in_sell_order rb = do
  (left, bs) ←
      or_fail (drain (suc (suc (length rb.rex_maturities))) rex rb.rex_maturities) "out of fuel"
  let matured = if ltb_ℤ (pos 0) left then rb.matured_rex -ℤ left else rb.matured_rex
  check (not (ltb_ℤ (pos 0) left) || leb_ℤ rex_in_sell_order matured) "logic error in mvtosavings"
  check (ltb_ℤ (pos 0) left || eqb_ℤ left (pos 0)) "programmer error in mvtosavings"
  ok (record rb { matured_rex = matured; rex_maturities = bs })

-- The REX that leaves savings matures anew.
unfoldable pub mature_savings : ℕ → ℤ → ℤ → RexBalance → RexBalance
unfolding process_rex_maturities put_rex_savings add_to_bucket get_rex_maturity
mature_savings now rex rex_in_savings rb =
    put_rex_savings (rex_in_savings -ℤ rex) (add_maturing now rex (process_rex_maturities now rb))
