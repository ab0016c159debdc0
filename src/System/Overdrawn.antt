-- ===== src/System/Overdrawn.antt =====
-- The order of the index in which a snapshot of contracts/eosio.system/src/producer_pay.cpp pays
-- more shares than it counted.
use native.Mathlib.Nat.{div-add-mod', le-div_iff_mul-le, mod-lt, mul-le-mul}
use telos_arbitration_fix.Prelude.{
  ℕ, zero, suc, ◌+◌, ◌*◌, ◌/◌, ◌%◌, ◌<◌, ◌≡◌, ◌≢◌, refl, ap, ◌∙◌, inl, inr, Bool, true, false, ◌&&◌,
  List, [], ◌∷◌, ◌≤◌, ◌++◌, length, arith, Bool-cases,
}
use telos_arbitration_fix.Prelude.Int.{pos, ltb_ℤ, ◌+ℤ◌, ◌-ℤ◌}
use telos_arbitration_fix.Eosio.{ok, IsDocumented}
use telos_arbitration_fix.System.{ProducerInfo, State, Chain}
use telos_arbitration_fix.System.Pay.{count_active, share_count, claimrewards_snapshot}
use telos_arbitration_fix.System.Payments.{shares_paid}
use telos_arbitration_fix.System.Snapshot.{none_active, producers_share, snapshot-bucket}

-- Only active producers.
abbrev pub all_active : List ProducerInfo → Bool
all_active [] = true
all_active (p ∷ ps) = p.is_active && all_active ps

-- The count ends at the first producer that is not active.
count_active-append :
    (n : ℕ) (xs : List ProducerInfo) (q : ProducerInfo) (ys : List ProducerInfo)
    → all_active xs ≡ true
    → q.is_active ≡ false
    → length xs < n
    → count_active n (xs ++ q ∷ ys) ≡ length xs
unfolding count_active
count_active-append zero xs q ys h i l = absurd (omega arith)
count_active-append (suc n) [] q ys h i l = ground (arith, i)
count_active-append (suc n) (x ∷ xs) q ys h i l =
    let active : x.is_active ≡ true = ground (arith, h) in
    let rest = count_active-append n xs q ys (ground (arith, h)) i (omega arith) in
    ground (arith, active, rest)

some_paid :
    (paid : ℕ) (ys : List ProducerInfo)
    → none_active ys ≡ false
    → paid < 42
    → 1 ≤ shares_paid paid ys
unfolding shares_paid
some_paid paid [] h l = absurd (ground (arith, h))
some_paid paid (y ∷ ys) h l = elim (Bool-cases y.is_active) [
  | inl active ↦ ground (arith, active)
  | inr inactive ↦ ground (arith, inactive, some_paid paid ys (ground (arith, inactive, h)) l)
]

-- The payments go on behind it.
shares_paid-append :
    (paid : ℕ) (xs : List ProducerInfo) (q : ProducerInfo) (ys : List ProducerInfo)
    → all_active xs ≡ true
    → q.is_active ≡ false
    → none_active ys ≡ false
    → paid + length xs < 42
    → share_count (paid + length xs) + 1 ≤ share_count paid + shares_paid paid (xs ++ q ∷ ys)
unfolding shares_paid
shares_paid-append paid [] q ys h i j l = ground (arith, i, some_paid paid ys j (omega arith))
shares_paid-append paid (x ∷ xs) q ys h i j l =
    let active : x.is_active ≡ true = ground (arith, h) in
    let rest = shares_paid-append (paid + 1) xs q ys (ground (arith, h)) i j (omega arith) in
    ground (arith, active, rest)

-- One more share than was counted is too much, where a share is not less than their number.
too_much : (b n k : ℕ) → 0 < n → n * n ≤ b → n + 1 ≤ k → b < b / n * k
too_much b n k p h l =
    over b n (b / n) (b / n * k) (b % n) (div-add-mod' b n) (mod-lt b p) (share b n p h)
      (mul-le-mul (all_of (b / n)) l)
  where
    share : (b n : ℕ) → 0 < n → n * n ≤ b → n ≤ b / n
    share b n p h = (le-div_iff_mul-le p).1 h

    all_of : (a : ℕ) → a ≤ a
    all_of a = omega arith

    over : (b n d m r : ℕ) → d * n + r ≡ b → r < n → n ≤ d → d * (n + 1) ≤ m → b < m
    over b n d m r e l h k = omega arith

negative : (b m : ℕ) → b < m → ltb_ℤ (pos b -ℤ pos m) (pos 0) ≡ true
unfolding ◌-ℤ◌
negative b m l = ground arith

-- Where up to 41 active producers come first in the index, one that is not active follows, and there is
-- an active one behind it, a snapshot that succeeds on a documented host with unpaid blocks leaves
-- a bucket below zero, if the filled one is at least the square of the number of counted shares.
pub claimrewards_snapshot_overdraws :
    (c : Chain) (s s' : State) (b : ℕ) (xs : List ProducerInfo) (q : ProducerInfo)
    (ys : List ProducerInfo)
    → IsDocumented c.host
    → s.gstate.total_unpaid_blocks ≢ 0
    → s.gstate.perblock_bucket +ℤ producers_share c s ≡ pos b
    → c.by_votes s.producers ≡ xs ++ q ∷ ys
    → all_active xs ≡ true
    → q.is_active ≡ false
    → none_active ys ≡ false
    → 0 < length xs
    → length xs < 42
    → share_count (length xs) * share_count (length xs) ≤ b
    → claimrewards_snapshot c s ≡ ok s'
    → ltb_ℤ s'.gstate.perblock_bucket (pos 0) ≡ true
claimrewards_snapshot_overdraws c s s' b xs q ys doc unpaid full order h i j some_xs few large e =
    let n = share_count (length xs) in
    let index = xs ++ q ∷ ys in
    let counted : share_count (count_active 42 (c.by_votes s.producers)) ≡ n =
      ap (λ k. share_count (count_active 42 k)) order
      ∙ ap share_count (count_active-append 42 xs q ys h i few) in
    let paid = ap (λ k. shares_paid 0 k) order in
    let out : s'.gstate.perblock_bucket ≡ pos b -ℤ pos (b / n * shares_paid 0 index) =
      snapshot-bucket c s s' b doc unpaid full e ∙ rw (counted, paid) refl in
    let more : n + 1 ≤ shares_paid 0 index =
      from_zero (length xs) (shares_paid 0 index)
        (shares_paid-append 0 xs q ys h i j (omega (arith, few))) in
    rw out (
      negative b (b / n * shares_paid 0 index)
        (too_much b n (shares_paid 0 index) (counts (length xs) some_xs) large more))
  where
    counts : (n : ℕ) → 0 < n → 0 < share_count n
    counts n l = ground arith

    from_zero : (n k : ℕ) → share_count (0 + n) + 1 ≤ share_count 0 + k → share_count n + 1 ≤ k
    from_zero n k h = ground arith
