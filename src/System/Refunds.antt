-- ===== src/System/Refunds.antt =====
-- The refunds of contracts/eosio.system/src/delegate_bandwidth.cpp as tokens are taken from a stake
-- and given to it.
use telos_arbitration_fix.Prelude.{
  ℕ, ◌≡◌, refl, ap, sym, inl, inr, true, false, Option, none, some, [], ◌∷◌, ◌==◌, ◌&&◌, ◌||◌,
  arith, Option-cases, Bool-cases,
}
use telos_arbitration_fix.Prelude.Int.{
  ℤ, pos, pos_part, neg_part, ◌+ℤ◌, ◌-ℤ◌, ◌≤ℤ◌, int_laws, ltb_ℤ, eqb_ℤ,
}
use telos_arbitration_fix.Eosio.{Table, find, put, remove, scope, Name}
use telos_arbitration_fix.Eosio.Names
use telos_arbitration_fix.Eosio.Sums.{sum_of, share_of, sum_of-put, sum_of-remove}
use telos_arbitration_fix.System.Limits.{DelegatedBandwidth}
use telos_arbitration_fix.System.Rex.Surplus.{received}
use telos_arbitration_fix.System.Stake.{
  RefundRequest, Staking, take_refund, change_refund, store_refund,
}

abbrev pub weight : DelegatedBandwidth → ℤ
weight d = d.net_weight +ℤ d.cpu_weight

abbrev pub refund_total : RefundRequest → ℤ
refund_total r = r.net_amount +ℤ r.cpu_amount

abbrev pub held_back : Option RefundRequest → ℤ
held_back none = pos 0
held_back (some r) = refund_total r

-- The stake of the account for anyone, and all refunds.
unfoldable pub custody : Name → Staking → ℤ
custody from s = sum_of weight (scope from s.rex.accounts.delband) +ℤ sum_of refund_total s.refunds

unfoldable pub transferred : Staking → ℤ
transferred s = received Names.eosio_stake s.rex.accounts.sent

take_refund-total :
    (a x : ℤ)
    → ((take_refund a x).0 +ℤ x ≡ a +ℤ (take_refund a x).1) × (pos 0 ≤ℤ (take_refund a x).1)
take_refund-total a x = elim (Bool-cases (ltb_ℤ (a -ℤ x) (pos 0))) [
  | inl h ↦ rw h (below a x, under (a -ℤ x) h)
  | inr h ↦ rw h (above a x, omega arith)
]
  where
    below : (a x : ℤ) → pos 0 +ℤ x ≡ a +ℤ (pos 0 -ℤ (a -ℤ x))
    below a x = omega int_laws

    above : (a x : ℤ) → a -ℤ x +ℤ x ≡ a +ℤ pos 0
    above a x = omega int_laws

    under : (b : ℤ) → ltb_ℤ b (pos 0) ≡ true → pos 0 ≤ℤ pos 0 -ℤ b
    under b h = omega (int_laws, lt b h)
      where
        lt : (b : ℤ) → ltb_ℤ b (pos 0) ≡ true → b ≤ℤ pos 0
        lt b h = ground arith

joined :
    (u v x y a b m n : ℤ)
    → u +ℤ x ≡ a +ℤ m
    → v +ℤ y ≡ b +ℤ n
    → u +ℤ v +ℤ (x +ℤ y) ≡ a +ℤ b +ℤ (m +ℤ n)
joined u v x y a b m n h k =
    omega (int_laws, ap pos_part h, ap neg_part h, ap pos_part k, ap neg_part k)

fresh :
    (u v x y m n : ℤ)
    → u +ℤ x ≡ pos 0 +ℤ m
    → v +ℤ y ≡ pos 0 +ℤ n
    → u +ℤ v +ℤ (x +ℤ y) ≡ pos 0 +ℤ (m +ℤ n)
fresh u v x y m n h k = omega (int_laws, ap pos_part h, ap neg_part h, ap pos_part k, ap neg_part k)

gone :
    (u v x y a b m n : ℤ)
    → u ≡ pos 0
    → v ≡ pos 0
    → u +ℤ x ≡ a +ℤ m
    → v +ℤ y ≡ b +ℤ n
    → pos 0 +ℤ (x +ℤ y) ≡ a +ℤ b +ℤ (m +ℤ n)
gone u v x y a b m n e f h k = omega (
  int_laws,
  ap pos_part h,
  ap neg_part h,
  ap pos_part k,
  ap neg_part k,
  ap pos_part e,
  ap neg_part e,
  ap pos_part f,
  ap neg_part f,
)

pub zero_left : (a b : ℤ) → (eqb_ℤ a (pos 0) && eqb_ℤ b (pos 0)) ≡ true → a ≡ pos 0
zero_left a b h = ground arith

pub zero_right : (a b : ℤ) → (eqb_ℤ a (pos 0) && eqb_ℤ b (pos 0)) ≡ true → b ≡ pos 0
zero_right a b h = ground arith

least_left : (a b : ℤ) → (ltb_ℤ a (pos 0) || ltb_ℤ b (pos 0)) ≡ false → pos 0 ≤ℤ a
least_left a b h = ground arith

least_right : (a b : ℤ) → (ltb_ℤ a (pos 0) || ltb_ℤ b (pos 0)) ≡ false → pos 0 ≤ℤ b
least_right a b h = ground arith

-- A refund grows by what the deltas take, and what is left to stake is not negative.
pub change_refund-total :
    (now : ℕ) (owner : Name) (net cpu : ℤ) (o : Option RefundRequest)
    → (held_back (change_refund now owner net cpu o).0 +ℤ (net +ℤ cpu)
        ≡ held_back o
          +ℤ ((change_refund now owner net cpu o).1 +ℤ (change_refund now owner net cpu o).2))
      × (pos 0 ≤ℤ (change_refund now owner net cpu o).1)
      × (pos 0 ≤ℤ (change_refund now owner net cpu o).2)
unfolding change_refund
change_refund-total now owner net cpu none =
    elim (Bool-cases (ltb_ℤ net (pos 0) || ltb_ℤ cpu (pos 0))) [
      | inl h ↦ rw h (
        fresh _ _ net cpu _ _ (take_refund-total (pos 0) net).0 (take_refund-total (pos 0) cpu).0,
        (take_refund-total (pos 0) net).1,
        (take_refund-total (pos 0) cpu).1,
      )
      | inr h ↦ rw h (refl, least_left net cpu h, least_right net cpu h)
    ]
change_refund-total now owner net cpu (some r) =
    let n = take_refund r.net_amount net in
    let p = take_refund r.cpu_amount cpu in
    elim (Bool-cases (eqb_ℤ n.0 (pos 0) && eqb_ℤ p.0 (pos 0))) [
      | inl h ↦ rw h (
        gone n.0 p.0 net cpu r.net_amount r.cpu_amount n.1 p.1 (zero_left n.0 p.0 h)
            (zero_right n.0 p.0 h) (take_refund-total r.net_amount net).0
            (take_refund-total r.cpu_amount cpu).0,
        (take_refund-total r.net_amount net).1,
        (take_refund-total r.cpu_amount cpu).1,
      )
      | inr h ↦ rw h (
        joined _ _ net cpu _ _ _ _ (take_refund-total r.net_amount net).0
            (take_refund-total r.cpu_amount cpu).0,
        (take_refund-total r.net_amount net).1,
        (take_refund-total r.cpu_amount cpu).1,
      )
    ]

remove-absent : (k : ℕ) (t : Table RefundRequest) → find k t ≡ none → remove k t ≡ t
remove-absent k [] h = refl
remove-absent k ((j, r) ∷ t) h = elim (Bool-cases (j == k)) [
  | inl here ↦ absurd (ground (arith, here))
  | inr other ↦ rw other (ap (λ u. (j, r) ∷ u) (remove-absent k t (ground (arith, other))))
]

shares :
    (k : ℕ) (r : RefundRequest) (t : Table RefundRequest) (x : ℤ)
    → share_of refund_total k t ≡ x
    → sum_of refund_total (put k r t) +ℤ x ≡ sum_of refund_total t +ℤ refund_total r
shares k r t x h = rw (sym h) (sum_of-put refund_total k r t)

-- The refunds after one of them is stored or removed.
pub store_refund-total :
    (k : ℕ) (o : Option RefundRequest) (t : Table RefundRequest)
    → sum_of refund_total (store_refund k o t) +ℤ held_back (find k t)
      ≡ sum_of refund_total t +ℤ held_back o
store_refund-total k none t = elim (Option-cases (find k t)) [
  | inl h ↦ rw (h, remove-absent k t h) refl
  | inr (old, h) ↦ rw h (plus_zero _ _ (sum_of-remove refund_total k t old h))
]
  where
    plus_zero : (a b : ℤ) → a ≡ b → a ≡ b +ℤ pos 0
    plus_zero a b h = omega (int_laws, ap pos_part h, ap neg_part h)
store_refund-total k (some r) t = elim (Option-cases (find k t)) [
  | inl h ↦ rw h (shares k r t (pos 0) (rw (share_of, h) refl))
  | inr (old, h) ↦ rw h (shares k r t (refund_total old) (rw (share_of, h) refl))
]
