-- ===== src/System/Snapshot.antt =====
-- What a snapshot of contracts/eosio.system/src/producer_pay.cpp leaves in the bucket.
use native.Mathlib.Nat.{div-add-mod'}
use telos_arbitration_fix.Prelude.{
  ℕ, zero, suc, ◌+◌, ◌-◌, ◌%◌, ◌<◌, ◌≡◌, ◌≢◌, refl, sym, ap, ◌∙◌, inl, inr, Bool, true, not, ◌&&◌,
  List, [], ◌∷◌, ltb, if◌then◌else◌, arith, Bool-cases,
}
use telos_arbitration_fix.Prelude.Int.{
  ℤ, pos, pos_part, neg_part, ◌+ℤ◌, ◌-ℤ◌, scale_ℤ, quotient_ℤ, int_laws,
}
use telos_arbitration_fix.Eosio.{Result-cases, ok, err, Asset, IsDocumented}
use telos_arbitration_fix.Eosio.Names
use telos_arbitration_fix.Token.Queries.{get_supply, get_balance}
use telos_arbitration_fix.System.{ProducerInfo, Sent, State, Chain}
use telos_arbitration_fix.System.Pay.{
  send_positive, to_workers, to_producers, transfer_tokens, send_tokens, distribute, pay_all,
  pay_shares, count_active, share_count, fill_bucket, claimrewards_snapshot,
}
use telos_arbitration_fix.System.Payments.{total_due, shares_paid, pay_all_lem}

-- No active producer is left in the index.
abbrev pub none_active : List ProducerInfo → Bool
none_active [] = true
none_active (p ∷ ps) = not p.is_active && none_active ps

-- The active producers stand before the others in the index.
abbrev pub actives_first : List ProducerInfo → Bool
actives_first [] = true
actives_first (p ∷ ps) = if p.is_active then actives_first ps else none_active ps

shares_paid-none_active :
    (paid : ℕ) (ps : List ProducerInfo) → none_active ps ≡ true → shares_paid paid ps ≡ 0
unfolding shares_paid
shares_paid-none_active paid [] h = refl
shares_paid-none_active paid (p ∷ ps) h = ground (arith, shares_paid-none_active paid ps)

-- Then the shares paid are the shares counted.
shares_paid-share_count :
    (paid n : ℕ) (ps : List ProducerInfo)
    → paid + n ≡ 42
    → actives_first ps ≡ true
    → share_count paid + shares_paid paid ps ≡ share_count (paid + count_active n ps)
unfolding shares_paid count_active
shares_paid-share_count paid zero [] e h = ground arith
shares_paid-share_count paid (suc n) [] e h = ground arith
shares_paid-share_count paid zero (p ∷ ps) e h = elim (Bool-cases p.is_active) [
  | inl active ↦ ground (arith, active)
  | inr inactive ↦ ground (arith, inactive, shares_paid-none_active paid ps)
]
shares_paid-share_count paid (suc n) (p ∷ ps) e h = elim (Bool-cases p.is_active) [
  | inl active ↦
      let rest = shares_paid-share_count (paid + 1) n ps (omega arith) (ground (arith, active)) in
      ground (arith, active, rest)
  | inr inactive ↦ ground (arith, inactive, shares_paid-none_active paid ps)
]

-- Only what was sent changes.
record SameBooks (s s' : State) : Type 0 where
  same_gstate : s'.gstate ≡ s.gstate
  same_payments : s'.payments ≡ s.payments
  same_producers : s'.producers ≡ s.producers

send_positive-SameBooks :
    (c : Chain) (act : Asset → Sent) (amount : ℤ) (s s' : State)
    → send_positive c act amount s ≡ ok s'
    → SameBooks s s'
unfolding send_positive
send_positive-SameBooks c act amount s s' e =
    elim (Result-cases (c.host.make_asset amount c.core_symbol)) [
      | inl (q, made) ↦ record {
        same_gstate = ground (arith, made);
        same_payments = ground (arith, made);
        same_producers = ground (arith, made);
      }
      | inr (m, failed) ↦ record {
        same_gstate = ground (arith, failed);
        same_payments = ground (arith, failed);
        same_producers = ground (arith, failed);
      }
    ]

Same-trans : (a b d : State) → SameBooks a b → SameBooks b d → SameBooks a d
Same-trans a b d u v = record {
  same_gstate = v.same_gstate ∙ u.same_gstate;
  same_payments = v.same_payments ∙ u.same_payments;
  same_producers = v.same_producers ∙ u.same_producers;
}

-- Three sends that follow one, and the one itself.
send_tokens-SameBooks :
    (c : Chain) (transferred workers producers : ℤ) (s s' : State)
    → send_tokens c transferred workers producers s ≡ ok s'
    → SameBooks s s'
unfolding send_tokens
send_tokens-SameBooks c transferred workers producers s s' e =
    elim (Result-cases (send_positive c offset transferred s)) [
      | inr (m, x) ↦ absurd (ground arith)
      | inl (s₁, x) ↦
          elim (Result-cases (send_positive c minted (workers +ℤ producers -ℤ transferred) s₁)) [
            | inr (m, y) ↦ absurd (ground arith)
            | inl (s₂, y) ↦ elim (Result-cases (send_positive c to_works workers s₂)) [
              | inr (m, z) ↦ absurd (ground arith)
              | inl (s₃, z) ↦
                  let last : send_positive c to_bpay producers s₃ ≡ ok s' = ground arith in
                  Same-trans s s₁ s' (send_positive-SameBooks c offset transferred s s₁ x) (
                    Same-trans s₁ s₂ s'
                      (send_positive-SameBooks c minted (workers +ℤ producers -ℤ transferred) s₁ s₂
                        y)
                      (Same-trans s₂ s₃ s' (send_positive-SameBooks c to_works workers s₂ s₃ z)
                        (send_positive-SameBooks c to_bpay producers s₃ s' last)))
            ]
          ]
    ]
  where
    offset : Asset → Sent
    offset q = Sent.transfer Names.exrsrv_tf c.host.self q "TEDP: Inflation offset"

    minted : Asset → Sent
    minted q = Sent.issue c.host.self q "Issue new TLOS tokens"

    to_works : Asset → Sent
    to_works q =
        Sent.transfer c.host.self Names.works_decide q
          "Transfer worker proposal share to works.decide account"

    to_bpay : Asset → Sent
    to_bpay q =
        Sent.transfer c.host.self Names.eosio_bpay q "Transfer producer share to per-block bucket"

-- The bucket takes the share of the producers.
distribute_lem :
    (c : Chain) (usecs : ℕ) (supply : Asset) (s s' : State)
    → distribute c usecs supply s ≡ ok s'
    → (s'.gstate.perblock_bucket ≡ s.gstate.perblock_bucket +ℤ to_producers c usecs supply s)
      × (s'.payments ≡ s.payments)
      × (s'.producers ≡ s.producers)
unfolding distribute
distribute_lem c usecs supply s s' e =
    let workers = to_workers c usecs s in
    let producers = to_producers c usecs supply s in
    elim (Result-cases (get_balance c.ledger Names.exrsrv_tf c.core_symbol.code)) [
      | inr (m, x) ↦ absurd (ground arith)
      | inl (tedp, x) ↦
          elim (Result-cases (
            send_tokens c (transfer_tokens tedp.amount (workers +ℤ producers)) workers producers
              s)) [
                | inr (m, y) ↦ absurd (ground arith)
                | inl (s₁, y) ↦
                    let v = send_tokens-SameBooks c _ workers producers s s₁ y in
                    (
                      ground (arith, v.same_gstate),
                      ground (arith, v.same_payments),
                      ground (arith, v.same_producers),
                    )
              ]
    ]

-- What the inflation since the last fill adds to the bucket.
unfoldable pub producers_share : Chain → State → ℤ
producers_share c s =
    let last = s.gstate.last_pervote_bucket_fill in
    elim (get_supply c.ledger c.core_symbol.code) [
      | err _ ↦ pos 0
      | ok supply ↦
          if ltb last c.host.now_us && ltb 0 last
          then to_producers c (c.host.now_us - last) supply s
          else pos 0
    ]

add_none : (a : ℤ) → a ≡ a +ℤ pos 0
add_none a = omega int_laws

fill_bucket_lem :
    (c : Chain) (s s' : State)
    → fill_bucket c s ≡ ok s'
    → (s'.gstate.perblock_bucket ≡ s.gstate.perblock_bucket +ℤ producers_share c s)
      × (s'.payments ≡ s.payments)
      × (s'.producers ≡ s.producers)
unfolding fill_bucket producers_share
fill_bucket_lem c s s' e =
    let last = s.gstate.last_pervote_bucket_fill in
    elim (Result-cases (get_supply c.ledger c.core_symbol.code)) [
      | inr (m, x) ↦ absurd (ground arith)
      | inl (supply, x) ↦ elim (Bool-cases (ltb last c.host.now_us && ltb 0 last)) [
        | inl due ↦
            let done : distribute c (c.host.now_us - last) supply s ≡ ok s' =
              ground (arith, x, due) in
            let share : producers_share c s ≡ to_producers c (c.host.now_us - last) supply s =
              ground (arith, x, due) in
            rw share (distribute_lem c (c.host.now_us - last) supply s s' done)
        | inr not_due ↦
            let same : s' ≡ s = ground (arith, x, not_due) in
            let nothing : producers_share c s ≡ pos 0 = ground (arith, x, not_due) in
            let b = s.gstate.perblock_bucket in
            (
              rw same (add_none b ∙ ap (λ v. b +ℤ v) (sym nothing)),
              ap (λ (a : State). a.payments) same,
              ap (λ (a : State). a.producers) same,
            )
      ]
    ]

-- The payments of the shares, out of the bucket.
pay_shares_lem :
    (c : Chain) (s s' : State)
    → IsDocumented c.host
    → pay_shares c s ≡ ok s'
    → let index = c.by_votes s.producers in
      let share = quotient_ℤ s.gstate.perblock_bucket (share_count (count_active 42 index)) in
      let paid = scale_ℤ share (shares_paid 0 index) in
      (s'.gstate.perblock_bucket ≡ s.gstate.perblock_bucket -ℤ paid)
      × (total_due s'.payments ≡ total_due s.payments +ℤ paid)
      × (0 < share_count (count_active 42 index))
unfolding pay_shares
pay_shares_lem c s s' doc e =
    let index = c.by_votes s.producers in
    let shares = share_count (count_active 42 index) in
    let some_share : 0 < shares = ground arith in
    let run : pay_all c (quotient_ℤ s.gstate.perblock_bucket shares) 0 index s ≡ ok s' =
      ground arith in
    let (b, t) = pay_all_lem c _ 0 index s s' doc run in (b, t, some_share)

moved : (b b₁ b' t t' m p : ℤ) → b₁ ≡ b +ℤ m → b' ≡ b₁ -ℤ p → t' ≡ t +ℤ p → b' +ℤ t' ≡ b +ℤ t +ℤ m
moved b b₁ b' t t' m p h k l = omega (
  int_laws,
  ap pos_part h,
  ap neg_part h,
  ap pos_part k,
  ap neg_part k,
  ap pos_part l,
  ap neg_part l,
)

-- A snapshot that succeeds, on a documented host and where blocks are unpaid, moves tokens and makes
-- none but the share of the inflation: the bucket and the payments that are due have together as much
-- as before, and that share.
pub claimrewards_snapshot_conserves :
    (c : Chain) (s s' : State)
    → IsDocumented c.host
    → s.gstate.total_unpaid_blocks ≢ 0
    → claimrewards_snapshot c s ≡ ok s'
    → s'.gstate.perblock_bucket +ℤ total_due s'.payments
      ≡ s.gstate.perblock_bucket +ℤ total_due s.payments +ℤ producers_share c s
unfolding claimrewards_snapshot
claimrewards_snapshot_conserves c s s' doc unpaid e = elim (Result-cases (fill_bucket c s)) [
  | inr (m, failed) ↦ absurd (ground arith)
  | inl (s₁, filled) ↦
      let (more, same, _) = fill_bucket_lem c s s₁ filled in
      let paid : pay_shares c s₁ ≡ ok s' = ground arith in
      let (less, due, _) = pay_shares_lem c s₁ s' doc paid in
      let index = c.by_votes s₁.producers in
      let share = quotient_ℤ s₁.gstate.perblock_bucket (share_count (count_active 42 index)) in
      let out = scale_ℤ share (shares_paid 0 index) in
      moved _ _ _ _ _ _ _ more less (due ∙ ap (λ x. total_due x +ℤ out) same)
]

whole_shares : (b n k : ℕ) → k ≡ n → pos b -ℤ scale_ℤ (quotient_ℤ (pos b) n) k ≡ pos (b % n)
whole_shares b n k e = rw e (omega (int_laws, div-add-mod' b n))

-- The bucket after the payments, where the filled one is not negative.
pub snapshot-bucket :
    (c : Chain) (s s' : State) (b : ℕ)
    → IsDocumented c.host
    → s.gstate.total_unpaid_blocks ≢ 0
    → s.gstate.perblock_bucket +ℤ producers_share c s ≡ pos b
    → claimrewards_snapshot c s ≡ ok s'
    → let index = c.by_votes s.producers in
      s'.gstate.perblock_bucket
      ≡ pos b
        -ℤ scale_ℤ (quotient_ℤ (pos b) (share_count (count_active 42 index))) (shares_paid 0 index)
unfolding claimrewards_snapshot
snapshot-bucket c s s' b doc unpaid full e = elim (Result-cases (fill_bucket c s)) [
  | inr (m, failed) ↦ absurd (ground arith)
  | inl (s₁, filled) ↦
      let (more, _, kept) = fill_bucket_lem c s s₁ filled in
      let paid : pay_shares c s₁ ≡ ok s' = ground arith in
      let (less, _, _) = pay_shares_lem c s₁ s' doc paid in rw (kept, more ∙ full) at less
]

-- A snapshot that succeeds, on a documented host, where blocks are unpaid, the filled bucket is not
-- negative and the active producers come first in the index: every share that is counted is paid, and
-- the bucket keeps no more than the remainder of its division by the shares.
pub claimrewards_snapshot_remainder :
    (c : Chain) (s s' : State) (b : ℕ)
    → IsDocumented c.host
    → s.gstate.total_unpaid_blocks ≢ 0
    → s.gstate.perblock_bucket +ℤ producers_share c s ≡ pos b
    → actives_first (c.by_votes s.producers) ≡ true
    → claimrewards_snapshot c s ≡ ok s'
    → s'.gstate.perblock_bucket ≡ pos (b % share_count (count_active 42 (c.by_votes s.producers)))
claimrewards_snapshot_remainder c s s' b doc unpaid full first e =
    let index = c.by_votes s.producers in
    let counted = shares_paid-share_count 0 42 index refl first in
    snapshot-bucket c s s' b doc unpaid full e
    ∙ whole_shares b (share_count (count_active 42 index)) (shares_paid 0 index)
        (ground (arith, counted))
