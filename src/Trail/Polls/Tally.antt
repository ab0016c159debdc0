-- ===== src/Trail/Polls/Tally.antt =====
-- The counts of a proposal against the receipts of its voters.
use telos_arbitration_fix.Prelude.{
  ℕ, ◌≤◌, ◌≡◌, refl, ◌⊎◌, inl, inr, Bool, true, false, ◌&&◌, Bool-cases, Option-cases, none, some,
  List, [], ◌∷◌, get_elem?, ◌==◌, leb, if◌then◌else◌, arith,
}
use telos_arbitration_fix.Prelude.Int.{ℤ, pos, ◌+ℤ◌, ◌-ℤ◌, int_laws}
use telos_arbitration_fix.Eosio.{
  Result-cases, ok, Table, find, modify, Asset, Host, IsDocumented, find-insert, find-modify,
}
use telos_arbitration_fix.Eosio.Sums.{sum_of}
use telos_arbitration_fix.Trail.Tokens.{Registry}
use telos_arbitration_fix.Trail.Voting.{VoteReceipt, Proposal}
use telos_arbitration_fix.Trail.Polls.Votes.{
  add_count, sub_count, Counting, count_receipt, set_first,
}

-- The first direction of a receipt is this one.
abbrev pub starts_with : ℕ → List ℕ → Bool
starts_with d [] = false
starts_with d (e ∷ es) = e == d

-- The count of a direction: 0 is no, 1 is yes, 2 is to abstain.
abbrev pub count_of : ℕ → Proposal → Asset
count_of d p = if d == 0 then p.no_count else (if d == 1 then p.yes_count else p.abstain_count)

-- The weight that a voter's receipts hold for a direction in the cycle that ends at this time.
abbrev pub vote_share : ℕ → ℕ → ℕ → Table VoteReceipt → ℤ
vote_share ballot end_time d u = elim (find ballot u) [
  | none ↦ pos 0
  | some vr ↦
      if vr.expiration == end_time && starts_with d vr.directions then vr.weight.amount else pos 0
]

-- The weight that all receipts hold.
unfoldable pub votes_cast : ℕ → ℕ → ℕ → Table (Table VoteReceipt) → ℤ
votes_cast ballot end_time d t = sum_of (vote_share ballot end_time d) t

-- It starts with one of the three directions.
abbrev pub has_direction_first : List ℕ → Bool
has_direction_first [] = false
has_direction_first (e ∷ es) = leb e 2

-- A receipt that a vote of the cycle may meet: it does not expire later, and has a direction.
abbrev pub Fits : ℕ → VoteReceipt → Type 0
Fits end_time vr = (vr.expiration ≤ end_time) × (has_direction_first vr.directions ≡ true)

-- The voter has not voted in this cycle for this direction, or the token forbids another vote.
abbrev pub NoRepeat : Registry → ℕ → ℕ → ℕ → Table VoteReceipt → Type 0
NoRepeat reg ballot end_time d u =
    (reg.settings.is_recastable ≡ false)
    ⊎ ((vr : VoteReceipt)
        → find ballot u ≡ some vr
        → vr.expiration ≡ end_time
        → starts_with d vr.directions ≡ false)

starts_with-set_first :
    (d k : ℕ) (ds : List ℕ)
    → has_direction_first ds ≡ true
    → starts_with k (set_first d ds) ≡ (d == k)
starts_with-set_first d k [] h = cc
starts_with-set_first d k (e ∷ es) h = refl

set_first_valid :
    (d : ℕ) (ds : List ℕ)
    → d ≤ 2
    → has_direction_first ds ≡ true
    → has_direction_first (set_first d ds) ≡ true
set_first_valid d [] b h = cc
set_first_valid d (e ∷ es) b h = ground arith

starts_with-get_elem? :
    (ds : List ℕ) (old : ℕ)
    → get_elem? ds 0 ≡ some old
    → (k : ℕ) → (starts_with k ds ≡ (old == k)) × (has_direction_first ds ≡ leb old 2)
starts_with-get_elem? [] old h k = cc
starts_with-get_elem? (e ∷ es) old h k = ground arith

plus_zero : (a : ℤ) → a +ℤ pos 0 ≡ a
plus_zero a = omega int_laws

minus_plus : (a b : ℤ) → a -ℤ b +ℤ b ≡ a +ℤ pos 0
minus_plus a b = omega int_laws

-- One weight taken from a count and one given to another.
recount :
    (old d k : ℕ) (a l q x w : ℤ)
    → (old == d) ≡ false
    → l ≡ (if old == k then a -ℤ x else a)
    → q ≡ (if d == k then l +ℤ w else l)
    → q +ℤ (if old == k then x else pos 0) ≡ a +ℤ (if d == k then w else pos 0)
recount old d k a l q x w ne e f = ground (arith, plus_zero a, plus_zero (a +ℤ w), minus_plus a x)

module _ (h : Host) (doc : IsDocumented h) where
  pub add_count_lem :
      (d k : ℕ) (w : Asset) (p q : Proposal)
      → d ≤ 2
      → k ≤ 2
      → add_count h d w p ≡ ok q
      → ((count_of k q).amount
          ≡ (if d == k then (count_of k p).amount +ℤ w.amount else (count_of k p).amount))
        × (q.end_time ≡ p.end_time)
  unfolding add_count
  add_count_lem d k w p q b c e = elim (Result-cases (h.asset_add (count_of d p) w)) [
    | inl (n, r) ↦ ground (arith, doc.add_ok (count_of d p) w n r)
    | inr (m, r) ↦ ground arith
  ]

  pub sub_count_lem :
      (d k : ℕ) (w : Asset) (p q : Proposal)
      → d ≤ 2
      → k ≤ 2
      → sub_count h d w p ≡ ok q
      → ((count_of k q).amount
          ≡ (if d == k then (count_of k p).amount -ℤ w.amount else (count_of k p).amount))
        × (q.end_time ≡ p.end_time)
  unfolding sub_count
  sub_count_lem d k w p q b c e = elim (Result-cases (h.asset_sub (count_of d p) w)) [
    | inl (n, r) ↦ ground (arith, doc.sub_ok (count_of d p) w n r)
    | inr (m, r) ↦ ground arith
  ]

  -- What a vote adds to the count of a direction, it adds to the receipts of the voter.
  pub count_receipt_lem :
      (reg : Registry) (ballot d k : ℕ) (w : Asset) (p q : Proposal) (u : Table VoteReceipt)
      (c : Counting)
      → d ≤ 2
      → k ≤ 2
      → ((vr : VoteReceipt) → find ballot u ≡ some vr → Fits p.end_time vr)
      → NoRepeat reg ballot p.end_time d u
      → count_receipt h reg ballot d w p u ≡ ok c
      → add_count h d c.weight c.prop ≡ ok q
      → (count_of k q).amount +ℤ vote_share ballot p.end_time k u
        ≡ (count_of k p).amount +ℤ vote_share ballot p.end_time k c.receipts
  unfolding count_receipt
  count_receipt_lem reg ballot d k w p q u c b l fits fresh e f =
      elim (Option-cases (find ballot u)) [
        | inl n ↦
            let row : VoteReceipt = record {
              ballot_id = ballot;
              directions = d ∷ [];
              weight = w;
              expiration = p.end_time;
            } in
            ground (
              arith,
              find-insert ballot ballot row u,
              add_count_lem d k c.weight c.prop q b l f,
              plus_zero ((count_of k p).amount),
              plus_zero ((count_of k p).amount +ℤ w.amount),
            )
        | inr (vr, n) ↦ elim (Bool-cases (vr.expiration == p.end_time)) [
          | inr later ↦
              let g = λ (a : VoteReceipt). record a {
                directions = set_first d vr.directions;
                weight = w;
                expiration = p.end_time;
              } in
              ground (
                arith,
                fits vr n,
                starts_with-set_first d k vr.directions,
                find-modify ballot ballot g u,
                add_count_lem d k c.weight c.prop q b l f,
                plus_zero ((count_of k p).amount),
                plus_zero ((count_of k p).amount +ℤ w.amount),
              )
          | inl now ↦ elim (Option-cases (get_elem? vr.directions 0)) [
            | inl m ↦ ground arith
            | inr (old, m) ↦
                let first = starts_with-get_elem? vr.directions old m in
                let other : old == d ≡ false = elim fresh [
                  | inl locked ↦ ground arith
                  | inr g ↦ ground (arith, g vr n, first d)
                ] in
                elim (Result-cases (sub_count h old vr.weight p)) [
                  | inr (msg, r) ↦ ground arith
                  | inl (less, r) ↦
                      let g = λ (a : VoteReceipt). record a {
                        directions = set_first d vr.directions;
                        weight = w;
                      } in
                      let same_w : c.weight ≡ w = ground arith in
                      let same_p : c.prop ≡ less = ground arith in
                      let same_r : c.receipts ≡ modify ballot g u = ground arith in
                      let valid = fits vr n in
                      let taken =
                        sub_count_lem old k vr.weight p less (ground (arith, first 0)) l r in
                      let given = add_count_lem d k c.weight c.prop q b l f in
                      let before : vote_share ballot p.end_time k u
                          ≡ (if old == k then vr.weight.amount else pos 0) =
                        ground (arith, first k) in
                      let after : vote_share ballot p.end_time k (modify ballot g u)
                          ≡ (if d == k then w.amount else pos 0) =
                        ground (
                          arith,
                          find-modify ballot ballot g u,
                          starts_with-set_first d k vr.directions,
                        ) in
                      rw (before, same_r, after)
                        (recount old d k (count_of k p).amount (count_of k less).amount
                          (count_of k q).amount vr.weight.amount w.amount other taken.0
                          (ground (arith, given.0)))
                ]
          ]
        ]
      ]

  -- The receipts that a vote leaves fit the cycle.
  pub count_receipt-Fits :
      (reg : Registry) (ballot d : ℕ) (w : Asset) (p : Proposal) (u : Table VoteReceipt)
      (c : Counting)
      → d ≤ 2
      → ((vr : VoteReceipt) → find ballot u ≡ some vr → Fits p.end_time vr)
      → count_receipt h reg ballot d w p u ≡ ok c
      → (vr : VoteReceipt) → find ballot c.receipts ≡ some vr
      → Fits p.end_time vr
  unfolding count_receipt
  count_receipt-Fits reg ballot d w p u c b fits e vr m = elim (Option-cases (find ballot u)) [
    | inl n ↦
        let row : VoteReceipt = record {
          ballot_id = ballot;
          directions = d ∷ [];
          weight = w;
          expiration = p.end_time;
        } in
        ground (arith, find-insert ballot ballot row u)
    | inr (old, n) ↦ elim (Bool-cases (old.expiration == p.end_time)) [
      | inr later ↦
          let g = λ (a : VoteReceipt). record a {
            directions = set_first d old.directions;
            weight = w;
            expiration = p.end_time;
          } in
          ground (
            arith,
            fits old n,
            fits vr,
            set_first_valid d old.directions,
            find-modify ballot ballot g u,
          )
      | inl now ↦ elim (Option-cases (get_elem? old.directions 0)) [
        | inl none_first ↦ ground arith
        | inr (first, f) ↦ elim (Bool-cases (first == d)) [
          | inl again ↦ elim (Result-cases (h.asset_sub w old.weight)) [
            | inr (msg, r) ↦ ground arith
            | inl (rest, r) ↦ let same : c.receipts ≡ u = ground arith in fits vr (rw (← same) m)
          ]
          | inr other ↦ elim (Result-cases (sub_count h first old.weight p)) [
            | inr (msg, r) ↦ ground arith
            | inl (less, r) ↦
                let g = λ (a : VoteReceipt). record a {
                  directions = set_first d old.directions;
                  weight = w;
                } in
                let same : c.receipts ≡ modify ballot g u = ground arith in
                ground (
                  arith,
                  fits old n,
                  set_first_valid d old.directions,
                  find-modify ballot ballot g u,
                )
          ]
        ]
      ]
    ]
  ]
