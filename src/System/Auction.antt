-- ===== src/System/Auction.antt =====
-- The tokens of an auction of contracts/eosio.system/src/name_bidding.cpp.
use telos_arbitration_fix.Prelude.{
  ◌≡◌, refl, ap, inl, inr, none, some, [], ◌∷◌, ◌++◌, arith, Option-cases,
}
use telos_arbitration_fix.Prelude.Int.{ℤ, pos, pos_part, neg_part, ◌+ℤ◌, int_laws}
use telos_arbitration_fix.Eosio.{
  Result-cases, ok, Table, find, insert, modify, scope, find-insert, find-modify, scope-put, Name,
  Asset, IsDocumented,
}
use telos_arbitration_fix.Eosio.Names
use telos_arbitration_fix.Eosio.Sums.{sum_of, sum_of-insert, sum_of-modify}
use telos_arbitration_fix.System.{Chain}
use telos_arbitration_fix.System.Bidding.{
  NameBid, Auctions, add_refund, check_name, outbid, bidname,
}

abbrev amount_of : Asset → ℤ
amount_of a = a.amount

-- The highest bid on a name.
abbrev pub highest_bid : Name → Table NameBid → ℤ
highest_bid n t = elim (find n t) [ none ↦ pos 0 | some b ↦ b.high_bid ]

-- What the contract owes for a name: its highest bid, and the refunds that wait.
unfoldable pub owed : Name → Auctions → ℤ
owed n s = highest_bid n s.bids +ℤ sum_of amount_of (scope n s.refunds)

moved : (a b x y p : ℤ) → a +ℤ x ≡ b +ℤ y → y ≡ x +ℤ p → a ≡ b +ℤ p
moved a b x y p h k = omega (int_laws, ap pos_part h, ap neg_part h, ap pos_part k, ap neg_part k)

-- The refunds grow by the bid that was outbid.
add_refund-total :
    (c : Chain) (bidder : Name) (amount : ℤ) (t t' : Table Asset)
    → IsDocumented c.host
    → add_refund c bidder amount t ≡ ok t'
    → sum_of amount_of t' ≡ sum_of amount_of t +ℤ amount
unfolding add_refund
add_refund-total c bidder amount t t' doc e =
    elim (Result-cases (c.host.make_asset amount c.core_symbol)) [
      | inr (m, failed) ↦ absurd (ground arith)
      | inl (refund, made) ↦
          let worth : refund.amount ≡ amount =
            ap amount_of (doc.make_ok amount c.core_symbol refund made).0 in
          elim (Option-cases (find bidder t)) [
            | inl fresh ↦ ground (arith, fresh, worth, sum_of-insert amount_of bidder refund t)
            | inr (old, found) ↦ elim (Result-cases (c.host.asset_add old refund)) [
              | inr (m, failed) ↦ absurd (ground arith)
              | inl (more, added) ↦
                  let (_, same, _) = doc.add_ok old refund more added in
                  let out : t' ≡ modify bidder (λ _. more) t = ground (arith, made, found, added) in
                  rw (out, ← worth)
                    (moved _ _ old.amount more.amount refund.amount
                      (sum_of-modify amount_of (λ _. more) bidder t old found) (ap amount_of same))
            ]
          ]
    ]

grown : (h a b m p : ℤ) → a ≡ b +ℤ h → m +ℤ a ≡ h +ℤ b +ℤ m
grown h a b m p e = omega (int_laws, ap pos_part e, ap neg_part e)

outbid-owed :
    (c : Chain) (bidder newname : Name) (amount : ℤ) (current : NameBid) (s s' : Auctions)
    → IsDocumented c.host
    → find newname s.bids ≡ some current
    → outbid c bidder newname amount current s ≡ ok s'
    → (owed newname s' ≡ owed newname s +ℤ amount) × (s'.sent ≡ s.sent)
unfolding outbid owed
outbid-owed c bidder newname amount current s s' doc found e =
    elim (Result-cases
      (add_refund c current.high_bidder current.high_bid (scope newname s.refunds))) [
        | inr (m, failed) ↦ absurd (ground arith)
        | inl (refunds, added) ↦
            let more =
              add_refund-total c current.high_bidder current.high_bid (scope newname s.refunds)
                refunds doc added in
            let f = λ (b : NameBid). record b {
              high_bidder = bidder;
              high_bid = amount;
              last_bid_time = c.host.now_us;
            } in
            let top : highest_bid newname s'.bids ≡ amount =
              ground (arith, found, find-modify newname newname f s.bids) in
            let old : highest_bid newname s.bids ≡ current.high_bid = ground (arith, found) in
            let rest : scope newname s'.refunds ≡ refunds =
              ground (arith, scope-put newname newname refunds s.refunds) in
            (rw (top, old, rest) (grown current.high_bid _ _ amount amount more), ground arith)
      ]

new_bid-owed : (b m r : ℤ) → b ≡ pos 0 → m +ℤ r ≡ b +ℤ r +ℤ m
new_bid-owed b m r e = omega (int_laws, ap pos_part e, ap neg_part e)

first_bid :
    (newname : Name) (row : NameBid) (s : Auctions)
    → find newname s.bids ≡ none
    → owed newname (record s { bids = insert newname row s.bids }) ≡ owed newname s +ℤ row.high_bid
unfolding owed
first_bid newname row s fresh =
    let top : highest_bid newname (insert newname row s.bids) ≡ row.high_bid =
      ground (arith, find-insert newname newname row s.bids fresh) in
    let nothing : highest_bid newname s.bids ≡ pos 0 = ground (arith, fresh) in
    rw top (new_bid-owed (highest_bid newname s.bids) row.high_bid _ nothing)

-- A bid that succeeds, on a documented host, sends its tokens from the bidder to the account of the
-- auctions, and what is owed for the name, its highest bid and the refunds that wait, grows by exactly
-- these tokens, whether the name had a bid before or not.
pub bidname-owed :
    (c : Chain) (suffix : Name → Name) (bidder newname : Name) (bid : Asset) (s s' : Auctions)
    → IsDocumented c.host
    → bidname c suffix bidder newname bid s ≡ ok s'
    → (owed newname s' ≡ owed newname s +ℤ bid.amount)
      × (s'.sent ≡ s.sent ++ record { from = bidder; to = Names.eosio_names; quantity = bid } ∷ [])
unfolding bidname owed
bidname-owed c suffix bidder newname bid s s' doc e =
    let s₁ : Auctions = record s {
      sent = s.sent ++ record { from = bidder; to = Names.eosio_names; quantity = bid } ∷ [];
    } in
    elim (Result-cases (check_name c suffix newname)) [
      | inr (m, failed) ↦ absurd (ground arith)
      | inl (n, named) ↦ elim (Option-cases (find newname s.bids)) [
        | inr (current, found) ↦
            let done : outbid c bidder newname bid.amount current s₁ ≡ ok s' = ground arith in
            outbid-owed c bidder newname bid.amount current s₁ s' doc found done
        | inl fresh ↦
            let row : NameBid = record {
              newname = newname;
              high_bidder = bidder;
              high_bid = bid.amount;
              last_bid_time = c.host.now_us;
            } in
            let out : s' ≡ record s₁ { bids = insert newname row s.bids } = ground arith in
            rw out (first_bid newname row s fresh, refl)
      ]
    ]
