-- ===== src/System/Bidding.antt =====
-- contracts/eosio.system/src/name_bidding.cpp: the auction of names.
use telos_arbitration_fix.Prelude.{
  ℕ, ◌+◌, ◌*◌, ◌%◌, ◌/◌, ◌^◌, not, none, some, List, [], ◌∷◌, ◌++◌, ◌==◌,
}
use telos_arbitration_fix.Prelude.Int.{ℤ, pos, ◌-ℤ◌, ltb_ℤ, quotient_ℤ}
use telos_arbitration_fix.Eosio.{
  Result, ok, check, or_fail, ◌>>=◌, ◌>>◌, Table, find, insert, modify, put, erase, scope, Name,
  Asset, sym_eq,
}
use telos_arbitration_fix.Eosio.Names
use telos_arbitration_fix.System.{Chain}

-- `name_bid`. A bid that is not positive is that of an auction that has closed.
pub record NameBid : Type 0 where
  pub newname : Name
  pub high_bidder : Name
  pub high_bid : ℤ
  pub last_bid_time : ℕ

-- A transfer that is sent, from, to and how much; its memo names the name.
pub record Transfer : Type 0 where
  pub from : Name
  pub to : Name
  pub quantity : Asset

-- The refunds are scoped by the name and keyed by the bidder. A deferred refund has the key of its
-- transaction, and the bidder and the name of the action `bidrefund` in it.
pub record Auctions : Type 0 where
  pub bids : Table NameBid
  pub refunds : Table (Table Asset)
  pub deferred : Table (Name × Name)
  pub sent : List Transfer

-- What the refund of the bidder who is outbid becomes.
unfoldable pub add_refund : Chain → Name → ℤ → Table Asset → Result (Table Asset)
add_refund c bidder amount t = do
  refund ← c.host.make_asset amount c.core_symbol
  elim (find bidder t) [
    | none ↦ ok (insert bidder refund t)
    | some old ↦ do more ← c.host.asset_add old refund; ok (modify bidder (λ _. more) t)
  ]

-- The transaction of that id is cancelled, and sent anew.
abbrev pub defer_refund : Name → Name → Table (Name × Name) → Table (Name × Name)
defer_refund bidder newname t =
    let id = newname * 2 ^ 64 + bidder in insert id (bidder, newname) (erase id t)

-- The checks of the name. The bits are those of its 13th and 12th characters.
unfoldable pub check_name : Chain → (Name → Name) → Name → Result Name
check_name c suffix newname = do
  check (suffix newname == newname) "you can only bid on top-level suffix"
  check (not (newname == 0)) "the empty name is not a valid account name to bid on"
  check (newname % 16 == 0) "13 character names are not valid account names to bid on"
  check (newname / 16 % 32 == 0)
      "accounts with 12 character names and no dots can be created without bidding required"
  check (not (c.host.is_account newname)) "account already exists"
  ok newname

-- A bid on a name that has one.
unfoldable pub outbid : Chain → Name → Name → ℤ → NameBid → Auctions → Result Auctions
unfolding add_refund
outbid c bidder newname amount current s = do
  check (ltb_ℤ (pos 0) current.high_bid) "this auction has already closed"
  check (ltb_ℤ (quotient_ℤ current.high_bid 10) (amount -ℤ current.high_bid))
      "must increase bid by 10%"
  check (not (current.high_bidder == bidder)) "account is already highest bidder"
  refunds ← add_refund c current.high_bidder current.high_bid (scope newname s.refunds)
  ok (record s {
    refunds = put newname refunds s.refunds;
    deferred = defer_refund current.high_bidder newname s.deferred;
    bids =
        modify newname
          (λ b. record b { high_bidder = bidder; high_bid = amount; last_bid_time = c.host.now_us })
          s.bids;
  })

-- `suffix` is that of the names of the development kit.
unfoldable pub bidname : Chain → (Name → Name) → Name → Name → Asset → Auctions → Result Auctions
unfolding check_name outbid
bidname c suffix bidder newname bid s = do
  check (c.host.has_auth bidder) "missing authority"
  _ ← check_name c suffix newname
  check (sym_eq bid.symbol c.core_symbol) "asset must be system token"
  check (ltb_ℤ (pos 0) bid.amount) "insufficient bid"
  let s₁ = record s {
    sent = s.sent ++ record { from = bidder; to = Names.eosio_names; quantity = bid } ∷ [];
  }
  elim (find newname s₁.bids) [
    | none ↦ ok (record s₁ {
      bids =
          insert newname
            (record {
              newname = newname;
              high_bidder = bidder;
              high_bid = bid.amount;
              last_bid_time = c.host.now_us;
            })
            s₁.bids;
    })
    | some current ↦ outbid c bidder newname bid.amount current s₁
  ]

unfoldable pub bidrefund : Name → Name → Auctions → Result Auctions
bidrefund bidder newname s = do
  refund ← or_fail (find bidder (scope newname s.refunds)) "refund not found"
  ok (record s {
    refunds = put newname (erase bidder (scope newname s.refunds)) s.refunds;
    sent = s.sent ++ record { from = Names.eosio_names; to = bidder; quantity = refund } ∷ [];
  })
