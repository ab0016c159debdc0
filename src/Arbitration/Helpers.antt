-- ===== src/Arbitration/Helpers.antt =====
-- The helpers of contracts/eosio.arbitration/src/eosio.arbitration.cpp and of its header.
use text.Mathlib.Text.{◌==◌ as str_eq}
use Prim.Native.String.{len}
use telos_arbitration_fix.Prelude.{
  ℕ, ◌+◌, ◌-◌, ◌*◌, ◌/◌, ◌%◌, ◌^◌, false, not, ◌&&◌, ◌||◌, Option, none, some, List, [], ◌∷◌, ◌++◌,
  String, ◌==◌, ltb, if◌then◌else◌, length,
}
use telos_arbitration_fix.Prelude.Int.{pos, ltb_ℤ, is_zero}
use telos_arbitration_fix.Eosio.{
  Result, ok, check, or_fail, ◌>>=◌, ◌>>◌, Table, find, insert, modify, erase, put, scope, Name,
  Asset, Host, vote,
}
use telos_arbitration_fix.Arbitration.Types.{
  Arbitrator, Claim, Casefile, Config, PermissionWeight, Sent, State,
}
use telos_arbitration_fix.Arbitration.ArbStatus.{unavailable, removed, seat_expired}
use telos_arbitration_fix.Eosio.Names

-- `action(...).send()`
abbrev pub send : Sent → State → State
send a s = record s { sent = s.sent ++ a ∷ [] }

abbrev pub update_case : ℕ → (Casefile → Casefile) → State → State
update_case id f s = record s { casefiles = modify id f s.casefiles }

unfoldable pub validate_ipfs_url : String → Result (Unit {0})
validate_ipfs_url url =
    check (len url == 46 || len url == 49) "invalid ipfs string, valid schema: <hash>"

unfoldable pub assert_string : String → String → Result (Unit {0})
assert_string to_check error_msg = check (ltb 0 (len to_check) && ltb (len to_check) 255) error_msg

-- `get_claim_at`: the first claim with this summary. The code erases or changes it in place.
unfoldable pub get_claim_at : String → List Claim → Option Claim
get_claim_at hash [] = none
get_claim_at hash (c ∷ cs) = if str_eq c.claim_summary hash then some c else get_claim_at hash cs

unfoldable pub erase_claim_at : String → List Claim → List Claim
erase_claim_at hash [] = []
erase_claim_at hash (c ∷ cs) =
    if str_eq c.claim_summary hash then cs else c ∷ erase_claim_at hash cs

unfoldable pub respond_claim_at : String → String → List Claim → List Claim
respond_claim_at hash link [] = []
respond_claim_at hash link (c ∷ cs) =
    if str_eq c.claim_summary hash
    then record c { response_link = link } ∷ cs
    else c ∷ respond_claim_at hash link cs

unfoldable pub get_default_config : Host → Config
get_default_config h = record {
  publisher = h.self;
  max_elected_arbs = 21;
  election_duration = 2505600;
  election_start = 604800;
  fee_structure = pos 2000000 ∷ [];
  arb_term_length = 31536000;
  last_time_edited = h.now;
  current_ballot_id = 0;
  auto_start_election = false;
}

-- The ballot is of type 2, a leaderboard. Times are uint32_t.
unfoldable pub start_new_election : Host → ℕ → State → State
start_new_election h available_seats s =
    let begin_time = (h.now + s.config.election_start) % 2 ^ 32 in
    let end_time = (begin_time + s.config.election_duration) % 2 ^ 32 in
    send (Sent.setseats h.self s.config.current_ballot_id available_seats)
      (send (Sent.regballot h.self 2 vote begin_time end_time "") s)

-- A seat whose term is over is marked so.
unfoldable pub expire_seat : ℕ → Arbitrator → Arbitrator
expire_seat now a =
    if ltb a.term_expiration now && not (a.arb_status == seat_expired)
    then record a { arb_status = seat_expired }
    else a

-- The loop of `has_available_seats`, with `occupied_seats` as a uint8_t.
unfoldable pub count_seats : ℕ → ℕ → Table Arbitrator → Table Arbitrator × ℕ
unfolding expire_seat
count_seats now occupied [] = ([], occupied)
count_seats now occupied ((k, a) ∷ t) =
    let a' = expire_seat now a in
    let (t', n) =
      count_seats now (if a'.arb_status == seat_expired then occupied else (occupied + 1) % 256)
        t in
    ((k, a') ∷ t', n)

-- The number of available seats, and the state with the expired seats marked. The code's result is
-- whether that number is positive.
unfoldable pub has_available_seats : Host → State → ℕ × State
unfolding count_seats
has_available_seats h s =
    let (t, occupied) = count_seats h.now 0 s.arbitrators in
    ((s.config.max_elected_arbs + 256 - occupied) % 256, record s { arbitrators = t })

-- The test is the code's: `status != SEAT_EXPIRED || status != REMOVED`.
unfoldable pub get_arb_permissions : List Arbitrator → List PermissionWeight
get_arb_permissions [] = []
get_arb_permissions (a ∷ as_) =
    if not (a.arb_status == seat_expired) || not (a.arb_status == removed)
    then record { actor = a.arb; permission = Names.active; weight = 1 } ∷ get_arb_permissions as_
    else get_arb_permissions as_

-- `std::sort` by the actor's name
unfoldable pub insert_perm : PermissionWeight → List PermissionWeight → List PermissionWeight
insert_perm p [] = p ∷ []
insert_perm p (q ∷ qs) = if ltb q.actor p.actor then q ∷ insert_perm p qs else p ∷ q ∷ qs

unfoldable pub sort_perms : List PermissionWeight → List PermissionWeight
unfolding insert_perm
sort_perms [] = []
sort_perms (p ∷ ps) = insert_perm p (sort_perms ps)

-- `weight`, a uint32_t
unfoldable pub perms_weight : ℕ → ℕ
perms_weight n = if ltb 3 n then (2 * n / 3 + 1) % 2 ^ 32 else 1

unfoldable pub set_permissions : Host → List PermissionWeight → State → State
unfolding sort_perms perms_weight
set_permissions h perms s =
    if ltb 0 (length perms)
    then send
        (Sent.updateauth h.self Names.major Names.owner
          (record { threshold = perms_weight (length perms); accounts = sort_perms perms }))
        s
    else s

-- A new arbitrator starts unavailable; one that is re-elected keeps the cases and languages.
unfoldable pub add_arbitrator : Host → Name → String → State → State
add_arbitrator h arb_name credential_link s =
    let term = (h.now + s.config.arb_term_length) % 2 ^ 32 in
    elim (find arb_name s.arbitrators) [
      | none ↦ record s {
        arbitrators =
            insert arb_name
              (record {
                arb = arb_name;
                arb_status = unavailable;
                open_case_ids = [];
                closed_case_ids = [];
                credentials_link = credential_link;
                elected_time = h.now;
                term_expiration = term;
                languages = [];
              })
              s.arbitrators;
      }
      | some _ ↦ record s {
        arbitrators =
            modify arb_name
              (λ a. record a {
                arb_status = unavailable;
                elected_time = h.now;
                term_expiration = term;
                credentials_link = credential_link;
              })
              s.arbitrators;
      }
    ]

unfoldable pub del_claim : ℕ → Table Claim → Result (Table Claim)
del_claim id t = do or_fail (find id t) "claim not found"; ok (erase id t)

unfoldable pub sub_balance :
    Host → Name → Asset → Table (Table Asset) → Result (Table (Table Asset))
sub_balance h owner value accounts = do
  let from_acnts = scope owner accounts
  from ← or_fail (find value.symbol.code from_acnts) "no balance object found"
  check (not (ltb_ℤ from.amount value.amount)) "overdrawn balance"
  left ← h.asset_sub from value
  ok (
      put owner
        (if is_zero left.amount
          then erase value.symbol.code from_acnts
          else modify value.symbol.code (λ _. left) from_acnts)
        accounts)

unfoldable pub add_balance :
    Host → Name → Asset → Table (Table Asset) → Result (Table (Table Asset))
add_balance h owner value accounts =
    let to_acnts = scope owner accounts in
    elim (find value.symbol.code to_acnts) [
      | none ↦ ok (put owner (insert value.symbol.code value to_acnts) accounts)
      | some balance ↦ do
        total ← h.asset_add balance value
        ok (put owner (modify value.symbol.code (λ _. total) to_acnts) accounts)
    ]
