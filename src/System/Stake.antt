-- ===== src/System/Stake.antt =====
-- contracts/eosio.system/src/delegate_bandwidth.cpp: stakes for bandwidth, and the refunds of those
-- taken back.
use telos_arbitration_fix.Prelude.{
  ℕ, ◌+◌, Bool, true, false, not, ◌&&◌, ◌||◌, Option, none, some, ◌==◌, ltb, leb, if◌then◌else◌,
  ◌*◌,
}
use telos_arbitration_fix.Prelude.Int.{ℤ, pos, ◌+ℤ◌, ◌-ℤ◌, ltb_ℤ, leb_ℤ, eqb_ℤ}
use telos_arbitration_fix.Eosio.{
  Result, ok, check, or_fail, ◌>>=◌, ◌>>◌, Table, find, insert, put, remove, erase, scope, Name,
  Asset, sym_eq,
}
use telos_arbitration_fix.Eosio.Names
use telos_arbitration_fix.System.{Chain}
use telos_arbitration_fix.System.Limits.{
  Accounts, DelegatedBandwidth, Limit, pay, ram_managed, net_managed, cpu_managed, is_managed,
  limit_of, resources_of, store_resources, update_voting_power,
}
use telos_arbitration_fix.System.Rex.{RexState}
use telos_arbitration_fix.System.Rex.Funds.{vote_stake}
use telos_arbitration_fix.System.Rex.Balances.{update_rex_stake}

-- `refund_request`, whose time is in seconds.
pub record RefundRequest : Type 0 where
  pub owner : Name
  pub request_time : ℕ
  pub net_amount : ℤ
  pub cpu_amount : ℤ

-- The deferred refunds are keyed by their owner, and hold the delay.
pub record Staking : Type 0 where
  pub rex : RexState
  pub refunds : Table RefundRequest
  pub deferred : Table ℕ

abbrev pub refund_delay_sec : ℕ
refund_delay_sec = 3 * 86400

abbrev pub ram_gift_bytes : ℤ
ram_gift_bytes = pos 1400

abbrev pub max_ℤ : ℤ → ℤ → ℤ
max_ℤ a b = if ltb_ℤ a b then b else a

abbrev pub abs_ℤ : ℤ → ℤ
abs_ℤ a = if ltb_ℤ a (pos 0) then pos 0 -ℤ a else a

-- The deltas are not both 0, and not of opposite signs.
unfoldable pub check_deltas : ℤ → ℤ → Result Bool
check_deltas net cpu = do
  check (not (eqb_ℤ net (pos 0)) || not (eqb_ℤ cpu (pos 0))) "should stake non-zero amount"
  check (leb_ℤ (max_ℤ (abs_ℤ net) (abs_ℤ cpu)) (abs_ℤ (net +ℤ cpu)))
      "net and cpu deltas cannot be opposite signs"
  ok true

abbrev pub bandwidth_of : Name → Table DelegatedBandwidth → DelegatedBandwidth
bandwidth_of receiver t = elim (find receiver t) [
  | none ↦ record { net_weight = pos 0; cpu_weight = pos 0 }
  | some d ↦ d
]

-- What `from` delegates to `receiver`; an empty row is erased.
unfoldable pub change_delegated :
    Name → ℤ → ℤ → Table DelegatedBandwidth → Result (Table DelegatedBandwidth)
change_delegated receiver net cpu t = do
  let old = bandwidth_of receiver t
  let d : DelegatedBandwidth = record {
    net_weight = old.net_weight +ℤ net;
    cpu_weight = old.cpu_weight +ℤ cpu;
  }
  check (leb_ℤ (pos 0) d.net_weight) "insufficient staked net bandwidth"
  check (leb_ℤ (pos 0) d.cpu_weight) "insufficient staked cpu bandwidth"
  let stored = put receiver d t
  ok (
      if eqb_ℤ d.net_weight (pos 0) && eqb_ℤ d.cpu_weight (pos 0)
      then remove receiver stored
      else stored)

-- The totals of `receiver`, with the gift of RAM in its limit.
unfoldable pub change_totals : Name → ℤ → ℤ → Accounts → Result Accounts
unfolding is_managed
change_totals receiver net cpu a = do
  let old = resources_of receiver a
  let tot = record old { net_weight = old.net_weight +ℤ net; cpu_weight = old.cpu_weight +ℤ cpu }
  check (leb_ℤ (pos 0) tot.net_weight) "insufficient staked total net bandwidth"
  check (leb_ℤ (pos 0) tot.cpu_weight) "insufficient staked total cpu bandwidth"
  let ram_is = is_managed ram_managed receiver a.system
  let net_is = is_managed net_managed receiver a.system
  let cpu_is = is_managed cpu_managed receiver a.system
  let l = limit_of receiver a
  let row : Limit = record {
    ram_bytes = if ram_is then l.ram_bytes else max_ℤ (tot.ram_bytes +ℤ ram_gift_bytes) l.ram_bytes;
    net = if net_is then l.net else tot.net_weight;
    cpu = if cpu_is then l.cpu else tot.cpu_weight;
  }
  let limits = if net_is && cpu_is then a.limits else put receiver row a.limits
  ok (store_resources receiver tot (record a { limits = limits }))

-- What is left of an amount after the refund took its share, and what is left to stake.
abbrev pub take_refund : ℤ → ℤ → ℤ × ℤ
take_refund amount delta =
    let rest = amount -ℤ delta in
    if ltb_ℤ rest (pos 0) then (pos 0, pos 0 -ℤ rest) else (rest, pos 0)

-- The refund request of the owner as the deltas change it, with the two amounts left to stake.
unfoldable pub change_refund :
    ℕ → Name → ℤ → ℤ → Option RefundRequest → Option RefundRequest × ℤ × ℤ
change_refund now owner net cpu none =
    let (net_amount, net_left) = take_refund (pos 0) net in
    let (cpu_amount, cpu_left) = take_refund (pos 0) cpu in
    let row : RefundRequest = record {
      owner = owner;
      request_time = now;
      net_amount = net_amount;
      cpu_amount = cpu_amount;
    } in
    if ltb_ℤ net (pos 0) || ltb_ℤ cpu (pos 0)
    then (some row, net_left, cpu_left)
    else (none, net, cpu)
change_refund now owner net cpu (some r) =
    let (net_amount, net_left) = take_refund r.net_amount net in
    let (cpu_amount, cpu_left) = take_refund r.cpu_amount cpu in
    let time = if ltb_ℤ net (pos 0) || ltb_ℤ cpu (pos 0) then now else r.request_time in
    let row = record r { request_time = time; net_amount = net_amount; cpu_amount = cpu_amount } in
    (
      if eqb_ℤ net_amount (pos 0) && eqb_ℤ cpu_amount (pos 0) then none else some row,
      net_left,
      cpu_left,
    )

abbrev pub store_refund : Name → Option RefundRequest → Table RefundRequest → Table RefundRequest
store_refund owner none t = remove owner t
store_refund owner (some r) t = put owner r t

-- The refund, its deferred transaction, and the transfer of what is left to stake.
unfoldable pub settle_refund : Chain → Name → Name → Name → ℤ → ℤ → Bool → Staking → Staking
unfolding change_refund
settle_refund c source from receiver net cpu transfer s =
    let is_undelegating = ltb_ℤ (net +ℤ cpu) (pos 0) in
    let is_delegating_to_self = not transfer && from == receiver in
    let affected = is_delegating_to_self || is_undelegating in
    let (row, net_left, cpu_left) = change_refund c.host.now from net cpu (find from s.refunds) in
    let cleared = erase from s.deferred in
    let pending = elim row as (λ o. Table ℕ) [
      | none ↦ cleared
      | some _ ↦ insert from refund_delay_sec cleared
    ] in
    let left = if affected then net_left +ℤ cpu_left else net +ℤ cpu in
    let x = s.rex in
    let paid = record x { accounts = pay source Names.eosio_stake left x.accounts } in
    record {
      refunds = if affected then store_refund from row s.refunds else s.refunds;
      deferred = if affected then pending else cleared;
      rex = if ltb_ℤ (pos 0) left then paid else x;
    }

unfoldable pub changebw : Chain → Name → Name → ℤ → ℤ → Bool → Staking → Result Staking
unfolding check_deltas change_delegated change_totals settle_refund update_rex_stake
    update_voting_power
changebw c source receiver net cpu transfer s = do
  check (c.host.has_auth source) "missing authority"
  _ ← check_deltas net cpu
  let from = if transfer then receiver else source
  let a = s.rex.accounts
  delegated ← change_delegated receiver net cpu (scope from a.delband)
  a₁ ← change_totals receiver net cpu (record a { delband = put from delegated a.delband })
  let x = s.rex
  let s₁ = record s { rex = record x { accounts = a₁ } }
  let s₂ =
      if source == Names.eosio_stake
      then s₁
      else settle_refund c source from receiver net cpu transfer s₁
  x₁ ← vote_stake c from (net +ℤ cpu) (update_rex_stake from s₂.rex)
  ok (record s₂ { rex = x₁ })

-- The notice to telos.decide is not of this contract.
unfoldable pub delegatebw : Chain → Name → Name → Asset → Asset → Bool → Staking → Result Staking
unfolding changebw
delegatebw c from receiver net cpu transfer s = do
  check (sym_eq cpu.symbol c.core_symbol) "comparison of assets with different symbols"
  check (leb_ℤ (pos 0) cpu.amount) "must stake a positive amount"
  check (sym_eq net.symbol c.core_symbol) "comparison of assets with different symbols"
  check (leb_ℤ (pos 0) net.amount) "must stake a positive amount"
  check (ltb_ℤ (pos 0) (net.amount +ℤ cpu.amount)) "must stake a positive amount"
  check (not transfer || not (from == receiver)) "cannot use transfer flag if delegating to self"
  changebw c from receiver net.amount cpu.amount transfer s

abbrev pub block_num_network_activation : ℕ
block_num_network_activation = 1000

unfoldable pub undelegatebw : Chain → Name → Name → Asset → Asset → Staking → Result Staking
unfolding changebw
undelegatebw c from receiver net cpu s = do
  check (sym_eq cpu.symbol c.core_symbol) "comparison of assets with different symbols"
  check (leb_ℤ (pos 0) cpu.amount) "must unstake a positive amount"
  check (sym_eq net.symbol c.core_symbol) "comparison of assets with different symbols"
  check (leb_ℤ (pos 0) net.amount) "must unstake a positive amount"
  check (ltb_ℤ (pos 0) (cpu.amount +ℤ net.amount)) "must unstake a positive amount"
  let g = s.rex.accounts.system.gstate
  check (ltb block_num_network_activation g.block_num || ltb 0 g.thresh_activated_stake_time)
      "cannot undelegate bandwidth until the chain is activated (1,000,000 blocks produced)"
  changebw c from receiver (pos 0 -ℤ net.amount) (pos 0 -ℤ cpu.amount) false s

unfoldable pub refund : Chain → Name → Staking → Result Staking
refund c owner s = do
  check (c.host.has_auth owner) "missing authority"
  req ← or_fail (find owner s.refunds) "refund request not found"
  check (leb (req.request_time + refund_delay_sec) c.host.now) "refund is not available yet"
  let x = s.rex
  ok (record s {
    rex = record x {
      accounts = pay Names.eosio_stake req.owner (req.net_amount +ℤ req.cpu_amount) x.accounts;
    };
    refunds = remove owner s.refunds;
  })
