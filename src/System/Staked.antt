-- ===== src/System/Staked.antt =====
-- The tokens that contracts/eosio.system/src/delegate_bandwidth.cpp holds for an account: its stakes
-- and its refunds, against the transfers to eosio.stake.
use telos_arbitration_fix.Prelude.{
  ◌≡◌, refl, ap, sym, ◌∙◌, inl, inr, Bool, false, some, ◌==◌, if◌then◌else◌, not, ◌&&◌, ◌||◌, arith,
  Option-cases, Bool-cases,
}
use telos_arbitration_fix.Prelude.Int.{
  ℤ, pos, pos_part, neg_part, ◌+ℤ◌, ◌-ℤ◌, ◌≤ℤ◌, int_laws, ltb_ℤ, eqb_ℤ,
}
use telos_arbitration_fix.Eosio.{
  Result-cases, ok, Table, find, put, remove, scope, find-put, scope-put, Name,
}
use telos_arbitration_fix.Eosio.Names
use telos_arbitration_fix.Eosio.Sums.{sum_of, share_of, sum_of-put, sum_of-remove}
use telos_arbitration_fix.System.{Chain}
use telos_arbitration_fix.System.Limits.{Accounts, DelegatedBandwidth, pay, update_voting_power}
use telos_arbitration_fix.System.Rex.{RexState}
use telos_arbitration_fix.System.Rex.Funds.{vote_stake}
use telos_arbitration_fix.System.Rex.Balances.{update_rex_stake}
use telos_arbitration_fix.System.Rex.Surplus.{received, received-append}
use telos_arbitration_fix.System.Stake.{
  Staking, bandwidth_of, change_delegated, change_totals, change_refund, settle_refund, changebw,
}
use telos_arbitration_fix.System.Refunds.{
  weight, refund_total, custody, transferred, zero_left, zero_right, change_refund-total,
  store_refund-total,
}

share_of_bandwidth :
    (receiver : Name) (t : Table DelegatedBandwidth)
    → share_of weight receiver t
      ≡ (bandwidth_of receiver t).net_weight +ℤ (bandwidth_of receiver t).cpu_weight
share_of_bandwidth receiver t = elim (Option-cases (find receiver t)) [
  | inl h ↦ rw (share_of, bandwidth_of, h) zeros
  | inr (d, h) ↦ rw (share_of, bandwidth_of, h) refl
]
  where
    zeros : pos 0 ≡ pos 0 +ℤ pos 0
    zeros = omega int_laws

-- What the account delegates changes by the deltas.
change_delegated-total :
    (receiver : Name) (net cpu : ℤ) (t u : Table DelegatedBandwidth)
    → change_delegated receiver net cpu t ≡ ok u
    → sum_of weight u ≡ sum_of weight t +ℤ (net +ℤ cpu)
unfolding change_delegated
change_delegated-total receiver net cpu t u e =
    let old = bandwidth_of receiver t in
    let d : DelegatedBandwidth = record {
      net_weight = old.net_weight +ℤ net;
      cpu_weight = old.cpu_weight +ℤ cpu;
    } in
    let stored = put receiver d t in
    let more =
      grown (sum_of weight stored) (sum_of weight t) old.net_weight old.cpu_weight net cpu
        (rw (sym (share_of_bandwidth receiver t)) (sum_of-put weight receiver d t)) in
    elim (Bool-cases (eqb_ℤ d.net_weight (pos 0) && eqb_ℤ d.cpu_weight (pos 0))) [
      | inl h ↦
          let out : u ≡ remove receiver stored = ground (arith, h) in
          let here : find receiver stored ≡ some d =
            ground (arith, find-put receiver receiver d t) in
          rw out (
            less _ _ d.net_weight d.cpu_weight _ (zero_left d.net_weight d.cpu_weight h)
              (zero_right d.net_weight d.cpu_weight h) (sum_of-remove weight receiver stored d here)
              more)
      | inr h ↦ let out : u ≡ stored = ground (arith, h) in rw out more
    ]
  where
    grown : (s t a b x y : ℤ) → s +ℤ (a +ℤ b) ≡ t +ℤ (a +ℤ x +ℤ (b +ℤ y)) → s ≡ t +ℤ (x +ℤ y)
    grown s t a b x y h = omega (int_laws, ap pos_part h, ap neg_part h)

    less : (m s a b t : ℤ) → a ≡ pos 0 → b ≡ pos 0 → m +ℤ (a +ℤ b) ≡ s → s ≡ t → m ≡ t
    less m s a b t e f h k = omega (
      int_laws,
      ap pos_part h,
      ap neg_part h,
      ap pos_part k,
      ap neg_part k,
      ap pos_part e,
      ap neg_part e,
      ap pos_part f,
      ap neg_part f,
    )

-- The transfer of what is left to stake.
abbrev staking : Name → ℤ → RexState → RexState
staking source left x =
    if ltb_ℤ (pos 0) left
    then record x { accounts = pay source Names.eosio_stake left x.accounts }
    else x

sent_to : RexState → ℤ
sent_to x = received Names.eosio_stake x.accounts.sent

staking-transferred :
    (source : Name) (left : ℤ) (x : RexState)
    → (source == Names.eosio_stake) ≡ false
    → pos 0 ≤ℤ left
    → sent_to (staking source left x) ≡ sent_to x +ℤ left
unfolding sent_to received
staking-transferred source left x other enough = elim (Bool-cases (ltb_ℤ (pos 0) left)) [
  | inl h ↦
      rw
        (
          h,
          received-append Names.eosio_stake x.accounts.sent
              (record { from = source; to = Names.eosio_stake; amount = left }),
          other,
        )
        (plain (sent_to x) left)
  | inr h ↦ rw h (none_left (sent_to x) left enough h)
]
  where
    plain : (a b : ℤ) → a +ℤ (b -ℤ pos 0 +ℤ pos 0) ≡ a +ℤ b
    plain a b = omega int_laws

    none_left : (a b : ℤ) → pos 0 ≤ℤ b → ltb_ℤ (pos 0) b ≡ false → a ≡ a +ℤ b
    none_left a b e h = omega (int_laws, at_most b h)
      where
        at_most : (b : ℤ) → ltb_ℤ (pos 0) b ≡ false → b ≤ℤ pos 0
        at_most b h = ground arith

staking-delband :
    (source : Name) (left : ℤ) (x : RexState)
    → (staking source left x).accounts.delband ≡ x.accounts.delband
staking-delband source left x = elim (Bool-cases (ltb_ℤ (pos 0) left)) [
  | inl h ↦ rw h refl
  | inr h ↦ rw h refl
]

-- The deltas go to the refunds or come from a transfer.
settle_refund-total :
    (c : Chain) (source from receiver : Name) (net cpu : ℤ) (transfer : Bool) (s : Staking)
    → (source == Names.eosio_stake) ≡ false
    → (sum_of refund_total (settle_refund c source from receiver net cpu transfer s).refunds
          +ℤ (net +ℤ cpu)
          +ℤ sent_to s.rex
        ≡ sum_of refund_total s.refunds
          +ℤ sent_to (settle_refund c source from receiver net cpu transfer s).rex)
      × ((settle_refund c source from receiver net cpu transfer s).rex.accounts.delband
          ≡ s.rex.accounts.delband)
unfolding settle_refund
settle_refund-total c source from receiver net cpu transfer s other =
    let o = find from s.refunds in
    let (row, net_left, cpu_left) = change_refund c.host.now from net cpu o in
    let (sums, net_enough, cpu_enough) = change_refund-total c.host.now from net cpu o in
    let self = not transfer && from == receiver in
    elim (Bool-cases (self || ltb_ℤ (net +ℤ cpu) (pos 0))) [
      | inl h ↦
          let left = net_left +ℤ cpu_left in
          rw h (
            taken _ _ _ _ (net +ℤ cpu) left _ _ (store_refund-total from row s.refunds) sums (
                staking-transferred source left s.rex other
                  (sum_least net_left cpu_left net_enough cpu_enough)),
            staking-delband source left s.rex,
          )
      | inr h ↦
          let left = net +ℤ cpu in
          rw h (
            given _ left _ _ (staking-transferred source left s.rex other (not_taking self left h)),
            staking-delband source left s.rex,
          )
    ]
  where
    taken :
        (u t o r d l a b : ℤ)
        → u +ℤ o ≡ t +ℤ r
        → r +ℤ d ≡ o +ℤ l
        → b ≡ a +ℤ l
        → u +ℤ d +ℤ a ≡ t +ℤ b
    taken u t o r d l a b h k m = omega (
      int_laws,
      ap pos_part h,
      ap neg_part h,
      ap pos_part k,
      ap neg_part k,
      ap pos_part m,
      ap neg_part m,
    )

    given : (t d a b : ℤ) → b ≡ a +ℤ d → t +ℤ d +ℤ a ≡ t +ℤ b
    given t d a b h = omega (int_laws, ap pos_part h, ap neg_part h)

    sum_least : (a b : ℤ) → pos 0 ≤ℤ a → pos 0 ≤ℤ b → pos 0 ≤ℤ a +ℤ b
    sum_least a b h k = omega int_laws

    not_taking : (b : Bool) (a : ℤ) → (b || ltb_ℤ a (pos 0)) ≡ false → pos 0 ≤ℤ a
    not_taking b a h = ground arith

change_totals-keeps :
    (receiver : Name) (net cpu : ℤ) (a b : Accounts)
    → change_totals receiver net cpu a ≡ ok b
    → (b.delband ≡ a.delband) × (b.sent ≡ a.sent)
unfolding change_totals
change_totals-keeps receiver net cpu a b e = (ground arith, ground arith)

update_rex_stake-keeps :
    (from : Name) (s : RexState)
    → ((update_rex_stake from s).accounts.delband ≡ s.accounts.delband)
      × ((update_rex_stake from s).accounts.sent ≡ s.accounts.sent)
unfolding update_rex_stake
update_rex_stake-keeps from s = (ground arith, ground arith)

-- The vote changes neither stakes nor transfers.
voted-keeps :
    (c : Chain) (from : Name) (x : ℤ) (s s' : RexState)
    → vote_stake c from x (update_rex_stake from s) ≡ ok s'
    → (s'.accounts.delband ≡ s.accounts.delband) × (s'.accounts.sent ≡ s.accounts.sent)
voted-keeps c from x s s' e =
    let t = update_rex_stake from s in
    elim (Result-cases (update_voting_power c from x t.accounts.system)) [
      | inr (m, failed) ↦ absurd (ground (arith, failed))
      | inl (sys, done) ↦
          let a = t.accounts in
          let out : s' ≡ record t { accounts = record a { system = sys } } = ground (arith, done) in
          rw out (update_rex_stake-keeps from s)
    ]

-- A change of bandwidth that succeeds, by an account other than eosio.stake, keeps the tokens of the
-- stakes: what the holder, who is the receiver of a transferred stake, has delegated and what waits
-- as refunds grow together by just what the transfers bring to eosio.stake.
pub changebw-custody :
    (c : Chain) (source receiver : Name) (net cpu : ℤ) (transfer : Bool) (s s' : Staking)
    → (source == Names.eosio_stake) ≡ false
    → changebw c source receiver net cpu transfer s ≡ ok s'
    → custody (if transfer then receiver else source) s' +ℤ transferred s
      ≡ custody (if transfer then receiver else source) s +ℤ transferred s'
unfolding changebw custody transferred sent_to
changebw-custody c source receiver net cpu transfer s s' other e =
    let from = if transfer then receiver else source in
    let a = s.rex.accounts in
    elim (Result-cases (change_delegated receiver net cpu (scope from a.delband))) [
      | inr (m, failed) ↦ absurd (ground (arith, failed))
      | inl (delegated, changed) ↦
          let b : Accounts = record a { delband = put from delegated a.delband } in
          elim (Result-cases (change_totals receiver net cpu b)) [
            | inr (m, failed) ↦ absurd (ground (arith, changed, failed))
            | inl (a₁, totals) ↦
                let x = s.rex in
                let s₁ : Staking = record s { rex = record x { accounts = a₁ } } in
                let s₂ = settle_refund c source from receiver net cpu transfer s₁ in
                elim (Result-cases
                  (vote_stake c from (net +ℤ cpu) (update_rex_stake from s₂.rex))) [
                    | inr (m, failed) ↦ absurd (ground (arith, changed, totals, other, failed))
                    | inl (x₁, voted) ↦
                        let out : s' ≡ record s₂ { rex = x₁ } =
                          ground (arith, changed, totals, other, voted) in
                        let stakes = change_delegated-total receiver net cpu _ delegated changed in
                        let (table, sent) = change_totals-keeps receiver net cpu b a₁ totals in
                        let (table', sent') = voted-keeps c from (net +ℤ cpu) s₂.rex x₁ voted in
                        let (refunds, table'') =
                          settle_refund-total c source from receiver net cpu transfer s₁ other in
                        let rows : scope from x₁.accounts.delband ≡ delegated =
                          ap (λ t. scope from t) (table' ∙ table'' ∙ table)
                          ∙ here from delegated a.delband in
                        let now : sent_to x₁ ≡ sent_to s₂.rex =
                          ap (λ ps. received Names.eosio_stake ps) sent' in
                        let before : sent_to x ≡ sent_to s₁.rex =
                          ap (λ ps. received Names.eosio_stake ps) (sym sent) in
                        rw (out, rows) (level _ _ _ _ _ _ _ _ _ stakes refunds now before)
                  ]
          ]
    ]
  where
    here :
        (k : Name) (u : Table DelegatedBandwidth) (t : Table (Table DelegatedBandwidth))
        → scope k (put k u t) ≡ u
    here k u t = ground (arith, scope-put k k u t)

    level :
        (w v d u t a b a' b' : ℤ)
        → w ≡ v +ℤ d
        → u +ℤ d +ℤ a ≡ t +ℤ b
        → b' ≡ b
        → a' ≡ a
        → w +ℤ u +ℤ a' ≡ v +ℤ t +ℤ b'
    level w v d u t a b a' b' h k l m = omega (
      int_laws,
      ap pos_part h,
      ap neg_part h,
      ap pos_part k,
      ap neg_part k,
      ap pos_part l,
      ap neg_part l,
      ap pos_part m,
      ap neg_part m,
    )
