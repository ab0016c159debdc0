-- ===== src/Trail/Tokens/Transfers.antt =====
-- What `transfer`, `initsettings` and `claimairgrab` of eosio.trail do to balances and settings.
use telos_arbitration_fix.Prelude.{
  ◌≡◌, ◌≢◌, refl, inl, inr, true, false, Option-cases, none, some, ◌==◌, if◌then◌else◌, arith,
}
use telos_arbitration_fix.Prelude.Int.{ℤ, pos, ◌+ℤ◌, ◌-ℤ◌, ◌≤ℤ◌, ltb_ℤ, leb_ℤ, int_laws}
use telos_arbitration_fix.Eosio.{
  Result-cases, ok, Table, find, insert, modify, put, erase, scope, Name, Symbol, Asset, Host,
  IsDocumented, find-modify, find-insert, scope-put,
}
use telos_arbitration_fix.Trail.Tokens.{TokenSettings, Registry, Balance, Airgrab, Wallets}
use telos_arbitration_fix.Trail.Tokens.Actions.{add_tokens, initsettings, claimairgrab}
use telos_arbitration_fix.Trail.Tokens.Voters.{
  move_tokens, lower_counterbal, raise_counterbal, transfer,
}

-- What an owner has, in the balances of one token.
abbrev pub tokens_in : Name → Table Balance → ℤ
tokens_in o t = elim (find o t) [ none ↦ pos 0 | some b ↦ b.tokens.amount ]

no_more : (a b : ℤ) → leb_ℤ (pos 0) (a -ℤ b) ≡ true → b ≤ℤ a
no_more a b h = grind int_laws

positive : (a z : ℤ) → z ≡ pos 0 → ltb_ℤ z a ≡ true → pos 1 ≤ℤ a
positive a z e h = ground arith

move_tokens_moves :
    (h : Host) (from to o : Name) (q : Asset) (t u : Table Balance)
    → IsDocumented h
    → from ≢ to
    → move_tokens h from to q t ≡ ok u
    → (q.amount ≤ℤ tokens_in from t)
      × (tokens_in o u ≡ (
          if o == from
          then tokens_in o t -ℤ q.amount
          else (if o == to then tokens_in o t +ℤ q.amount else tokens_in o t)))
unfolding move_tokens
move_tokens_moves h from to o q t u d ne e = elim (Option-cases (find from t)) [
  | inl n ↦ ground arith
  | inr (b, n) ↦ elim (Result-cases (h.asset_sub b.tokens q)) [
    | inr (w, p) ↦ ground arith
    | inl (left, p) ↦ elim (Option-cases (find to t)) [
      | inl m ↦ ground arith
      | inr (c, m) ↦ elim (Result-cases (h.asset_add c.tokens q)) [
        | inr (w, r) ↦ ground arith
        | inl (sum, r) ↦ ground (
          arith,
          d.sub_ok b.tokens q left p,
          d.add_ok c.tokens q sum r,
          no_more b.tokens.amount q.amount,
          find-modify o to (λ a. record a { tokens = sum })
              (modify from (λ a. record a { tokens = left }) t),
          find-modify o from (λ a. record a { tokens = left }) t,
        )
      ]
    ]
  ]
]

-- On a host that behaves as documented, a transfer on eosio.trail that succeeds takes a positive
-- amount, which is there in full, from one voter and gives it to another; no third balance of the
-- token changes, and no registry or airgrab.
pub transfer_balances :
    (h : Host) (from to o : Name) (q : Asset) (s s' : Wallets)
    → IsDocumented h
    → transfer h from to q s ≡ ok s'
    → let before = scope q.symbol.code s.balances in
      (from ≢ to)
      × (pos 1 ≤ℤ q.amount)
      × (q.amount ≤ℤ tokens_in from before)
      × (tokens_in o (scope q.symbol.code s'.balances) ≡ (
          if o == from
          then tokens_in o before -ℤ q.amount
          else (if o == to then tokens_in o before +ℤ q.amount else tokens_in o before)))
      × (s'.registries ≡ s.registries)
      × (s'.airgrabs ≡ s.airgrabs)
unfolding transfer
transfer_balances h from to o q s s' d e = elim (Result-cases (h.make_asset (pos 0) q.symbol)) [
  | inr (w, p) ↦ ground arith
  | inl (zero, p) ↦ elim (Option-cases (find q.symbol.code s.registries)) [
    | inl n ↦ ground arith
    | inr (reg, n) ↦
        elim (Result-cases (move_tokens h from to q (scope q.symbol.code s.balances))) [
          | inr (w, r) ↦ ground arith
          | inl (u, r) ↦
              let code = q.symbol.code in
              let rate = reg.settings.counterbal_decay_rate in
              elim (Result-cases (lower_counterbal h rate from q (scope code s.counterbals))) [
                | inr (w, l) ↦ ground arith
                | inl (low, l) ↦ elim (Result-cases (raise_counterbal h rate to q low)) [
                  | inr (w, m) ↦ ground arith
                  | inl (high, m) ↦
                      let out : record s {
                        balances = put code u s.balances;
                        counterbals = put code high s.counterbals;
                      }
                          ≡ s' =
                        ground arith in
                      let apart : from ≢ to = ground arith in
                      let some_of_it : pos 1 ≤ℤ q.amount =
                        positive q.amount zero.amount
                          (ground (arith, d.make_ok (pos 0) q.symbol zero p)) (ground arith) in
                      let (enough, moved) =
                        move_tokens_moves h from to o q (scope code s.balances) u d apart r in
                      rw (← out) (
                        apart,
                        some_of_it,
                        enough,
                        ground (arith, scope-put code code u s.balances, moved),
                        refl,
                        refl,
                      )
                ]
              ]
        ]
  ]
]

-- After the settings of a registry that was not initialised are set with the lock, a further call of
-- `initsettings` for the token fails, by any account and on any host.
pub initsettings_locks :
    (g h : Host) (p r : Name) (sym : Symbol) (new other : TokenSettings) (s s' s'' : Wallets)
    (reg : Registry)
    → find sym.code s.registries ≡ some reg
    → reg.settings.is_initialized ≡ false
    → new.lock_after_initialize ≡ true
    → initsettings g p sym new s ≡ ok s'
    → initsettings h r sym other s' ≢ ok s''
unfolding initsettings
initsettings_locks g h p r sym new other s s' s'' reg found fresh lock done again =
    let init = λ (a : Registry). record a { settings = record new { is_initialized = true } } in
    ground (arith, find-modify sym.code sym.code init s.registries)

-- `claimairgrab` does not ask which token an airgrab is of: a claimant who authorises the call, has
-- an airgrab of a publisher, of any token, in the own name, and has no balance of a registered token
-- of that publisher, claims the airgrab as a balance in the table of the latter.
pub claimairgrab_mixes :
    (h : Host) (claimant publisher : Name) (sym : Symbol) (s : Wallets) (reg : Registry)
    (grab : Airgrab)
    → h.has_auth claimant ≡ true
    → find sym.code s.registries ≡ some reg
    → find claimant (scope reg.publisher s.airgrabs) ≡ some grab
    → grab.recipient ≡ claimant
    → find claimant (scope sym.code s.balances) ≡ none
    → (s' : Wallets) × (claimairgrab h claimant publisher sym s ≡ ok s')
      × (find claimant (scope sym.code s'.balances)
          ≡ some (record { owner = claimant; tokens = grab.tokens }))
unfolding claimairgrab add_tokens
claimairgrab_mixes h claimant publisher sym s reg grab auth found there own none_yet =
    let row : Balance = record { owner = claimant; tokens = grab.tokens } in
    let bals = insert claimant row (scope sym.code s.balances) in
    (
      record s {
        balances = put sym.code bals s.balances;
        airgrabs = put reg.publisher (erase claimant (scope reg.publisher s.airgrabs)) s.airgrabs;
      },
      ground arith,
      ground (
        arith,
        scope-put sym.code sym.code bals s.balances,
        find-insert claimant claimant row (scope sym.code s.balances) none_yet,
      ),
    )
