-- ===== src/Arbitration/Balances.antt =====
-- The balances that the contract keeps for its users: `add_balance`, `sub_balance` and the actions
-- that use them, on an amount by owner and token.
use telos_arbitration_fix.Prelude.{
  ℕ, ◌≡◌, ◌≢◌, inl, inr, true, Option-cases, some, [], ◌∷◌, ◌++◌, ◌==◌, ◌&&◌, if◌then◌else◌,
  get_elem?, arith,
}
use telos_arbitration_fix.Prelude.Int.{ℤ, pos, ◌+ℤ◌, ◌-ℤ◌, ◌≤ℤ◌, is_zero, int_laws}
use telos_arbitration_fix.Eosio.{
  Result-cases, ok, Table, find, insert, modify, erase, scope, Name, Asset, Host, IsDocumented,
  tlos, find-insert, find-modify, find-erase, find-put,
}
use telos_arbitration_fix.Eosio.Accounts.{balance_of}
use telos_arbitration_fix.Arbitration.Types.{Casefile, Sent, State}
use telos_arbitration_fix.Arbitration.Helpers.{sub_balance, add_balance}
use telos_arbitration_fix.Arbitration.CaseSetup.{withdraw, readycase, transfer_handler}

-- `add_balance` adds the value to one balance and leaves the others alone.
pub balance_of-add_balance :
    (h : Host) (owner o : Name) (code : ℕ) (value : Asset) (t u : Table (Table Asset))
    → IsDocumented h
    → add_balance h owner value t ≡ ok u
    → balance_of u o code ≡ (
        if owner == o && value.symbol.code == code
        then balance_of t o code +ℤ value.amount
        else balance_of t o code)
unfolding add_balance balance_of
balance_of-add_balance h owner o code value t u d e =
    elim (Option-cases (find value.symbol.code (scope owner t))) [
      | inl n ↦ ground (
        arith,
        find-put o owner (insert value.symbol.code value (scope owner t)) t,
        find-insert code value.symbol.code value (scope owner t),
        zero_add value.amount,
      )
      | inr (b, n) ↦ elim (Result-cases (h.asset_add b value)) [
        | inl (c, p) ↦ ground (
          arith,
          d.add_ok b value c p,
          find-put o owner (modify value.symbol.code (λ _. c) (scope owner t)) t,
          find-modify code value.symbol.code (λ _. c) (scope owner t),
        )
        | inr (m, p) ↦ ground arith
      ]
    ]
  where
    zero_add : (a : ℤ) → pos 0 +ℤ a ≡ a
    zero_add a = omega int_laws

is_zero_iff : (a : ℤ) → is_zero a ≡ true → a ≡ pos 0
is_zero_iff a e = ground arith

-- `sub_balance` takes the value, which is there in full, from one balance and leaves the others
-- alone.
pub balance_of-sub_balance :
    (h : Host) (owner o : Name) (code : ℕ) (value : Asset) (t u : Table (Table Asset))
    → IsDocumented h
    → sub_balance h owner value t ≡ ok u
    → (value.amount ≤ℤ balance_of t owner value.symbol.code)
      × (balance_of u o code ≡ (
          if owner == o && value.symbol.code == code
          then balance_of t o code -ℤ value.amount
          else balance_of t o code))
unfolding sub_balance balance_of
balance_of-sub_balance h owner o code value t u d e =
    elim (Option-cases (find value.symbol.code (scope owner t))) [
      | inl n ↦ ground arith
      | inr (b, n) ↦ elim (Result-cases (h.asset_sub b value)) [
        | inl (c, p) ↦ ground (
          arith,
          d.sub_ok b value c p,
          is_zero_iff c.amount,
          find-put o owner (modify value.symbol.code (λ _. c) (scope owner t)) t,
          find-modify code value.symbol.code (λ _. c) (scope owner t),
          find-put o owner (erase value.symbol.code (scope owner t)) t,
          find-erase code value.symbol.code (scope owner t),
        )
        | inr (m, p) ↦ ground arith
      ]
    ]

-- On a documented host, a payment that another account makes to the contract and the handler
-- accepts is in TLOS and adds its amount to the TLOS balance of the payer, and to no other
-- balance.
pub transfer_handler_credits :
    (h : Host) (from to o : Name) (code : ℕ) (q : Asset) (s s' : State)
    → IsDocumented h
    → from ≢ h.self
    → transfer_handler h from to q s ≡ ok s'
    → (to ≡ h.self)
      × (q.symbol ≡ tlos)
      × (balance_of s'.accounts o code ≡ (
          if from == o && tlos.code == code
          then balance_of s.accounts o code +ℤ q.amount
          else balance_of s.accounts o code))
unfolding transfer_handler
transfer_handler_credits h from to o code q s s' d ne e =
    elim (Result-cases (add_balance h from q s.accounts)) [
      | inl (u, p) ↦ ground (arith, balance_of-add_balance h from o code q s.accounts u d p)
      | inr (m, p) ↦ ground arith
    ]

-- `withdraw` sends the owner's whole TLOS balance to the owner, and leaves none; the other balances
-- stay.
pub withdraw_pays :
    (h : Host) (owner o : Name) (code : ℕ) (s s' : State)
    → withdraw h owner s ≡ ok s'
    → (paid : Asset) × (s'.sent
        ≡ s.sent ++ Sent.transfer h.self owner paid "eosio.arb withdrawal" ∷ [])
      × (paid.amount ≡ balance_of s.accounts owner tlos.code)
      × (balance_of s'.accounts o code
          ≡ (if owner == o && tlos.code == code then pos 0 else balance_of s.accounts o code))
unfolding withdraw balance_of
withdraw_pays h owner o code s s' e =
    elim (Option-cases (find tlos.code (scope owner s.accounts))) [
      | inl n ↦ ground arith
      | inr (b, n) ↦ (
        b,
        ground arith,
        ground arith,
        ground (
          arith,
          find-put o owner (erase tlos.code (scope owner s.accounts)) s.accounts,
          find-erase code tlos.code (scope owner s.accounts),
        ),
      )
    ]

-- On a documented host, `readycase` moves a case of its claimant from CASE_SETUP to AWAITING_ARBS
-- and charges the claimant the initial fee, which the balance covers; no other balance changes.
pub readycase_charges :
    (h : Host) (id : ℕ) (claimant o : Name) (code : ℕ) (s s' : State)
    → IsDocumented h
    → readycase h id claimant s ≡ ok s'
    → (cf : Casefile) × (fee : ℤ) × (find id s.casefiles ≡ some cf)
      × (cf.claimant ≡ claimant)
      × (cf.case_status ≡ 0)
      × (find id s'.casefiles ≡ some (record cf { case_status = 1; last_edit = h.now }))
      × (get_elem? s.config.fee_structure 0 ≡ some fee)
      × (fee ≤ℤ balance_of s.accounts claimant tlos.code)
      × (balance_of s'.accounts o code ≡ (
          if claimant == o && tlos.code == code
          then balance_of s.accounts o code -ℤ fee
          else balance_of s.accounts o code))
unfolding readycase
readycase_charges h id claimant o code s s' d e = elim (Option-cases (find id s.casefiles)) [
  | inl n ↦ ground arith
  | inr (cf, n) ↦ elim (Option-cases (get_elem? s.config.fee_structure 0)) [
    | inl m ↦ ground arith
    | inr (fee, m) ↦ elim (Result-cases (h.make_asset fee tlos)) [
      | inr (w, q) ↦ ground arith
      | inl (charge, q) ↦ elim (Result-cases (sub_balance h claimant charge s.accounts)) [
        | inr (w, r) ↦ ground arith
        | inl (u, r) ↦
            let moved = balance_of-sub_balance h claimant o code charge s.accounts u d r in
            let made = d.make_ok fee tlos charge q in
            let ready = λ (row : Casefile). record row { case_status = 1; last_edit = h.now } in
            (
              cf,
              fee,
              n,
              ground arith,
              ground arith,
              ground (arith, find-modify id id ready s.casefiles),
              m,
              ground (arith, moved, made),
              ground (arith, moved, made),
            )
      ]
    ]
  ]
]
