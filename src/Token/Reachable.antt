-- ===== src/Token/Reachable.antt =====
-- The other actions of eosio.token keep the books, and so does every run of them.
use telos_arbitration_fix.Prelude.{
  ℕ, ◌≡◌, refl, sym, ap, ◌∙◌, inl, inr, true, Option-cases, List, [], ◌∷◌, ◌++◌, String, arith,
}
use telos_arbitration_fix.Prelude.Int.{ℤ, pos, ◌+ℤ◌, ◌-ℤ◌, ◌≤ℤ◌, ltb_ℤ, int_laws}
use telos_arbitration_fix.Eosio.{
  Result, Result-cases, ok, err, Table, find, insert, erase, put, scope, Name, Symbol, Asset, Host,
  IsDocumented, find-insert, find-erase,
}
use telos_arbitration_fix.Eosio.Accounts.{balance_of, total}
use telos_arbitration_fix.Token.Types.{Ledger}
use telos_arbitration_fix.Token.Supply.{
  share, put-Moved, add_balance-Moved, sub_balance-Moved, add_zero,
}
use telos_arbitration_fix.Token.Actions.{
  find_stats, put_stats, sub_balance, add_balance, retire, transfer, open_account, close_account,
  Action, creates, issues, retires, transfers, opens, closes, apply, commit, run, empty,
}
use telos_arbitration_fix.Token.Sound.{
  Nonneg, nonneg, IsSound, Moved-Nonneg, balance_nonneg, find_put_stats, share_nonneg, sum_nonneg,
  difference_nonneg, below_cap, minus_zero, sub_as_add, create-IsSound, issue-IsSound,
}

-- What `sub_balance` took was there.
taken_nonneg :
    (code owner : ℕ) (q : Asset) (t : Table (Table Asset))
    → Nonneg code t
    → q.amount ≤ℤ balance_of t owner q.symbol.code
    → pos 0 ≤ℤ balance_of t owner code +ℤ (pos 0 -ℤ share code q)
taken_nonneg code owner q t n le =
    ground
      (arith, balance_nonneg n owner, difference_nonneg (balance_of t owner code) (share code q))

there_and_back : (a b : ℤ) → a +ℤ (pos 0 -ℤ b) +ℤ b ≡ a
there_and_back a b = omega int_laws

module _ (code : ℕ) (h : Host) (d : IsDocumented h) (s s' : Ledger) (v : IsSound code s) where
  retire-IsSound : (q : Asset) (m : String) → retire h q m s ≡ ok s' → IsSound code s'
  unfolding retire
  retire-IsSound q m e =
      let k = q.symbol.code in
      elim (Option-cases (find_stats k s)) [
        | inl n ↦ ground arith
        | inr (st, n) ↦ elim (Result-cases (h.asset_sub st.supply q)) [
          | inr (w, p) ↦ ground arith
          | inl (supply, p) ↦ elim (Result-cases (sub_balance h st.issuer q s.accounts)) [
            | inr (w, r) ↦ ground arith
            | inl (u, r) ↦
                let st' = record st { supply = supply } in
                let out : record (put_stats k st' s) { accounts = u } ≡ s' = ground arith in
                let (moved, le) = sub_balance-Moved h st.issuer code q s.accounts u d r in
                let stats = find_put_stats code k st' st s n in
                let positive : ltb_ℤ (pos 0) q.amount ≡ true = ground arith in
                rw (← out) (record {
                  backed = ground (
                    arith,
                    v.backed,
                    stats,
                    moved.sum,
                    d.sub_ok st.supply q supply p,
                    minus_zero (total code s.accounts),
                    sub_as_add st.supply.amount q.amount,
                  );
                  covered =
                      Moved-Nonneg code st.issuer (pos 0 -ℤ share code q) s.accounts u moved
                        (taken_nonneg code st.issuer q s.accounts v.covered le) v.covered;
                  capped = ground (
                    arith,
                    v.capped,
                    stats,
                    d.sub_ok st.supply q supply p,
                    below_cap st.supply.amount st.max_supply.amount q.amount,
                    share_nonneg k q positive,
                  );
                })
          ]
        ]
      ]

  transfer-IsSound :
      (from to : Name) (q : Asset) (m : String) → transfer h from to q m s ≡ ok s' → IsSound code s'
  unfolding transfer
  transfer-IsSound from to q m e = elim (Option-cases (find_stats q.symbol.code s)) [
    | inl n ↦ ground arith
    | inr (st, n) ↦ elim (Result-cases (sub_balance h from q s.accounts)) [
      | inr (w, p) ↦ ground arith
      | inl (t, p) ↦ elim (Result-cases (add_balance h to q t)) [
        | inr (w, r) ↦ ground arith
        | inl (u, r) ↦
            let out : record s { accounts = u; notified = s.notified ++ from ∷ to ∷ [] } ≡ s' =
              ground arith in
            let (left, le) = sub_balance-Moved h from code q s.accounts t d p in
            let came = add_balance-Moved h to code q t u d r in
            let positive : ltb_ℤ (pos 0) q.amount ≡ true = ground arith in
            let middle =
              Moved-Nonneg code from (pos 0 -ℤ share code q) s.accounts t left
                (taken_nonneg code from q s.accounts v.covered le) v.covered in
            rw (← out) (record {
              backed =
                  v.backed
                  ∙ sym (
                      came.sum
                      ∙ ap (λ a. a +ℤ share code q) left.sum
                      ∙ there_and_back (total code s.accounts) (share code q));
              covered =
                  Moved-Nonneg code to (share code q) t u came
                    (sum_nonneg _ _ (balance_nonneg middle to) (share_nonneg code q positive))
                    middle;
              capped = v.capped;
            })
      ]
    ]
  ]

  open_account-IsSound :
      (o : Name) (y : Symbol) (p : Name) → open_account h o y p s ≡ ok s' → IsSound code s'
  unfolding open_account balance_of
  open_account-IsSound o y p e = elim (Option-cases (find y.code (scope o s.accounts))) [
    | inr (b, n) ↦ let same : s ≡ s' = ground arith in rw (← same) v
    | inl n ↦
        let zero : Asset = record { amount = pos 0; symbol = y } in
        let placed = insert y.code zero (scope o s.accounts) in
        let out : record s { accounts = put o placed s.accounts } ≡ s' = ground arith in
        let moved = put-Moved code o placed s.accounts (pos 0) (
          ground (
            arith,
            find-insert code y.code zero (scope o s.accounts) n,
            add_zero (balance_of s.accounts o code),
          )) in
        rw (← out) (record {
          backed = v.backed ∙ sym (moved.sum ∙ add_zero (total code s.accounts));
          covered =
              Moved-Nonneg code o (pos 0) s.accounts (put o placed s.accounts) moved
                (rw add_zero (balance_nonneg v.covered o)) v.covered;
          capped = v.capped;
        })
  ]

  close_account-IsSound : (o : Name) (y : Symbol) → close_account h o y s ≡ ok s' → IsSound code s'
  unfolding close_account balance_of
  close_account-IsSound o y e = elim (Option-cases (find y.code (scope o s.accounts))) [
    | inl n ↦ ground arith
    | inr (b, n) ↦
        let placed = erase y.code (scope o s.accounts) in
        let out : record s { accounts = put o placed s.accounts } ≡ s' = ground arith in
        let moved = put-Moved code o placed s.accounts (pos 0) (
          ground (
            arith,
            find-erase code y.code (scope o s.accounts),
            add_zero (balance_of s.accounts o code),
          )) in
        rw (← out) (record {
          backed = v.backed ∙ sym (moved.sum ∙ add_zero (total code s.accounts));
          covered =
              Moved-Nonneg code o (pos 0) s.accounts (put o placed s.accounts) moved
                (rw add_zero (balance_nonneg v.covered o)) v.covered;
          capped = v.capped;
        })
  ]

-- Every action of eosio.token that succeeds keeps the books of every token.
pub apply-IsSound :
    (code : ℕ) (h : Host) (a : Action) (s s' : Ledger)
    → IsDocumented h
    → IsSound code s
    → apply h a s ≡ ok s'
    → IsSound code s'
unfolding apply
apply-IsSound code h (creates i m) s s' d v e = create-IsSound code h d s s' v i m e
apply-IsSound code h (issues t q m) s s' d v e = issue-IsSound code h d s s' v t q m e
apply-IsSound code h (retires q m) s s' d v e = retire-IsSound code h d s s' v q m e
apply-IsSound code h (transfers f t q m) s s' d v e = transfer-IsSound code h d s s' v f t q m e
apply-IsSound code h (opens o y p) s s' d v e = open_account-IsSound code h d s s' v o y p e
apply-IsSound code h (closes o y) s s' d v e = close_account-IsSound code h d s s' v o y e

-- Each host of a run behaves as documented.
abbrev pub AllDocumented : List (Host × Action) → Type 0
AllDocumented [] = Unit
AllDocumented ((h, _) ∷ rest) = IsDocumented h × AllDocumented rest

commit-IsSound :
    (code : ℕ) (h : Host) (a : Action) (s : Ledger) (r : Result Ledger)
    → IsDocumented h
    → IsSound code s
    → apply h a s ≡ r
    → IsSound code (commit s r)
commit-IsSound code h a s (ok s') d v e = apply-IsSound code h a s s' d v e
commit-IsSound code h a s (err _) d v e = v

run-IsSound :
    (code : ℕ) (acts : List (Host × Action)) (s : Ledger)
    → AllDocumented acts
    → IsSound code s
    → IsSound code (run acts s)
unfolding run
run-IsSound code [] s d v = v
run-IsSound code ((h, a) ∷ rest) s (d, ds) v =
    run-IsSound code rest _ ds (commit-IsSound code h a s (apply h a s) d v refl)

empty-IsSound : (code : ℕ) → IsSound code empty
unfolding total balance_of
empty-IsSound code = record { backed = refl; covered = nonneg (λ o. omega arith); capped = tt }

-- After any run of eosio.token from its empty tables, on hosts that behave as documented, the supply
-- of every token is the sum of its balances, no balance is negative, and the supply is at most the
-- maximum supply.
pub run-empty-IsSound :
    (code : ℕ) (acts : List (Host × Action)) → AllDocumented acts → IsSound code (run acts empty)
run-empty-IsSound code acts d = run-IsSound code acts empty d (empty-IsSound code)
