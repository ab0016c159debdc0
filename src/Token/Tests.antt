-- ===== src/Token/Tests.antt =====
-- Concrete runs of eosio.token, and its theorems at concrete inputs.
use telos_arbitration_fix.Prelude.{ℕ, ◌≡◌, refl, List, [], ◌∷◌}
use telos_arbitration_fix.Prelude.Int.{pos, ◌+ℤ◌, ◌-ℤ◌}
use telos_arbitration_fix.Eosio.{Asset, Host, tlos}
use telos_arbitration_fix.Eosio.Example.{example_host, example_host-IsDocumented}
use telos_arbitration_fix.Token.Types.{CurrencyStats, Ledger}
use telos_arbitration_fix.Token.Actions.{
  create, issue, retire, transfer, sub_balance, add_balance, Action, apply, run, empty,
}
use telos_arbitration_fix.Token.Sound.{IsSound}
use telos_arbitration_fix.Token.Reachable.{AllDocumented, run-empty-IsSound}

abbrev tokens : ℕ → Asset
tokens n = record { amount = pos n; symbol = tlos }

-- A token is created, issued to its issuer 7, paid to 8, and partly retired.
abbrev acts : List (Host × Action)
acts =
    (example_host, Action.creates 7 (tokens 1000))
    ∷ (example_host, Action.issues 7 (tokens 600) "")
    ∷ (example_host, Action.transfers 7 8 (tokens 250) "rent")
    ∷ (example_host, Action.retires (tokens 100) "")
    ∷ []

documented : AllDocumented acts
documented = (
  example_host-IsDocumented,
  (example_host-IsDocumented, (example_host-IsDocumented, (example_host-IsDocumented, tt))),
)

abbrev payer : ℕ
payer = 7

abbrev stats_with : ℕ → CurrencyStats
stats_with n = record { supply = tokens n; max_supply = tokens 1000; issuer = 7 }

abbrev ledger_with : ℕ → ℕ → ℕ → List ℕ → Ledger
ledger_with supply seven eight notified = record {
  stats = (tlos.code, (tlos.code, stats_with supply) ∷ []) ∷ [];
  accounts = (7, (tlos.code, tokens seven) ∷ []) ∷ (8, (tlos.code, tokens eight) ∷ []) ∷ [];
  notified = notified;
}

run_test : run acts empty ≡ ledger_with 500 250 250 (7 ∷ 8 ∷ [])
unfolding run apply create issue retire transfer sub_balance add_balance ◌-ℤ◌ ◌+ℤ◌
run_test = refl

run-empty-IsSound_example : IsSound tlos.code (run acts empty)
run-empty-IsSound_example = run-empty-IsSound tlos.code acts documented
