-- ===== src/Arbitration/CaseState.antt =====
-- enum case_state of contracts/eosio.arbitration/include/eosio.arbitration/
-- eosio.arbitration.hpp.
use telos_arbitration_fix.Prelude.{ℕ}

abbrev pub case_setup : ℕ
case_setup = 0

abbrev pub awaiting_arbs : ℕ
awaiting_arbs = 1

abbrev pub case_investigation : ℕ
case_investigation = 2

abbrev pub hearing : ℕ
hearing = 3

abbrev pub deliberation : ℕ
deliberation = 4

abbrev pub decision : ℕ
decision = 5

abbrev pub enforcement : ℕ
enforcement = 6

abbrev pub resolved : ℕ
resolved = 7

abbrev pub dismissed : ℕ
dismissed = 8
