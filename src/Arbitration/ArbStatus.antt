-- ===== src/Arbitration/ArbStatus.antt =====
-- enum arb_status of contracts/eosio.arbitration/include/eosio.arbitration/
-- eosio.arbitration.hpp.
use telos_arbitration_fix.Prelude.{ℕ}

abbrev pub available : ℕ
available = 0

abbrev pub unavailable : ℕ
unavailable = 1

abbrev pub removed : ℕ
removed = 2

abbrev pub seat_expired : ℕ
seat_expired = 3
