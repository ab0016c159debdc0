-- ===== src/Trail/Tokens/Tests.antt =====
-- The theorems on eosio.trail's tokens at concrete inputs.
use telos_arbitration_fix.Prelude.{ℕ, ◌≡◌, ◌≢◌, refl, true, some, [], ◌∷◌}
use telos_arbitration_fix.Prelude.Int.{pos, ◌+ℤ◌, ◌-ℤ◌, ◌≤ℤ◌}
use telos_arbitration_fix.Eosio.{ok, find, scope, Asset, tlos, vote}
use telos_arbitration_fix.Eosio.Example.{example_host, example_host-IsDocumented}
use telos_arbitration_fix.Trail.Tokens.{TokenSettings, Registry, Airgrab, Wallets}
use telos_arbitration_fix.Trail.Tokens.Actions.{default_settings, claimairgrab}
use telos_arbitration_fix.Trail.Tokens.Voters.{
  move_tokens, lower_counterbal, raise_counterbal, transfer,
}
use telos_arbitration_fix.Trail.Tokens.Transfers.{tokens_in, transfer_balances, claimairgrab_mixes}
use telos_arbitration_fix.Trail.Tokens.Actions.{seizebygroup, seize_group, seize_from}
use telos_arbitration_fix.Trail.Tokens.Seizure.{total_tokens, seizebygroup_conserves}

abbrev votes : ℕ → Asset
votes n = record { amount = pos n; symbol = vote }

abbrev registry_with : TokenSettings → Registry
registry_with settings = record {
  max_supply = votes 1000;
  supply = votes 100;
  total_voters = 2;
  total_proxies = 0;
  publisher = 9;
  info_url = "";
  settings = settings;
}

abbrev open_settings : TokenSettings
open_settings = record default_settings { is_transferable = true }

-- Voters 1 and 2 of the token VOTE, whose publisher is 9.
abbrev wallets_with : TokenSettings → ℕ → ℕ → Wallets
wallets_with settings one two = record {
  registries = (vote.code, registry_with settings) ∷ [];
  balances =
      (
        vote.code,
        (1, record { owner = 1; tokens = votes one })
            ∷ (2, record { owner = 2; tokens = votes two })
            ∷ [],
      )
      ∷ [];
  airgrabs = [];
  counterbals = [];
}

abbrev voter_one : ℕ
voter_one = 1

abbrev after_transfer : Wallets
after_transfer = record (wallets_with open_settings 30 70) {
  counterbals =
      (
        vote.code,
        (
          1,
          record { owner = 1; decayable_cb = votes 0; persistent_cb = votes 0; last_decay = 1000 },
        )
            ∷ (
              2,
              record {
                owner = 2;
                decayable_cb = votes 30;
                persistent_cb = votes 0;
                last_decay = 1000;
              },
            )
            ∷ [],
      )
      ∷ [];
}

transfer_balances_example :
    (voter_one ≢ 2)
    × (pos 1 ≤ℤ pos 30)
    × (pos 30 ≤ℤ tokens_in 1 (scope vote.code (wallets_with open_settings 60 40).balances))
    × (tokens_in 2 (scope vote.code after_transfer.balances)
        ≡ tokens_in 2 (scope vote.code (wallets_with open_settings 60 40).balances) +ℤ pos 30)
    × (after_transfer.registries ≡ (wallets_with open_settings 60 40).registries)
    × (after_transfer.airgrabs ≡ [])
unfolding transfer move_tokens lower_counterbal raise_counterbal ◌-ℤ◌ ◌+ℤ◌
transfer_balances_example =
    transfer_balances example_host voter_one 2 2 (votes 30) (wallets_with open_settings 60 40)
      after_transfer example_host-IsDocumented refl

-- Account 3 has an airgrab of another token of the publisher 9.
abbrev foreign : Airgrab
foreign = record { recipient = 3; tokens = record { amount = pos 500; symbol = tlos } }

abbrev with_airgrab : Wallets
with_airgrab = record (wallets_with open_settings 60 40) { airgrabs = (9, (3, foreign) ∷ []) ∷ [] }

claimairgrab_mixes_example :
    (s' : Wallets) × (claimairgrab example_host 3 9 vote with_airgrab ≡ ok s')
    × (find 3 (scope vote.code s'.balances) ≡ some (record { owner = 3; tokens = foreign.tokens }))
claimairgrab_mixes_example =
    claimairgrab_mixes example_host 3 9 vote with_airgrab (registry_with open_settings) foreign refl
      refl refl refl refl

abbrev seizable_settings : TokenSettings
seizable_settings = record default_settings { is_seizable = true }

-- Voter 9 is the publisher.
abbrev seized_from : ℕ → ℕ → ℕ → Wallets
seized_from one two nine = record (wallets_with seizable_settings one two) {
  balances =
      (
        vote.code,
        (1, record { owner = 1; tokens = votes one })
            ∷ (2, record { owner = 2; tokens = votes two })
            ∷ (9, record { owner = 9; tokens = votes nine })
            ∷ [],
      )
      ∷ [];
}

seizebygroup_conserves_example :
    (reg : Registry) × (find vote.code (seized_from 60 30 10).registries ≡ some reg)
    × (reg.publisher ≡ 9)
    × (reg.settings.is_seizable ≡ true)
    × (total_tokens (scope vote.code (seized_from 40 20 40).balances)
        ≡ total_tokens (scope vote.code (seized_from 60 30 10).balances))
    × ((seized_from 40 20 40).registries ≡ (seized_from 60 30 10).registries)
    × ((seized_from 40 20 40).airgrabs ≡ [])
unfolding seizebygroup seize_group seize_from ◌-ℤ◌ ◌+ℤ◌
seizebygroup_conserves_example =
    seizebygroup_conserves example_host 9 (1 ∷ 2 ∷ 1 ∷ []) (votes 10) (seized_from 60 30 10)
      (seized_from 40 20 40) example_host-IsDocumented refl
