-- ===== src/System/Tests.antt =====
-- The theorems on the producers of contracts/eosio.system at concrete inputs.
use telos_arbitration_fix.Prelude.{
  ℕ, zero, suc, ◌+◌, ◌-◌, ◌*◌, ◌/◌, ◌%◌, ◌^◌, ◌≤◌, ◌<◌, ◌≡◌, refl, Bool, true, false, none, some,
  List, [], ◌∷◌, ◌==◌, ◌⊎◌, if◌then◌else◌, length, get_elem?, Distinct, arith,
}
use telos_arbitration_fix.Prelude.Int.{ℤ, pos, negsuc, pos_part, ltb_ℤ, ◌+ℤ◌, ◌-ℤ◌}
use telos_arbitration_fix.Eosio.{ok, IsDocumented, Table, rows, Asset, tlos}
use telos_arbitration_fix.Eosio.Names
use telos_arbitration_fix.Eosio.Example.{example_host, example_host-IsDocumented}
use telos_arbitration_fix.Token.Types.{Ledger}
use telos_arbitration_fix.Token.Queries.{get_supply, get_balance}
use telos_arbitration_fix.System.{ProducerInfo, ProducerKey, RotationState, Sent, State, Chain}
use telos_arbitration_fix.System.Producers.{new_producer, kick, bps_voting, votebpout, regproducer}
use telos_arbitration_fix.System.Rotation.{check_rotation_state}
use telos_arbitration_fix.System.Schedule.{names}
use telos_arbitration_fix.System.Swaps.{IsRotation, check_rotation_state-IsRotation}
use telos_arbitration_fix.System.Turns.{check_rotation_state_rotates, check_rotation_state_stays}
use telos_arbitration_fix.System.Doubles.{check_rotation_state_doubles}
use telos_arbitration_fix.System.Penalty.{IsClock, is_ok, votebpout-regproducer}
use telos_arbitration_fix.System.Missed.{update_missed_blocks_per_rotation}
use telos_arbitration_fix.System.Kicked.{
  active_count, update_missed_blocks_per_rotation-active_count,
}
use telos_arbitration_fix.System.Pay.{
  send_positive, to_workers, to_producers, transfer_tokens, send_tokens, distribute, fill_bucket,
  count_active, add_payment, pay_producer, pay_all, pay_shares, claimrewards_snapshot,
}
use telos_arbitration_fix.System.Payments.{total_due}
use telos_arbitration_fix.System.Snapshot.{
  producers_share, claimrewards_snapshot_conserves, claimrewards_snapshot_remainder,
}
use telos_arbitration_fix.System.Overdrawn.{claimrewards_snapshot_overdraws}
use telos_arbitration_fix.System.Proxies.{new_voter}
use telos_arbitration_fix.System.Limits.{
  Accounts, net_managed, cpu_managed, has_field, set_field, is_managed,
}
use telos_arbitration_fix.System.Managed.{set_flag, setacctnet, setacctcpu}
use telos_arbitration_fix.System.Custody.{setacctnet-setacctcpu}
use telos_arbitration_fix.System.Bidding.{
  NameBid, Auctions, add_refund, check_name, outbid, bidname,
}
use telos_arbitration_fix.System.Auction.{owed, bidname-owed}

abbrev pub telos : ℕ → Asset
telos n = record { amount = pos n; symbol = tlos }

-- The tokens of the core symbol, some of them in the reserve.
abbrev ledger : Ledger
ledger = record {
  stats =
      (
        tlos.code,
        (
          tlos.code,
          record { supply = telos 3144960000000; max_supply = telos 9000000000000; issuer = 9 },
        )
            ∷ [],
      )
      ∷ [];
  accounts = (Names.exrsrv_tf, (tlos.code, telos 500) ∷ []) ∷ [];
  notified = [];
}

-- A chain whose doubles are whole numbers, and whose index has the order of the table.
abbrev pub chain : Chain
chain = record {
  host = example_host;
  to_time_point = λ slot. slot * 500000;
  to_slot = λ us. us / 500000;
  active_producers = [];
  set_proposed_producers = λ ks. true;
  by_votes = rows;
  uint32_of_large = 0;
  double_of = pos_part;
  double_mul = λ a b. a * b;
  double_div = λ a b. a / b;
  double_add = λ a b. a + b;
  double_sub = λ a b. a - b;
  double_sin = λ a. a;
  pi = 3;
  half_pi = 1;
  call_depth = 250;
  int64_of = pos;
  core_symbol = tlos;
  ledger = ledger;
}

chain-IsClock : IsClock chain
chain-IsClock = record { advance = λ slot us l. omega arith }

-- Producers with the names from this one on.
abbrev keys_from : ℕ → ℕ → List ProducerKey
keys_from n zero = []
keys_from n (suc count) =
    record { producer_name = n; block_signing_key = n } ∷ keys_from (n + 1) count

abbrev producer : ℕ → Bool → ProducerInfo
producer n active = record (new_producer chain n n "" 0) { is_active = active; unpaid_blocks = 5 }

abbrev rotation : ℕ → RotationState
rotation next = record {
  bp_currently_out = 1;
  sbp_currently_in = 2;
  bp_out_index = 21;
  sbp_in_index = 75;
  next_rotation_time = next;
  last_rotation_time = 0;
}

abbrev pub state : ℕ → Table ProducerInfo → State
state next producers = record {
  voters = [];
  producers = producers;
  gstate = record {
    last_producer_schedule_update = 0;
    last_proposed_schedule_update = 0;
    last_pervote_bucket_fill = 999999000;
    perblock_bucket = pos 101;
    total_unpaid_blocks = 10;
    thresh_activated_stake_time = 1;
    last_producer_schedule_size = 0;
    total_activated_stake = pos 0;
    total_producer_vote_weight = 0;
    last_name_close = 0;
    block_num = 2000;
    last_claimrewards = 0;
  };
  schedule_metrics = record {
    last_onblock_caller = 0;
    block_counter_correction = pos 0;
    producers_metric = [];
  };
  rotation = rotation next;
  payrate = record { bpay_rate = 100000; worker_amount = 0 };
  payments = [];
  proposed = [];
  sent = [];
}

state-IsRotation : IsRotation (state 100 []).rotation
state-IsRotation = record { out_index = omega arith; in_index = omega arith }

keys-Distinct : Distinct (names (keys_from 1 22))
keys-Distinct = (
  refl,
  (
    refl,
    (
      refl,
      (
        refl,
        (
          refl,
          (
            refl,
            (
              refl,
              (
                refl,
                (
                  refl,
                  (
                    refl,
                    (
                      refl,
                      (
                        refl,
                        (
                          refl,
                          (
                            refl,
                            (refl, (refl, (refl, (refl, (refl, (refl, (refl, (refl, tt)))))))),
                          ),
                        ),
                      ),
                    ),
                  ),
                ),
              ),
            ),
          ),
        ),
      ),
    ),
  ),
)

check_rotation_state-IsRotation_example :
    let (top, s) = check_rotation_state chain (keys_from 1 22) 100 (state 100 []) in
    (length top ≡ 21) × Distinct (names top) × IsRotation s.rotation
check_rotation_state-IsRotation_example =
    check_rotation_state-IsRotation chain (keys_from 1 22) 100 (state 100 []) state-IsRotation
      keys-Distinct (omega arith)

check_rotation_state_rotates_example :
    let (top, s) = check_rotation_state chain (keys_from 1 22) 100 (state 100 []) in
    (bp : ProducerKey) × (sbp : ProducerKey) × (s.rotation.bp_out_index < 21)
    × (21 ≤ s.rotation.sbp_in_index)
    × (((21 < 20) × (s.rotation.bp_out_index ≡ 22)) ⊎ ((20 ≤ 21) × (s.rotation.bp_out_index ≡ 0)))
    × (((76 < 22) × (s.rotation.sbp_in_index ≡ 76)) ⊎ ((22 ≤ 76) × (s.rotation.sbp_in_index ≡ 21)))
    × (get_elem? (keys_from 1 22) s.rotation.bp_out_index ≡ some bp)
    × (get_elem? (keys_from 1 22) s.rotation.sbp_in_index ≡ some sbp)
    × (s.rotation.bp_currently_out ≡ bp.producer_name)
    × (s.rotation.sbp_currently_in ≡ sbp.producer_name)
    × ((i : ℕ)
        → i < 21
        → get_elem? top i
          ≡ (if i == s.rotation.bp_out_index then some sbp else get_elem? (keys_from 1 22) i))
check_rotation_state_rotates_example =
    check_rotation_state_rotates chain (keys_from 1 22) 100 (state 100 []) state-IsRotation
      keys-Distinct (omega arith) (omega arith)

check_rotation_state_stays_example :
    check_rotation_state chain
      (keys_from 1 22)
      200
      (check_rotation_state chain (keys_from 1 22) 100 (state 100 [])).1
    ≡ check_rotation_state chain (keys_from 1 22) 100 (state 100 [])
check_rotation_state_stays_example =
    check_rotation_state_stays chain (keys_from 1 22) 100 200 (state 100 []) state-IsRotation
      keys-Distinct refl (omega arith) (omega arith) (omega arith) (omega arith)

check_rotation_state_doubles_example :
    ¬ Distinct (names (check_rotation_state chain (keys_from 1 3) 100 (state 200 [])).0)
check_rotation_state_doubles_example =
    check_rotation_state_doubles chain (keys_from 1 3) 100 (state 200 []) (omega arith)
      (omega arith) refl refl (omega arith) (omega arith) (omega arith)

-- A schedule of producer 1.
abbrev counted : State
counted =
    let s = state 200 ((1, producer 1 true) ∷ []) in
    let m = s.schedule_metrics in
    record s {
      schedule_metrics = record m {
        producers_metric = record { bp_name = 1; missed_blocks_per_cycle = 12 } ∷ [];
      };
    }

update_missed_blocks_per_rotation-active_count_example :
    1 ≤ active_count (update_missed_blocks_per_rotation chain counted).producers + 1 / 7
update_missed_blocks_per_rotation-active_count_example =
    update_missed_blocks_per_rotation-active_count chain counted

abbrev voted_out : State
voted_out = state 200 ((1, kick chain bps_voting 2 (producer 1 true)) ∷ [])

-- The kick is in slot 2000, and ends after slot 16400.
votebpout-regproducer_example : is_ok (regproducer chain 1 7 "" 0 voted_out) ≡ false
unfolding votebpout
votebpout-regproducer_example =
    votebpout-regproducer chain chain 1 2 7 0 "" (state 200 ((1, producer 1 true) ∷ [])) voted_out
      chain-IsClock refl (omega arith)

-- Producers 1 and 2, both active.
abbrev two_active : State
two_active = state 200 ((1, producer 1 true) ∷ (2, producer 2 true) ∷ [])

-- Two active producers with an inactive one between them.
abbrev three : State
three = state 200 ((1, producer 1 true) ∷ (2, producer 2 false) ∷ (3, producer 3 true) ∷ [])

abbrev paid_producer : ℕ → ProducerInfo
paid_producer n = record (producer n true) { last_claim_time = 1000000000; unpaid_blocks = 0 }

-- After a snapshot, which adds 100 tokens of the reserve to the bucket.
abbrev snapshot : State → ℤ → ℕ → ℕ → Table ProducerInfo → State
snapshot s bucket second pay producers =
    let g = s.gstate in
    record s {
      gstate = record g {
        last_pervote_bucket_fill = 1000000000;
        perblock_bucket = bucket;
        total_unpaid_blocks = 0;
      };
      producers = producers;
      payments =
          (1, record { bp = 1; pay = telos pay })
          ∷ (second, record { bp = second; pay = telos pay })
          ∷ [];
      sent =
          Sent.transfer Names.exrsrv_tf Names.eosio_arb (telos 100) "TEDP: Inflation offset"
          ∷ Sent.transfer Names.eosio_arb Names.eosio_bpay (telos 100)
              "Transfer producer share to per-block bucket"
          ∷ [];
    }

abbrev after_two : State
after_two = snapshot two_active (pos 1) 2 100 ((1, paid_producer 1) ∷ (2, paid_producer 2) ∷ [])

abbrev after_three : State
after_three =
    snapshot three (negsuc 198) 3 200
      ((1, paid_producer 1) ∷ (2, producer 2 false) ∷ (3, paid_producer 3) ∷ [])

claimrewards_snapshot_conserves_example :
    after_two.gstate.perblock_bucket +ℤ total_due after_two.payments
    ≡ two_active.gstate.perblock_bucket
      +ℤ total_due two_active.payments
      +ℤ producers_share chain two_active
unfolding claimrewards_snapshot fill_bucket get_supply distribute to_workers to_producers
    get_balance transfer_tokens send_tokens send_positive pay_shares count_active pay_all
    pay_producer add_payment ◌+ℤ◌ ◌-ℤ◌
claimrewards_snapshot_conserves_example =
    claimrewards_snapshot_conserves chain two_active after_two example_host-IsDocumented
      (omega arith) refl

claimrewards_snapshot_remainder_example : after_two.gstate.perblock_bucket ≡ pos (201 % 4)
unfolding claimrewards_snapshot fill_bucket get_supply distribute to_workers to_producers
    get_balance transfer_tokens send_tokens send_positive pay_shares count_active pay_all
    pay_producer add_payment ◌+ℤ◌ ◌-ℤ◌ producers_share
claimrewards_snapshot_remainder_example =
    claimrewards_snapshot_remainder chain two_active after_two 201 example_host-IsDocumented
      (omega arith) refl refl refl

claimrewards_snapshot_overdraws_example : ltb_ℤ after_three.gstate.perblock_bucket (pos 0) ≡ true
unfolding claimrewards_snapshot fill_bucket get_supply distribute to_workers to_producers
    get_balance transfer_tokens send_tokens send_positive pay_shares count_active pay_all
    pay_producer add_payment ◌+ℤ◌ ◌-ℤ◌ producers_share
claimrewards_snapshot_overdraws_example =
    claimrewards_snapshot_overdraws chain three after_three 201 (producer 1 true ∷ [])
      (producer 2 false) (producer 3 true ∷ []) example_host-IsDocumented (omega arith) refl refl
      refl refl refl (omega arith) (omega arith) (omega arith) refl

-- A chain where no account has a name that is bid on.
abbrev bid_chain : Chain
bid_chain = let h = example_host in record chain { host = record h { is_account = λ a. false } }

bid_host-IsDocumented : IsDocumented bid_chain.host
bid_host-IsDocumented =
    let d = example_host-IsDocumented in
    record {
      fresh_key = d.fresh_key;
      make_ok = d.make_ok;
      add_ok = d.add_ok;
      add_total = d.add_total;
      sub_ok = d.sub_ok;
      sub_total = d.sub_total;
    }

abbrev name_bid : ℕ → ℕ → NameBid
name_bid bidder amount = record {
  newname = 512;
  high_bidder = bidder;
  high_bid = pos amount;
  last_bid_time = 1000000000;
}

-- The name 512, on which account 1 bid 100.
abbrev auction : Auctions
auction = record { bids = (512, name_bid 1 100) ∷ []; refunds = []; deferred = []; sent = [] }

-- Account 2 bids 150.
abbrev outbid_auction : Auctions
outbid_auction = record {
  bids = (512, name_bid 2 150) ∷ [];
  refunds = (512, (1, telos 100) ∷ []) ∷ [];
  deferred = (512 * 2 ^ 64 + 1, (1, 512)) ∷ [];
  sent = record { from = 2; to = Names.eosio_names; quantity = telos 150 } ∷ [];
}

bidname-owed_example :
    (owed 512 outbid_auction ≡ owed 512 auction +ℤ pos 150)
    × (outbid_auction.sent ≡ record { from = 2; to = Names.eosio_names; quantity = telos 150 } ∷ [])
unfolding bidname check_name outbid add_refund ◌-ℤ◌ ◌+ℤ◌
bidname-owed_example =
    bidname-owed bid_chain (λ n. n) 2 512 (telos 150) auction outbid_auction bid_host-IsDocumented
      refl

-- An account whose NET and CPU are managed.
abbrev managed : ℕ → Accounts
managed flags = record {
  system = record (state 100 []) { voters = (5, record (new_voter 5) { flags1 = flags }) ∷ [] };
  userres = [];
  delband = [];
  limits = (5, record { ram_bytes = pos 9; net = pos 8; cpu = pos 7 }) ∷ [];
  sent = [];
}

abbrev with_limit : ℕ → ℤ → ℤ → Accounts
with_limit flags n p = record (managed flags) {
  limits = (5, record { ram_bytes = pos 9; net = n; cpu = p }) ∷ [];
}

net_freed : setacctnet chain 5 none (managed 6) ≡ ok (with_limit 6 (pos 0) (pos 7))
unfolding setacctnet is_managed has_field
net_freed = refl

cpu_freed : setacctcpu chain 5 none (managed 6) ≡ ok (with_limit 2 (pos 8) (pos 0))
unfolding setacctcpu is_managed has_field set_flag set_field
cpu_freed = refl

setacctnet-setacctcpu_example :
    (is_managed net_managed 5 (with_limit 6 (pos 0) (pos 7)).system ≡ true)
    × (is_managed cpu_managed 5 (with_limit 2 (pos 8) (pos 0)).system ≡ false)
setacctnet-setacctcpu_example =
    setacctnet-setacctcpu chain 5 (managed 6) (with_limit 6 (pos 0) (pos 7))
      (with_limit 2 (pos 8) (pos 0)) net_freed cpu_freed
