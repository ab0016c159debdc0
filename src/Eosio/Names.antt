-- ===== src/Eosio/Names.antt =====
-- Account and permission names that the contracts spell out, by their 64-bit values.
use telos_arbitration_fix.Eosio.Platform.{Name}

abbrev pub eosio : Name
eosio = 6138663577826885632

abbrev pub eosio_trail : Name
eosio_trail = 6138663591637918208

abbrev pub eosio_arb : Name
eosio_arb = 6138663581437657088

abbrev pub eosio_token : Name
eosio_token = 6138663591592764928

abbrev pub active : Name
active = 3617214756542218240

abbrev pub major : Name
major = 10493188669924442112

abbrev pub assign : Name
assign = 3904874091022123008

abbrev pub owner : Name
owner = 12044502819693133824

-- bpay_account, tedp_account and works_account of eosio.system.
abbrev pub eosio_bpay : Name
eosio_bpay = 6138663581940940800

abbrev pub exrsrv_tf : Name
exrsrv_tf = 6300408249868353536

abbrev pub works_decide : Name
works_decide = 16514431557734470304

-- names_account of eosio.system.
abbrev pub eosio_names : Name
eosio_names = 6138663588137709568

-- rex_account, stake_account, ram_account and ramfee_account of eosio.system, and b1.
abbrev pub eosio_rex : Name
eosio_rex = 6138663590357893120

abbrev pub eosio_stake : Name
eosio_stake = 6138663591134630912

abbrev pub eosio_ram : Name
eosio_ram = 6138663590285017088

abbrev pub eosio_ramfee : Name
eosio_ramfee = 6138663590285202592

abbrev pub b1 : Name
b1 = 4053239664633446400
