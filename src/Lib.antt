-- ===== src/Lib.antt =====
-- Contracts of the Telos chain: arbitration, tokens, multi-signature proposals, voting, and the
-- producers of its blocks.
--
-- The program. contracts/eosio.arbitration runs the arbitration of the chain. Arbitrators are elected
-- on leaderboards of contracts/eosio.trail, to which the contract sends inline actions and whose
-- tables it reads; claimants file cases, deposit TLOS tokens of contracts/eosio.token for the fee, and
-- arbitrators take a case through its statuses and rule on its claims. contracts/eosio.msig collects
-- approvals of proposed transactions and executes them. contracts/eosio.system chooses the schedule of
-- block producers from their votes, rotates one of them with a standby, counts missed blocks, kicks
-- producers, and pays them with tokens of contracts/eosio.token.
--
-- The files.
--   * Prelude: shared names, lists over the native numbers, and integers.
--   * Eosio: what the contracts use of their development kit. Outcome has the result of an action
--     that may fail a check; MultiIndex has the tables, as lists of rows in the order of
--     their keys, and scoped tables as tables of tables; Platform has names, symbols, assets and the
--     Host; Accounts has balances by owner and token; Sums adds up a table; Example is a Host for the
--     examples.
--   * Arbitration: contracts/eosio.arbitration/src/eosio.arbitration.cpp and its header. Types,
--     CaseState and ArbStatus have the tables and enums; Helpers the helper functions; Elections and
--     Endelection the region Arb_Elections; CaseSetup and CaseProgress the regions of these names;
--     ArbActions the regions Arb_Actions and BP_Multisig_Actions; Dispatch the actions as one type and
--     runs of them; Delivery carries out on the model of eosio.trail what the contract sends to it, in
--     order and at the time of the sender. Each function has the name of the code's. Cases.Spec is an
--     abstract description of the steps that a table of cases may take; the other modules hold proofs,
--     and Tests examples.
--   * Trail.Voting: the tables of contracts/eosio.trail/include/trail.voting.hpp.
--   * Token: contracts/eosio.token/src/eosio.token.cpp, with `open` and `close` as open_account and
--     close_account, and the two reads get_supply and get_balance of its header in Queries.
--   * Msig: contracts/eosio.msig/src/eosio.msig.cpp.
--   * Trail.Tokens: the tables of contracts/eosio.trail/include/trail.tokens.hpp, and of
--     contracts/eosio.trail/src/eosio.trail.cpp the regions Token_Registration and Token_Actions
--     (Actions, with `transfer` in Voters) and Voter_Registration (Voters).
--   * Trail.Polls: ballots, candidates and votes of contracts/eosio.trail. Registration, Candidates,
--     Closing and Votes have the actions of these regions with their helpers, Mirror has mirrorcast
--     and the handler of TLOS transfers; Tally, Counted and Recast hold proofs.
--
--   * System: the tables of contracts/eosio.system/include/eosio.system/eosio.system.hpp that concern
--     producers. Rotation is contracts/eosio.system/src/system_rotation.cpp but for
--     update_missed_blocks_per_rotation, which is in Missed; Kicking is
--     contracts/eosio.system/src/system_kick.cpp; Elected and Producers have functions of
--     contracts/eosio.system/src/voting.cpp, the latter with `kick` of the header and two actions of
--     contracts/eosio.system/src/eosio.system.cpp; Pay is
--     contracts/eosio.system/src/producer_pay.cpp without onblock; Bidding is
--     contracts/eosio.system/src/name_bidding.cpp; Voting and Proxies have the votes of
--     contracts/eosio.system/src/voting.cpp; Stake is
--     contracts/eosio.system/src/delegate_bandwidth.cpp without the market of RAM, and Managed the
--     limits that contracts/eosio.system/src/eosio.system.cpp sets; Limits has what they share with
--     the exchange; Floats orders doubles by their bits. The other modules hold proofs.
--   * System.Rex: the resource exchange, contracts/eosio.system/src/rex.cpp. Pool has the pool and the
--     price of loans, Funds the funds of owners, Buckets the REX of an owner by its maturity, Balances
--     the purchase of REX, Orders the sales, Loans the loans and runrex, Actions and Holders the
--     actions, with rentcpu and rentnet, and the like, as one action over the resource. Surplus
--     measures what the account eosio.rex received against what it owes; Settled to Solvent prove that
--     actions keep it; Totals, Drained, Savings and Price are on the buckets and the price.
--
-- The model. A state is a record of the contract's tables and, for inline actions, of the actions
-- sent so far. An action is a function from a state to a Result: `check` becomes an error, and an
-- action that fails leaves the state as it was. Unsigned integers of the code are natural numbers
-- with their wrap-around written out where the code computes with them, amounts are integers.
--
-- What is not under contracts is a parameter. The record Host holds what the development kit and the
-- chain answer: authorisations, the time, accounts, free primary keys, and the arithmetic of assets,
-- which checks symbols and the range of amounts. IsDocumented states the documented behaviour that
-- theorems rely on: a free key is free, and asset operations succeed just on equal symbols and amounts
-- in range, with the expected amount. MsigHost adds what concerns packed transactions,
-- and Chain what eosio.system reads: conversions of time, of which IsClock states that a slot has half
-- a second, the schedule in force, the answer to a proposed one, the order of the index by votes, and
-- the arithmetic of doubles. OtherTables holds the balances and stakes that mirrorcast reads. Reading an
-- empty std::optional yields the field `uninitialised`, about which nothing is assumed.
--
-- Readings. Votes of one leaderboard have one symbol and compare by amount. `deletecase` reads claim
-- ids through a reference to the row that it has erased; the model reads the row's. `readycase`
-- indexes the fees without a check; the model fails on an empty list. `std::sort` is a stable
-- insertion sort, and the theorem on ties holds of any order among equals. `val` of
-- `get_decay_amount`, an int, is taken not to overflow, which it does for symbols of precision 10
-- and more. The nominee that endelection sends with addcandidate begins with its name, which is what
-- the receiver reads.
--
-- Not modelled: payers of RAM, printed output, error texts that contain numbers, the table of
-- joinders, which no action uses, what no action of contracts/eosio.trail calls (make_election,
-- delete_election, close_election), and of contracts/eosio.system onblock and setpayrates, the market
-- of RAM, the creation of accounts, and settings that only call the chain. Of the exchange the amounts
-- are integers without the bounds of an int64_t; products of uint128_t wrap, and the narrowing of
-- their quotients to an int64_t is left out. The sums of stakes in changebw are integers without the
-- checks of an asset's range, so the model accepts what the code may refuse.
--
-- The threshold of missed blocks compares 20 times the missed blocks with 3 times the most that a
-- producer can make, where the code multiplies the latter by the double 0.15, which rounds to the same
-- order. int64_t sums of the bucket are integers, far below their range.
--
-- Loops are structural recursion over lists or over the count that bounds them, such as the `max` of
-- runrex. Two functions run on fuel. The propagation of a vote to the proxy of a proxy calls itself,
-- and its fuel is the depth of calls that the chain allows, beyond which the chain ends the action;
-- the code says that this does not happen. The loop that moves REX to savings has a turn for each
-- bucket and two more, since every turn but the last two empties a bucket.
pub mod Prelude
pub mod Eosio
pub mod Trail
pub mod Token
pub mod Msig
pub mod Arbitration
pub mod System
