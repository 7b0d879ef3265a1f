-- ===== src/Lib.antt =====
-- The rounds of BasingaMarket: binary markets on a price that last a few minutes. Users buy tickets on
-- the side up or down from a bonding curve, resell them, and claim after the round was settled.
--
-- Program (programs/basingamarket/src) is the on-chain program. An Anchor handler that mutates its
-- accounts is a function from the record of its accounts, its arguments and the clock to a result:
-- `ok` with the accounts afterwards, or `err` with the error. An error rolls everything back on chain,
-- so a failed instruction has no state. The Rust names are kept.
--   Program/State      the structs and enums of lib.rs; a Pubkey is the number that its bytes spell
--   Program/Error      `BasingamarketError`, and the errors of other programs
--   Program/Math       math.rs: checked arithmetic on u64, u128 and i64, fees
--   Program/Curve      `quote_buy`, `apply_buy` and the choice of a side's curve, of ops.rs
--   Program/Guards     the `require_` functions of lib.rs
--   Program/Token      `require_token_account` and `transfer_checked` of ops.rs
--   Program/Lot        `init_lot` and `listing_total_price` of ops.rs
--   Program/Admin      `initialize_global_config`, `create_market_config`, `set_cash_mint`,
--                      `pause_market`, `unpause_market`, `withdraw_protocol_fees`, `open_round`
--   Program/FreshBuy   `execute_fresh_buy` of ops.rs; its Instructions are `buy_fresh` and
--                      `buy_fresh_from_vault`
--   Program/Secondary  `execute_secondary_fee_transfers` of ops.rs
--   Program/Listing    `list_ticket_from_cashier`, `cancel_listing_from_cashier`,
--                      `buy_listing_from_vault`
--   Program/Runtime    the calls of the Solana runtime
--   Program/Sell       `sell_lot_into_bid_from_vault`, and `create_split_lot` of ops.rs
--   Program/Opening    `submit_opening_order`, `finalize_opening_side`, `claim_opening_order`
--   Program/Settlement `close_round`, `resolve_round`, `void_round`, `apply_round_resolution`
--   Program/Claims     `claim_winning_lot`, `claim_void_lot`
--   Program/Access     who may give which instruction
--   Program/Lifecycle  a round under any sequence of instructions, as a step relation
--   Program/Tests      runs on small inputs
--
-- Domain (crates/domain/src/crypto_rounds) is the same market as the services compute it, with u128
-- amounts. A function that writes through a reference gives back what it leaves together with its
-- result, since in Rust an error does not undo the writes before it.
--   Domain/State       the types of types.rs
--   Domain/Amounts     the checks and the arithmetic at the end of types.rs, and `PositionLot::new`
--   Domain/Settlement  settlement.rs
--   Domain/Trading     the quotes, the purchases and the opening batch of trading.rs
--   Domain/Listings    the listings of trading.rs
--   Domain/Windows     the times of rounds of automation.rs
--   Domain/Plans       the streams and the plans of automation.rs, and `RoundState::new`
--   Domain/Agreement   where the program and the services compute the same
--   Domain/Tests       runs on small inputs
-- Store (crates/db/src) is the store in memory that the services keep: what users hold in cash, the
-- tickets and what happened to them, and the engine that projects the events of the chain. The store is
-- a `ProjectionState`; an operation is a function to the state it leaves with its result, an `Outcome`.
-- Behind the lock of the source an operation runs alone, and an error keeps the writes before it. A
-- String is the list of its bytes, a time counts nanoseconds, a BTreeMap is the list of its entries in
-- the order of the keys (Key, Map), a Vec is a list.
--   Store/Rows         rows.rs, the rows of withdrawals.rs, and `DbError`
--   Store/State        `ProjectionState` of memory.rs
--   Store/Balances     balances, mints and plain deposits; Deposits those of SOL and of transfers
--   Store/Withdrawals  withdrawals.rs
--   Store/Reservations reservations and trades for cash, and the ticket of a trade
--   Store/Bids         bids and asks
--   Store/Resales      `record_cash_resale` and `apply_cash_resale_to_tickets`
--   Store/Tickets      markets, outcomes, tickets and their listings; Canvas the objects drawn for them
--   Store/Prices       `entry_price`, `entry_total`, `prorated_amount`, `side_to_outcome_id`
--   Store/Settlement   memory_settlement.rs, and `resolve_market`
--   Store/Reads        memory/profile_activity_reads.rs
--   Store/Backfill     `backfill_cash_trade_market_ids`
--   Store/ShareCards   the cards to share
--   Store/Snapshot     cash_snapshot.rs; its Rebuild is `rebuild_cash_ticket_projection_from_snapshot`,
--                      and Kept follows the order of the ledgers through the operations on cash
--   Store/Engine       engine.rs with the events of protocol-events and the messages of realtime
--   Store/Ledger       the twelve operations on cash as one step relation, and the account book
--   Store/Tests        runs on small inputs
-- The children of a module hold its proofs, each named for what it proves.
--
-- How the parts interact: the purchases, the resales and the end of the opening batch write the curves
-- and the bonus of the round and the configuration's accrued fees; settlement turns the totals of the
-- curves into a payout rate; claims read the rate, or the curves of a voided round. `Lifecycle.Step` is
-- one instruction with any accounts, over the world of configuration, round and token balances.
--
-- The store hears of the program by events, which `Engine.Apply` projects: purchases become tickets, a
-- settlement gives the tickets of the round their worth, a claim moves it into a balance. `Ledger.Runs` is
-- any run of operations on cash; what a wallet holds there is its balance, its open reservations and what
-- is left in its bids.
--
-- Base holds what every part uses: Rust's `Result` with `?` as `do`, Boolean tests, integers, and the
-- operations of u64, u128 and i64 with their bounds written out.
--
-- Code that is not in the repository is a parameter. `Spl` is the token program: what the code reads of
-- its accounts, and its transfer; the theorems on balances assume `IsSpl`, that a transfer moves its
-- amount from one account to another one and touches no others. `Runtime` is the derivation of addresses,
-- the rent and the creation of accounts, about which nothing is assumed. The clock of the chain is the
-- argument `now`. `Dates` is what the library for dates makes of a number of seconds, about which nothing
-- is assumed. `Clock` adds one reading of the machine's clock: an operation makes at most one, an event
-- that arrives has one of its own for each place that reads it, and a rebuild one for each event. The
-- random id of a share card is an argument.
--
-- Loops and fuel: the program has no loop; those of the services and the store run over lists or the
-- entries of a map and are structural recursion. A stable sort is insertion sort. The digits of a number
-- are taken with fuel 20, enough for every u64. A sum of i64 that the source does not check wraps around,
-- as in a release build.
--
-- Not modelled: the account constraints that Anchor generates from contexts.rs (seeds, bumps, addresses,
-- signers), serialisation, lamports of the payer, logs; of the services' rounds, the texts of assets and
-- sources; of the store, JSON, the file of the snapshot, the payload and the random id of a message; and
-- the parts of the repository that only move data: the web front end, the HTTP handlers, PostgreSQL, and
-- the price source.
pub mod Base
pub mod Program
pub mod Domain
pub mod Store
