-- ===== src/Store.antt =====
-- The projection store of crates/db, held in memory.
pub mod Key
pub mod Map
pub mod Rows
pub mod State
pub mod Balances
pub mod Deposits
pub mod Withdrawals
pub mod Canvas
pub mod Prices
pub mod Tickets
pub mod Reservations
pub mod Resales
pub mod Bids
pub mod Settlement
pub mod Settled
pub mod Reads
pub mod Backfill
pub mod Sums
pub mod Quotes
pub mod Best
pub mod Conserved
pub mod ShareCards
pub mod Ledger
pub mod Snapshot
pub mod Engine
mod Tests
