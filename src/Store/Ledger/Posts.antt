-- ===== src/Store/Ledger/Posts.antt =====
-- The entry that each operation posts when it succeeds.
pub mod Deposits
pub mod Trades
pub mod Bids
pub mod Resales
pub mod Claims
