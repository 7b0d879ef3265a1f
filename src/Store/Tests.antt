-- ===== src/Store/Tests.antt =====
-- Runs of the store, and its theorems at concrete inputs.
mod Data
mod Ledgers
mod Rounds
mod Snapshots
mod Events
