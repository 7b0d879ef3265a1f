-- ===== src/Store/Engine.antt =====
-- `ProjectionEngine` of crates/db/src/engine.rs: each event of the chain is kept once and projected into
-- the store, and the projections can be rebuilt from the events kept.
pub mod Event
pub mod Apply
pub mod Replay
pub mod Once
pub mod Profiles
pub mod Dated
pub mod Rebuild
