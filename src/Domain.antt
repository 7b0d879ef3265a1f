-- ===== src/Domain.antt =====
-- The rounds as the services see them: crates/domain/src/crypto_rounds.
pub mod State
pub mod Amounts
pub mod Settlement
pub mod Trading
pub mod Listings
pub mod Windows
pub mod Plans
pub mod Agreement
mod Tests
