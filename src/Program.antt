-- ===== src/Program.antt =====
-- The on-chain program, programs/basingamarket/src.
pub mod Error
pub mod State
pub mod Math
pub mod Curve
pub mod Guards
pub mod Token
pub mod Lot
pub mod FreshBuy
pub mod Secondary
pub mod Listing
pub mod Runtime
pub mod Sell
pub mod Opening
pub mod Admin
pub mod Settlement
pub mod Claims
pub mod Access
pub mod Lifecycle
pub mod Tests
