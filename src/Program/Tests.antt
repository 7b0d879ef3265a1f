-- ===== src/Program/Tests.antt =====
-- Runs of the program on small inputs, and each property at one of them.
pub mod Data
mod Trading
mod Resales
mod Opening
mod Settlement
mod Lots
mod Curves
