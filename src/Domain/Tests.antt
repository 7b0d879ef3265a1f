-- ===== src/Domain/Tests.antt =====
-- Runs of the services' rounds on small inputs, and each property at one of them.
mod Rounds
mod Quotes
mod Plans
