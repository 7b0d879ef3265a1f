-- ===== src/Store/Rows.antt =====
-- The rows of the store.
pub mod Events
pub mod Cash
pub mod Error
