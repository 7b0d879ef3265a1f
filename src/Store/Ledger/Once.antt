-- ===== src/Store/Ledger/Once.antt =====
-- Recording is done once: the operation that records a signature does nothing the next time.
pub mod Deposits
pub mod Trades
pub mod Claims
pub mod Again
use basingamarket.Base.{◌≡◌, Option, some}

-- A record was found.
abbrev pub Known : {V : Type 0} → Option V → Type 0
Known {V = V} found = (row : V) × (found ≡ some row)
