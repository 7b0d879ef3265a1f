-- ===== src/Domain/Agreement.antt =====
-- The services compute with u128 what the program computes with u64: where the program succeeds,
-- crates/domain/src/crypto_rounds and programs/basingamarket/src agree.
pub mod Buys
pub mod Settlements
use basingamarket.Base.{ℕ, Option, none, some}
use basingamarket.Domain.State.{CurveState, RoundStatus, Side}
use basingamarket.Program.State.{Curve, RoundOutcome}

-- The same curve, status and winner in the types of the domain.
abbrev pub curve_of : Curve → CurveState
curve_of c = record {
  virtual_usdc = c.virtual_usdc;
  virtual_ticket = c.virtual_ticket;
  real_usdc = c.real_usdc;
  ticket_supply = c.ticket_supply;
}

abbrev pub status_of : basingamarket.Program.State.RoundStatus → RoundStatus
status_of basingamarket.Program.State.opened = RoundStatus.opened
status_of basingamarket.Program.State.closed = RoundStatus.closed
status_of basingamarket.Program.State.resolved = RoundStatus.resolved
status_of basingamarket.Program.State.voided = RoundStatus.voided

abbrev pub winner_of : RoundOutcome → Option Side
winner_of RoundOutcome.none = none
winner_of RoundOutcome.up = some Side.up
winner_of RoundOutcome.down = some Side.down
winner_of RoundOutcome.void = none
