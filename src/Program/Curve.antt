-- ===== src/Program/Curve.antt =====
-- The bonding curve of one side: `quote_buy`, `apply_buy` and the choice of the side's curve, in
-- programs/basingamarket/src/ops.rs.
pub mod Buy
pub mod Pricing
pub mod Invariant
use basingamarket.Base.{ℕ, ltb, ok, ok_or, ◌>>=◌, ◌>>◌}
use basingamarket.Base.Words.{u128_checked_mul, checked_div, u64_try_from}
use basingamarket.Program.Error.{AnchorResult, market, require, overflow, zero_amount}
use basingamarket.Program.Math.{checked_add, checked_sub}
use basingamarket.Program.State.{Curve, Round, Side}

abbrev pub curve_for_side : Round → Side → Curve
curve_for_side round Side.up = round.up
curve_for_side round Side.down = round.down

-- What a write through `curve_for_side_mut` leaves.
abbrev pub set_curve_for_side : Round → Side → Curve → Round
set_curve_for_side round Side.up c = record round { up = c }
set_curve_for_side round Side.down c = record round { down = c }

unfoldable pub quote_buy : Curve → ℕ → AnchorResult ℕ
quote_buy curve net_usdc = do
  require (ltb 0 net_usdc) zero_amount
  k ← ok_or (u128_checked_mul curve.virtual_usdc curve.virtual_ticket) (market overflow)
  new_virtual_usdc ← checked_add curve.virtual_usdc net_usdc
  new_virtual_ticket_u128 ← ok_or (checked_div k new_virtual_usdc) (market overflow)
  new_virtual_ticket ← ok_or (u64_try_from new_virtual_ticket_u128) (market overflow)
  checked_sub curve.virtual_ticket new_virtual_ticket

unfoldable pub apply_buy : Curve → ℕ → ℕ → AnchorResult Curve
apply_buy curve net_usdc tickets_out = do
  k ← ok_or (u128_checked_mul curve.virtual_usdc curve.virtual_ticket) (market overflow)
  virtual_usdc ← checked_add curve.virtual_usdc net_usdc
  new_virtual_ticket_u128 ← ok_or (checked_div k virtual_usdc) (market overflow)
  virtual_ticket ← ok_or (u64_try_from new_virtual_ticket_u128) (market overflow)
  real_usdc ← checked_add curve.real_usdc net_usdc
  ticket_supply ← checked_add curve.ticket_supply tickets_out
  ok (record {
    virtual_usdc = virtual_usdc;
    virtual_ticket = virtual_ticket;
    real_usdc = real_usdc;
    ticket_supply = ticket_supply;
  })
