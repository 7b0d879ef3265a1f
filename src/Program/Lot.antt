-- ===== src/Program/Lot.antt =====
-- Position lots: `InitLotInput`, `init_lot` and `listing_total_price` of
-- programs/basingamarket/src/ops.rs. `init_lot` overwrites every field, so its lot is the result.
use basingamarket.Base.{ℕ, ltb, false, ok, ◌>>=◌, ◌>>◌}
use basingamarket.Base.Int.{ℤ}
use basingamarket.Program.Error.{AnchorResult, require, zero_amount, zero_ticket_amount}
use basingamarket.Program.Math.{scale, mul_div}
use basingamarket.Program.State.{Pubkey, PositionLot, Side}

pub record InitLotInput : Type 0 where
  pub lot_id : ℕ
  pub round : Pubkey
  pub side : Side
  pub owner : Pubkey
  pub ticket_amount : ℕ
  pub usdc_in : ℕ
  pub now : ℤ

unfoldable pub init_lot : InitLotInput → AnchorResult PositionLot
init_lot input = do
  avg_entry_price ← mul_div input.usdc_in scale input.ticket_amount
  ok (record {
    lot_id = input.lot_id;
    round = input.round;
    side = input.side;
    current_owner = input.owner;
    original_buyer = input.owner;
    ticket_amount = input.ticket_amount;
    usdc_in = input.usdc_in;
    avg_entry_price = avg_entry_price;
    listed = false;
    listed_price = 0;
    created_at = input.now;
    last_transfer_at = input.now;
    claimed = false;
  })

unfoldable pub listing_total_price : PositionLot → AnchorResult ℕ
listing_total_price lot = do
  require (ltb 0 lot.ticket_amount) zero_ticket_amount
  require (ltb 0 lot.listed_price) zero_amount
  mul_div lot.ticket_amount lot.listed_price scale
