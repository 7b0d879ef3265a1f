-- ===== src/Program/Error.antt =====
-- The errors of the program: `BasingamarketError` of programs/basingamarket/src/lib.rs, and what
-- the token program or the runtime answers to a call.
use basingamarket.Base.{ℕ, Bool, Result, guard}

pub data BasingamarketError : Type 0 where
  unauthorized paused round_not_open round_not_resolved round_not_voided round_still_open :
      BasingamarketError
  not_live_trading batch_still_open batch_closed opening_wallet_cap_exceeded : BasingamarketError
  invalid_opening_aggregate invalid_round_window invalid_duration : BasingamarketError
  invalid_virtual_reserves invalid_binance_snapshot slippage zero_amount : BasingamarketError
  zero_ticket_amount listing_not_active self_buy already_claimed losing_lot : BasingamarketError
  invalid_lot_round invalid_lot_pda lot_already_initialized invalid_usdc_mint : BasingamarketError
  invalid_token_account overflow : BasingamarketError

-- `external` carries the code of an error that another program or the runtime returns.
pub data Error : Type 0 where
  market : BasingamarketError → Error
  external : ℕ → Error

-- Anchor's `Result<T>`
abbrev pub AnchorResult {ℓ} : Type ℓ → Type ℓ
AnchorResult A = Result Error A

-- `require!(b, e)`
abbrev pub require : Bool → BasingamarketError → AnchorResult (Unit {0})
require b e = guard b (market e)
