-- ===== src/Program/Guards.antt =====
-- The guards that the instructions share: the `require_…` functions of
-- programs/basingamarket/src/lib.rs. `now` is `Clock::get()?.unix_timestamp`.
use basingamarket.Base.{◌==◌, ◌&&◌, ◌||◌, not, ◌>>◌}
use basingamarket.Base.Int.{ℤ, ltb_ℤ, leb_ℤ}
use basingamarket.Program.Error.{
  AnchorResult, require, unauthorized, paused, round_not_open, batch_closed, not_live_trading,
}
use basingamarket.Program.State.{Pubkey, GlobalConfig, PositionLot, Round, status_eq, opened}

unfoldable pub require_admin : GlobalConfig → Pubkey → AnchorResult (Unit {0})
require_admin config signer = require (config.admin == signer) unauthorized

unfoldable pub require_settlement_actor : GlobalConfig → Pubkey → AnchorResult (Unit {0})
require_settlement_actor config signer =
    require (config.admin == signer || config.trusted_settlement_actor == signer) unauthorized

unfoldable pub require_not_paused : GlobalConfig → AnchorResult (Unit {0})
require_not_paused config = require (not config.paused) paused

unfoldable pub require_lot_owner : PositionLot → Pubkey → AnchorResult (Unit {0})
require_lot_owner lot owner = require (lot.current_owner == owner) unauthorized

unfoldable pub require_opening_batch : ℤ → Round → AnchorResult (Unit {0})
require_opening_batch now round = do
  require (status_eq round.status opened) round_not_open
  require (leb_ℤ now round.batch_until) batch_closed

unfoldable pub require_live_trading : ℤ → Round → AnchorResult (Unit {0})
require_live_trading now round = do
  require (status_eq round.status opened) round_not_open
  require (ltb_ℤ round.batch_until now && ltb_ℤ now round.end_at) not_live_trading

unfoldable pub require_round_tradeable : ℤ → Round → AnchorResult (Unit {0})
require_round_tradeable now round = do
  require (status_eq round.status opened) round_not_open
  require (ltb_ℤ now round.end_at) not_live_trading
