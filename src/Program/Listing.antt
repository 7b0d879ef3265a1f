-- ===== src/Program/Listing.antt =====
-- Listing a lot and buying a listed lot: `list_ticket_from_cashier`, `cancel_listing_from_cashier`
-- and `buy_listing_from_vault` of programs/basingamarket/src/lib.rs. `now` is the clock.
pub mod Trade
use basingamarket.Base.{ℕ, ltb, leb, ◌==◌, ◌&&◌, not, true, false, ok, ◌>>=◌, ◌>>◌}
use basingamarket.Base.Int.{ℤ}
use basingamarket.Program.Error.{
  AnchorResult, require, unauthorized, slippage, zero_amount, zero_ticket_amount,
  listing_not_active, self_buy, already_claimed, invalid_lot_round,
}
use basingamarket.Program.Guards.{
  require_settlement_actor, require_not_paused, require_round_tradeable,
}
use basingamarket.Program.Lot.{listing_total_price}
use basingamarket.Program.Secondary.{SecondaryFeeTransferExecution, execute_secondary_fee_transfers}
use basingamarket.Program.State.{Pubkey, Account, GlobalConfig, PositionLot, Round}
use basingamarket.Program.Token.{Spl}

-- The accounts of `ListTicketFromCashier` and `CancelListingFromCashier`.
pub record ListingAccounts : Type 0 where
  pub global_config : GlobalConfig
  pub round : Account Round
  pub position_lot : PositionLot
  pub cashier : Pubkey

pub record ListTicketFromCashierArgs : Type 0 where
  pub seller_wallet : Pubkey
  pub price_per_ticket : ℕ

unfoldable pub list_ticket_from_cashier :
    ℤ → ListingAccounts → ListTicketFromCashierArgs → AnchorResult ListingAccounts
list_ticket_from_cashier now ctx args = do
  require_settlement_actor ctx.global_config ctx.cashier
  require_round_tradeable now ctx.round.value
  require (ctx.position_lot.round == ctx.round.key) invalid_lot_round
  require (ctx.position_lot.current_owner == args.seller_wallet) unauthorized
  require (not ctx.position_lot.claimed) already_claimed
  require (ltb 0 ctx.position_lot.ticket_amount) zero_ticket_amount
  require (ltb 0 args.price_per_ticket) zero_amount
  ok (record ctx {
    position_lot = record ctx.position_lot { listed = true; listed_price = args.price_per_ticket };
  })

-- `CancelListingFromCashierArgs` is the seller's wallet.
unfoldable pub cancel_listing_from_cashier :
    ℤ → ListingAccounts → Pubkey → AnchorResult ListingAccounts
cancel_listing_from_cashier now ctx seller_wallet = do
  require_settlement_actor ctx.global_config ctx.cashier
  require_round_tradeable now ctx.round.value
  require (ctx.position_lot.round == ctx.round.key) invalid_lot_round
  require (ctx.position_lot.current_owner == seller_wallet) unauthorized
  require ctx.position_lot.listed listing_not_active
  ok (record ctx { position_lot = record ctx.position_lot { listed = false; listed_price = 0 } })

pub record BuyListingFromVault (Ledger : Type 0) : Type 0 where
  pub global_config : Account GlobalConfig
  pub round : Account Round
  pub position_lot : PositionLot
  pub usdc_mint : Pubkey
  pub cash_vault : Pubkey
  pub round_vault : Pubkey
  pub fee_vault : Pubkey
  pub cashier : Pubkey
  pub ledger : Ledger

pub record BuyListingFromVaultArgs : Type 0 where
  pub buyer_wallet : Pubkey
  pub max_price_per_ticket : ℕ

module _ {Ledger : Type 0} (spl : Spl Ledger) where
  abbrev pub fees_of : ℤ → BuyListingFromVault Ledger → ℕ → SecondaryFeeTransferExecution Ledger
  fees_of now ctx gross_usdc = record {
    global_config = ctx.global_config;
    round = ctx.round;
    ledger = ctx.ledger;
    usdc_mint = ctx.usdc_mint;
    cash_vault = ctx.cash_vault;
    round_vault = ctx.round_vault;
    fee_vault = ctx.fee_vault;
    cashier = ctx.cashier;
    gross_usdc = gross_usdc;
    last_transfer_at = ctx.position_lot.last_transfer_at;
    now = now;
  }

  unfoldable pub buy_listing_from_vault :
      ℤ
      → BuyListingFromVault Ledger
      → BuyListingFromVaultArgs
      → AnchorResult (BuyListingFromVault Ledger)
  buy_listing_from_vault now ctx args = do
    require_settlement_actor ctx.global_config.value ctx.cashier
    require_not_paused ctx.global_config.value
    require_round_tradeable now ctx.round.value
    require (ctx.position_lot.round == ctx.round.key) invalid_lot_round
    gross_usdc ← listing_total_price ctx.position_lot
    require (ctx.position_lot.listed && not ctx.position_lot.claimed) listing_not_active
    require (not (ctx.position_lot.current_owner == args.buyer_wallet)) self_buy
    require (leb ctx.position_lot.listed_price args.max_price_per_ticket) slippage
    paid ← execute_secondary_fee_transfers spl (fees_of now ctx gross_usdc)
    ok (record ctx {
      global_config = paid.global_config;
      round = paid.round;
      ledger = paid.ledger;
      position_lot = record ctx.position_lot {
        current_owner = args.buyer_wallet;
        listed = false;
        listed_price = 0;
        last_transfer_at = now;
      };
    })
