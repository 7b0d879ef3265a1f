-- ===== src/Program/Access.antt =====
-- Who may give which instruction: the first check of every instruction that is not a user's own.
use basingamarket.Base.{ℕ, ◌≡◌, ◌≢◌, arith, err}
use basingamarket.Base.Int.{ℤ}
use basingamarket.Program.Admin.{
  CreateMarketConfigArgs, create_market_config, set_cash_mint, pause_market, unpause_market,
  withdraw_protocol_fees, OpenRound, OpenRoundArgs, open_round,
}
use basingamarket.Program.Error.{market, unauthorized}
use basingamarket.Program.FreshBuy.Instructions.{
  BuyFreshFromVault, BuyFreshFromVaultArgs, buy_fresh_from_vault,
}
use basingamarket.Program.Guards.{require_admin, require_settlement_actor}
use basingamarket.Program.Listing.{
  ListingAccounts, ListTicketFromCashierArgs, list_ticket_from_cashier, cancel_listing_from_cashier,
  BuyListingFromVault, BuyListingFromVaultArgs, buy_listing_from_vault,
}
use basingamarket.Program.Opening.{FinalizeOpeningSide, finalize_opening_side}
use basingamarket.Program.Runtime.{Runtime}
use basingamarket.Program.Sell.{
  SellLotIntoBidFromVault, SellLotIntoBidFromVaultArgs, sell_lot_into_bid_from_vault, require_sale,
}
use basingamarket.Program.Settlement.{
  SettlementAccounts, ResolveRoundArgs, close_round, resolve_round, void_round,
}
use basingamarket.Program.State.{GlobalConfig, MarketConfig, Pubkey}
use basingamarket.Program.Token.{Spl}

-- Neither the administrator nor the trusted settlement actor.
pub record IsStranger (config : GlobalConfig) (signer : Pubkey) : Type 0 where
  pub admin : config.admin ≢ signer
  pub actor : config.trusted_settlement_actor ≢ signer

-- The instructions of the administrator refuse everybody else, the settlement actor included.
pub admin_only :
    (config : GlobalConfig) (m : MarketConfig) (signer mint : Pubkey) (bump : ℕ)
    (args : CreateMarketConfigArgs)
    → config.admin ≢ signer
    → (create_market_config config signer bump args ≡ err (market unauthorized))
      × (set_cash_mint config signer mint ≡ err (market unauthorized))
      × (pause_market config m signer ≡ err (market unauthorized))
      × (unpause_market config m signer ≡ err (market unauthorized))
      × (withdraw_protocol_fees config signer ≡ err (market unauthorized))
unfolding create_market_config set_cash_mint pause_market unpause_market withdraw_protocol_fees
    require_admin
admin_only config m signer mint bump args h = ground arith

-- The instructions on a round that move no tokens refuse strangers.
pub settlement_only :
    (now : ℤ) (opening : OpenRound) (open_args : OpenRoundArgs) (s : SettlementAccounts)
    (args : ResolveRoundArgs) (f : FinalizeOpeningSide)
    → IsStranger opening.global_config opening.authority
    → IsStranger s.global_config s.authority
    → IsStranger f.global_config f.authority
    → (open_round opening open_args ≡ err (market unauthorized))
      × (close_round now s ≡ err (market unauthorized))
      × (resolve_round now s args ≡ err (market unauthorized))
      × (void_round s args ≡ err (market unauthorized))
      × (finalize_opening_side now f ≡ err (market unauthorized))
unfolding open_round close_round resolve_round void_round finalize_opening_side
    require_settlement_actor
settlement_only now opening open_args s args f a b c = ground arith

-- The instructions of the cashier, on listings and on the money of its vault, refuse strangers.
pub cashier_only :
    {Ledger : Type 0} (spl : Spl Ledger) (runtime : Runtime) (now : ℤ) (l : ListingAccounts)
    (list_args : ListTicketFromCashierArgs) (seller : Pubkey) (fresh : BuyFreshFromVault Ledger)
    (fresh_args : BuyFreshFromVaultArgs) (buy : BuyListingFromVault Ledger)
    (buy_args : BuyListingFromVaultArgs) (sell : SellLotIntoBidFromVault Ledger)
    (sell_args : SellLotIntoBidFromVaultArgs)
    → IsStranger l.global_config l.cashier
    → IsStranger fresh.global_config.value fresh.cashier
    → IsStranger buy.global_config.value buy.cashier
    → IsStranger sell.global_config.value sell.cashier
    → (list_ticket_from_cashier now l list_args ≡ err (market unauthorized))
      × (cancel_listing_from_cashier now l seller ≡ err (market unauthorized))
      × (buy_fresh_from_vault spl now fresh fresh_args ≡ err (market unauthorized))
      × (buy_listing_from_vault spl now buy buy_args ≡ err (market unauthorized))
      × (sell_lot_into_bid_from_vault spl runtime now sell sell_args ≡ err (market unauthorized))
unfolding list_ticket_from_cashier cancel_listing_from_cashier buy_fresh_from_vault
    buy_listing_from_vault sell_lot_into_bid_from_vault require_sale require_settlement_actor
cashier_only spl runtime now l list_args seller fresh fresh_args buy buy_args sell sell_args a b c
      d =
    ground arith
