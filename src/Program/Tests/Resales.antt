-- ===== src/Program/Tests/Resales.antt =====
-- Resales, listings and sales into a bid on the data, and the properties of them there.
use basingamarket.Base.{ℕ, ◌+◌, ◌≤◌, ◌≡◌, refl, true, arith, ok, is_ok, value_of, value_of-eq, none}
use basingamarket.Base.Int.{pos, ◌-ℤ◌}
use basingamarket.Program.Guards.{
  require_not_paused, require_settlement_actor, require_round_tradeable,
}
use basingamarket.Program.Listing.{
  ListingAccounts, ListTicketFromCashierArgs, list_ticket_from_cashier, BuyListingFromVault,
  BuyListingFromVaultArgs, buy_listing_from_vault,
}
use basingamarket.Program.Listing.Trade.{Sold, Taken, buy_listing_from_vault-Sold}
use basingamarket.Program.Lot.{listing_total_price}
use basingamarket.Program.Math.{
  fee_amount, early_flip_fee, early_flip_fee_bps, mul_div, checked_add, checked_sub,
}
use basingamarket.Program.Secondary.{
  SecondaryFeeTransferExecution, execute_secondary_fee_transfers, pay, require_accounts,
}
use basingamarket.Program.Secondary.Balances.{IsApart, execute_secondary_fee_transfers_balances}
use basingamarket.Program.Sell.{
  SellLotIntoBidFromVault, SellLotIntoBidFromVaultArgs, sell_lot_into_bid_from_vault, require_sale,
  transfer_tickets, create_split_lot, require_new_lot, split_lot, reduced_lot,
}
use basingamarket.Program.Sell.Parts.{Sold as IsSold}
use basingamarket.Program.Sell.Conserved.{sell_lot_into_bid_from_vault-Sold}
use basingamarket.Program.Settlement.Outcome.{gross_vault}
use basingamarket.Program.State.{PositionLot}
use basingamarket.Program.Tests.Data.{
  Balances, toy, toy-IsSpl, config, config_account, round_account, lot, balances, runtime,
}
use basingamarket.Program.Token.{require_token_account, transfer_checked}
use basingamarket.Program.Token.Moves.{PaidTwo}

-- A resale for 100 dollars, five seconds after the lot was bought.
abbrev resale : SecondaryFeeTransferExecution Balances
resale = record {
  global_config = config_account;
  round = round_account;
  ledger = balances;
  usdc_mint = 9;
  cash_vault = 15;
  round_vault = 12;
  fee_vault = 13;
  cashier = 5;
  gross_usdc = 100000000;
  last_transfer_at = pos 120;
  now = pos 125;
}

resale_goes_through : is_ok (execute_secondary_fee_transfers toy resale) ≡ true
unfolding execute_secondary_fee_transfers ◌-ℤ◌ fee_amount early_flip_fee early_flip_fee_bps
    checked_sub checked_add require_accounts require_token_account pay transfer_checked
resale_goes_through = refl

abbrev resold : SecondaryFeeTransferExecution Balances
resold = value_of (execute_secondary_fee_transfers toy resale) resale_goes_through

resold-eq : execute_secondary_fee_transfers toy resale ≡ ok resold
resold-eq = value_of-eq (execute_secondary_fee_transfers toy resale) resale_goes_through

-- Half a dollar for the protocol and five dollars for the round.
resold_amounts : (resold.ledger 13 ≡ 500000) × (resold.ledger 12 ≡ 5000000)
unfolding execute_secondary_fee_transfers ◌-ℤ◌ fee_amount early_flip_fee early_flip_fee_bps
    checked_sub checked_add require_accounts require_token_account pay transfer_checked
resold_amounts = (refl, refl)

resale-IsApart : IsApart toy toy-IsSpl resale
resale-IsApart = omega arith

execute_secondary_fee_transfers_balances_example :
    (resale_fee : ℕ) × (early_fee : ℕ) × (resale_fee + early_fee ≤ 100000000)
    × PaidTwo toy toy-IsSpl balances resold.ledger 15 13 12 resale_fee early_fee
    × (gross_vault resold.round.value ≡ 0 + early_fee)
    × (resold.global_config.value.protocol_fee_accrued_usdc ≡ 0 + resale_fee)
execute_secondary_fee_transfers_balances_example =
    execute_secondary_fee_transfers_balances toy toy-IsSpl resale resale-IsApart resold-eq

-- The listing of the lot at 60 cents a ticket.
abbrev listing : ListingAccounts
listing = record { global_config = config; round = round_account; position_lot = lot; cashier = 5 }

abbrev listing_args : ListTicketFromCashierArgs
listing_args = record { seller_wallet = 1; price_per_ticket = 600000 }

abbrev listed_lot : PositionLot
listed_lot = record lot { listed = true; listed_price = 600000 }

lists :
    list_ticket_from_cashier (pos 122) listing listing_args
    ≡ ok (record listing { position_lot = listed_lot })
unfolding list_ticket_from_cashier require_settlement_actor require_round_tradeable
lists = refl

abbrev buying : BuyListingFromVault Balances
buying = record {
  global_config = config_account;
  round = round_account;
  position_lot = listed_lot;
  usdc_mint = 9;
  cash_vault = 15;
  round_vault = 12;
  fee_vault = 13;
  cashier = 5;
  ledger = balances;
}

abbrev buying_args : BuyListingFromVaultArgs
buying_args = record { buyer_wallet = 8; max_price_per_ticket = 650000 }

buying_goes_through : is_ok (buy_listing_from_vault toy (pos 125) buying buying_args) ≡ true
unfolding buy_listing_from_vault ◌-ℤ◌ require_settlement_actor require_not_paused
    require_round_tradeable listing_total_price mul_div execute_secondary_fee_transfers fee_amount
    early_flip_fee early_flip_fee_bps checked_sub checked_add require_accounts require_token_account
    pay transfer_checked
buying_goes_through = refl

abbrev bought : BuyListingFromVault Balances
bought = value_of (buy_listing_from_vault toy (pos 125) buying buying_args) buying_goes_through

bought-eq : buy_listing_from_vault toy (pos 125) buying buying_args ≡ ok bought
bought-eq =
    value_of-eq (buy_listing_from_vault toy (pos 125) buying buying_args) buying_goes_through

buy_listing_from_vault-Sold_example :
    (gross : ℕ) × (resale_fee : ℕ) × (early_fee : ℕ) × Taken toy
      (pos 125)
      buying
      bought
      gross
      resale_fee
      early_fee
    × Sold toy (pos 125) buying buying_args bought gross
buy_listing_from_vault-Sold_example =
    buy_listing_from_vault-Sold toy (pos 125) buying buying_args bought-eq

-- The sale of 30 of the 100 tickets into a bid.
abbrev sale : SellLotIntoBidFromVault Balances
sale = record {
  global_config = config_account;
  round = round_account;
  seller_lot = lot;
  buyer_lot = record { key = 88; lamports = 0; contents = none };
  usdc_mint = 9;
  cash_vault = 15;
  round_vault = 12;
  fee_vault = 13;
  cashier = 5;
  ledger = balances;
}

abbrev sale_args : SellLotIntoBidFromVaultArgs
sale_args = record {
  seller_wallet = 1;
  buyer_wallet = 8;
  buyer_lot_id = 2;
  tickets_to_sell = 30000000;
  gross_usdc = 18000000;
}

sale_goes_through : is_ok (sell_lot_into_bid_from_vault toy runtime (pos 125) sale sale_args) ≡ true
unfolding sell_lot_into_bid_from_vault ◌-ℤ◌ require_sale transfer_tickets create_split_lot
    require_new_lot split_lot reduced_lot require_settlement_actor require_not_paused
    require_round_tradeable mul_div execute_secondary_fee_transfers fee_amount early_flip_fee
    early_flip_fee_bps checked_sub checked_add require_accounts require_token_account pay
    transfer_checked
sale_goes_through = refl

abbrev sold : SellLotIntoBidFromVault Balances
sold =
    value_of (sell_lot_into_bid_from_vault toy runtime (pos 125) sale sale_args) sale_goes_through

sold-eq : sell_lot_into_bid_from_vault toy runtime (pos 125) sale sale_args ≡ ok sold
sold-eq =
    value_of-eq (sell_lot_into_bid_from_vault toy runtime (pos 125) sale sale_args)
      sale_goes_through

sell_lot_into_bid_from_vault-Sold_example : IsSold toy runtime sale sold sale_args
sell_lot_into_bid_from_vault-Sold_example =
    sell_lot_into_bid_from_vault-Sold toy runtime (pos 125) sale sale_args sold-eq
