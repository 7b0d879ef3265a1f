-- ===== src/Domain/Listings/Fees.antt =====
-- The quote for a listing, and the purchase at it.
use basingamarket.Base.{ℕ, ◌+◌, ◌≤◌, ◌≡◌, false, arith, ok}
use basingamarket.Base.Int.{ℤ, ◌<ℤ◌}
use basingamarket.Domain.Listings.{quote_listing_buy, buy_listing}
use basingamarket.Domain.Settlement.{validate_open_round}
use basingamarket.Domain.State.{Amount, Name, RoundState, PositionLot, ListingQuote, opened}

-- A listing that is quoted can be bought at the quote in an open round: the price is divided without
-- rest between seller, protocol and round, the round's bonus grows by its part, and the lot changes
-- its owner and keeps its tickets.
pub buy_listing-quote :
    (round : RoundState) (lot : PositionLot) (buyer : Name) (now_ts : ℤ) (resale_fee_bps : ℕ)
    (max_price : Amount) {quote : ListingQuote} {round' : RoundState} {lot' : PositionLot}
    → quote_listing_buy lot now_ts resale_fee_bps max_price ≡ ok quote
    → buy_listing round lot buyer quote now_ts ≡ ok (round', lot')
    → (quote.seller_receives + quote.resale_fee + quote.early_flip_fee ≡ lot.listed_price)
      × (lot.listed_price ≤ max_price)
      × (round'.round_bonus_usdc ≡ round.round_bonus_usdc + quote.early_flip_fee)
      × (round'.up_curve ≡ round.up_curve)
      × (round'.down_curve ≡ round.down_curve)
      × (lot' ≡ record lot {
        current_owner = buyer;
        listed = false;
        listed_price = 0;
        last_transfer_at = now_ts;
      })
      × (round.status ≡ opened)
      × (now_ts <ℤ round.end_at)
unfolding quote_listing_buy buy_listing validate_open_round
buy_listing-quote round lot buyer now_ts resale_fee_bps max_price q b = ground arith
