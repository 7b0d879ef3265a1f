-- ===== src/Domain/Listings.antt =====
-- Listings: `list_lot`, `cancel_listing`, `quote_listing_buy` and `buy_listing` of
-- crates/domain/src/crypto_rounds/trading.rs.
pub mod Fees
use basingamarket.Base.{
  ℕ, true, false, ltb, ◌==◌, ◌||◌, not, bytes_eq, Result, ok, err, ok_or, and_then, or_return,
  if◌then◌else◌, ◌>>=◌, ◌>>◌,
}
use basingamarket.Base.Int.{ℤ, pos, ltb_ℤ}
use basingamarket.Base.Words.{u128_checked_add, u128_checked_sub, i64_saturating_sub}
use basingamarket.Domain.Amounts.{
  validate_amount, validate_fee_bps, calculate_fee, checked_mul, checked_div, checked_mul_div,
  price_from_reserves, validate_lot_for_round, new_lot,
}
use basingamarket.Domain.Settlement.{validate_open_round, validate_live_fresh_buy}
use basingamarket.Domain.State.{
  Amount, Name, Side, CryptoResult, CurveState, RoundState, PositionLot, OpeningOrder,
  OpeningAggregate, BuyQuote, ListingQuote, curve, set_curve, side_eq, overflow, slippage_exceeded,
  quote_stale, opening_wallet_cap_exceeded, opening_aggregate_already_finalized,
  opening_aggregate_not_finalized, opening_order_already_claimed, opening_side_mismatch,
  opening_batch_active, lot_already_claimed, lot_already_listed, lot_not_listed,
  listed_price_exceeds_max, buyer_is_seller,
}

unfoldable pub list_lot : RoundState → PositionLot → Amount → ℤ → CryptoResult PositionLot
list_lot round lot listed_price now_ts = do
  validate_open_round round now_ts
  validate_lot_for_round round lot
  validate_amount listed_price
  if lot.claimed then err lot_already_claimed else ok tt
  if lot.listed then err lot_already_listed else ok tt
  ok (record lot { listed = true; listed_price = listed_price })

unfoldable pub cancel_listing : RoundState → PositionLot → ℤ → CryptoResult PositionLot
cancel_listing round lot now_ts = do
  validate_open_round round now_ts
  validate_lot_for_round round lot
  if not lot.listed then err lot_not_listed else ok tt
  ok (record lot { listed = false; listed_price = 0 })

-- By the age of the lot, not by the time since its last transfer.
unfoldable pub early_flip_fee_bps : PositionLot → ℤ → ℕ
early_flip_fee_bps lot now_ts =
    let age = i64_saturating_sub now_ts lot.created_at in
    if ltb_ℤ age (pos 10)
    then 500
    else if ltb_ℤ age (pos 30)
    then 300
    else if ltb_ℤ age (pos 60)
    then 100
    else 0

unfoldable pub quote_listing_buy : PositionLot → ℤ → ℕ → Amount → CryptoResult ListingQuote
quote_listing_buy lot now_ts resale_fee_bps max_price = do
  if not lot.listed then err lot_not_listed else ok tt
  if ltb max_price lot.listed_price
      then err (listed_price_exceeds_max lot.listed_price max_price)
      else ok tt
  validate_fee_bps resale_fee_bps
  resale_fee ← calculate_fee lot.listed_price resale_fee_bps
  early_flip_fee ← calculate_fee lot.listed_price (early_flip_fee_bps lot now_ts)
  seller_receives ←
      ok_or
        (and_then (u128_checked_sub lot.listed_price resale_fee)
          (λ amount. u128_checked_sub amount early_flip_fee))
        overflow
  ok (record {
    listed_price = lot.listed_price;
    resale_fee = resale_fee;
    early_flip_fee = early_flip_fee;
    seller_receives = seller_receives;
  })

-- The round and the lot are written after the last check.
unfoldable pub buy_listing :
    RoundState → PositionLot → Name → ListingQuote → ℤ → CryptoResult (RoundState × PositionLot)
buy_listing round lot buyer quote now_ts = do
  validate_open_round round now_ts
  validate_lot_for_round round lot
  if bytes_eq buyer lot.current_owner then err buyer_is_seller else ok tt
  if not lot.listed then err lot_not_listed else ok tt
  if not (lot.listed_price == quote.listed_price) then err quote_stale else ok tt
  bonus ← ok_or (u128_checked_add round.round_bonus_usdc quote.early_flip_fee) overflow
  ok (
    record round { round_bonus_usdc = bonus },
    record lot {
      current_owner = buyer;
      listed = false;
      listed_price = 0;
      last_transfer_at = now_ts;
    },
  )
