-- ===== src/Domain/Tests/Quotes.antt =====
-- Quotes, orders, listings and windows of the services' rounds on small inputs, with the properties
-- there.
use basingamarket.Base.{
  ◌+◌, ◌*◌, ◌/◌, ◌≤◌, ◌≡◌, [], ◌∷◌, refl, true, false, arith, ok, err, bytes_eq,
}
use basingamarket.Base.Int.{pos, ◌≤ℤ◌, ◌<ℤ◌, ◌+ℤ◌, ◌-ℤ◌}
use basingamarket.Domain.Agreement.{curve_of}
use basingamarket.Domain.Agreement.Buys.{quote_buy_agrees}
use basingamarket.Domain.Amounts.{
  validate_amount, validate_fee_bps, validate_lot_for_round, calculate_fee, checked_mul,
  checked_div, checked_mul_div, price_from_reserves,
}
use basingamarket.Domain.Listings.{quote_listing_buy, buy_listing, early_flip_fee_bps}
use basingamarket.Domain.Settlement.{validate_open_round}
use basingamarket.Domain.State.{
  CurveState, PositionLot, OpeningOrder, OpeningAggregate, BuyQuote, ListingQuote, Side,
  quote_stale, zero_amount, opening_order_already_claimed,
}
use basingamarket.Domain.Trading.{
  quote_buy, quote_buy_net, apply_buy_to_curve, ensure_quote_matches_buy, claim_opening_order,
}
use basingamarket.Domain.Trading.Lost.{claim_opening_order_lost}
use basingamarket.Domain.Trading.Quotes.{apply_buy_to_curve-quote}
use basingamarket.Domain.Windows.{current_round_id, round_window}
use basingamarket.Domain.Windows.Cover.{round_window_covers}
use basingamarket.Program.State.{Curve}
use basingamarket.Program.Math.{checked_add, checked_sub}
use basingamarket.Program.Curve.{apply_buy}
use basingamarket.Domain.Tests.Rounds.{sold, lot}

-- A curve of 100 dollars and 1000 tickets, in base units.
abbrev small : CurveState
small = record { virtual_usdc = 100; virtual_ticket = 1000; real_usdc = 0; ticket_supply = 0 }

-- A purchase of 10 without a fee.
abbrev quote : BuyQuote
quote = record {
  usdc_in = 10;
  fee = 0;
  net_usdc_in = 10;
  tickets_out = 91;
  old_virtual_usdc = 100;
  old_virtual_ticket = 1000;
  new_virtual_usdc = 110;
  new_virtual_ticket = 909;
  price_after = 121012;
}

abbrev bought : CurveState
bought = record { virtual_usdc = 110; virtual_ticket = 909; real_usdc = 10; ticket_supply = 91 }

quotes : quote_buy small 10 50 90 ≡ ok quote
unfolding quote_buy quote_buy_net validate_amount validate_fee_bps calculate_fee checked_mul_div
    checked_mul checked_div price_from_reserves
quotes = refl

applies : apply_buy_to_curve small quote ≡ (bought, ok tt)
unfolding apply_buy_to_curve ensure_quote_matches_buy
applies = refl

apply_buy_to_curve-quote_example :
    (10 + 0 ≡ 0 + 10)
    × (110 + 0 ≡ 100 + 10)
    × (909 + 91 ≡ 1000)
    × (91 ≡ 0 + 91)
    × (909 ≡ 100 * 1000 / 110)
    × (90 ≤ 91)
    × (apply_buy_to_curve bought quote ≡ (bought, err quote_stale))
apply_buy_to_curve-quote_example = apply_buy_to_curve-quote small 10 50 90 quotes applies

-- An order for 1 base unit of a batch of 10000 that bought 5000 tickets.
abbrev aggregate : OpeningAggregate
aggregate = record {
  round_id = 7;
  side = Side.up;
  total_net_usdc = 10000;
  total_tickets_out = 5000;
  finalized = true;
}

abbrev order : OpeningOrder
order = record { round_id = 7; user = b'A' ∷ []; side = Side.up; net_usdc = 1; claimed = false }

claim_opening_order_lost_example :
    let marked = record order { claimed = true } in
    (claim_opening_order sold aggregate order 1 (pos 2110) ≡ (marked, err zero_amount))
    × (claim_opening_order sold aggregate marked 2 (pos 2111)
        ≡ (marked, err opening_order_already_claimed))
claim_opening_order_lost_example =
    claim_opening_order_lost sold aggregate order 1 2 (pos 2110) (pos 2111) refl refl refl
      (omega arith) (omega arith) refl

current : current_round_id (pos 2222) 300 ≡ ok 7
unfolding current_round_id
current = refl

window : round_window 7 300 ≡ ok (pos 2100, pos 2400)
unfolding round_window
window = refl

next_window : round_window (7 + 1) 300 ≡ ok (pos 2400, pos 2700)
unfolding round_window
next_window = refl

round_window_covers_example :
    (pos 2100 ≤ℤ pos 2222)
    × (pos 2222 <ℤ pos 2400)
    × (pos 2400 ≡ pos 2100 +ℤ pos 300)
    × (pos 2400 ≡ pos 2400)
round_window_covers_example = round_window_covers (pos 2222) 300 current window next_window

-- The program's curve of the same size, and its purchase of 10.
abbrev program_curve : Curve
program_curve = record {
  virtual_usdc = 100;
  virtual_ticket = 1000;
  real_usdc = 0;
  ticket_supply = 0;
}

abbrev program_bought : Curve
program_bought = record {
  virtual_usdc = 110;
  virtual_ticket = 909;
  real_usdc = 10;
  ticket_supply = 91;
}

program_quotes : basingamarket.Program.Curve.quote_buy program_curve 10 ≡ ok 91
unfolding basingamarket.Program.Curve.quote_buy checked_add checked_sub
program_quotes = refl

program_buys : apply_buy program_curve 10 91 ≡ ok program_bought
unfolding apply_buy checked_add
program_buys = refl

quote_buy_agrees_example :
    (q : BuyQuote) × (quote_buy_net small 12 2 10 50 ≡ ok q)
    × (q.tickets_out ≡ 91)
    × (apply_buy_to_curve small q ≡ (curve_of program_bought, ok tt))
quote_buy_agrees_example =
    quote_buy_agrees program_curve 10 12 2 50 program_quotes program_buys (omega arith)
      (omega arith)

-- A listed lot, 15 seconds old.
abbrev listed_lot : PositionLot
listed_lot = record lot { listed = true; listed_price = 60000000 }

abbrev listing_quote : ListingQuote
listing_quote = record {
  listed_price = 60000000;
  resale_fee = 300000;
  early_flip_fee = 1800000;
  seller_receives = 57900000;
}

listing_quotes : quote_listing_buy listed_lot (pos 2125) 50 70000000 ≡ ok listing_quote
unfolding quote_listing_buy validate_fee_bps calculate_fee checked_mul_div checked_mul checked_div
    early_flip_fee_bps ◌-ℤ◌
listing_quotes = refl

abbrev bought_lot : PositionLot
bought_lot = record lot { current_owner = b'B' ∷ []; last_transfer_at = pos 2125 }

listing_buys :
    buy_listing sold listed_lot (b'B' ∷ []) listing_quote (pos 2125)
    ≡ ok (record sold { round_bonus_usdc = 1800000 }, bought_lot)
unfolding buy_listing validate_open_round validate_lot_for_round bytes_eq
listing_buys = refl
