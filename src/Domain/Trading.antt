-- ===== src/Domain/Trading.antt =====
-- Quotes, purchases, the opening batch and listings: crates/domain/src/crypto_rounds/trading.rs. A
-- function that writes through a reference gives back what it leaves behind together with its result:
-- in Rust an error does not undo the writes before it.
pub mod Quotes
pub mod Lost
use basingamarket.Base.{
  ℕ, true, false, ltb, ◌==◌, ◌||◌, not, bytes_eq, Result, ok, err, ok_or, and_then, or_return,
  if◌then◌else◌, ◌>>=◌, ◌>>◌,
}
use basingamarket.Base.Int.{ℤ, pos, ltb_ℤ}
use basingamarket.Base.Words.{u128_checked_add, u128_checked_sub, i64_saturating_sub}
use basingamarket.Domain.Amounts.{
  validate_amount, validate_fee_bps, calculate_fee, checked_mul, checked_div, checked_mul_div,
  price_from_reserves, validate_lot_for_round, new_lot,
}
use basingamarket.Domain.Settlement.{validate_open_round, validate_live_fresh_buy}
use basingamarket.Domain.State.{
  Amount, Name, Side, CryptoResult, CurveState, RoundState, PositionLot, OpeningOrder,
  OpeningAggregate, BuyQuote, ListingQuote, curve, set_curve, side_eq, overflow, slippage_exceeded,
  quote_stale, opening_wallet_cap_exceeded, opening_aggregate_already_finalized,
  opening_aggregate_not_finalized, opening_order_already_claimed, opening_side_mismatch,
  opening_batch_active, lot_already_claimed, lot_already_listed, lot_not_listed,
  listed_price_exceeds_max, buyer_is_seller,
}

unfoldable pub quote_buy_net :
    CurveState → Amount → Amount → Amount → Amount → CryptoResult BuyQuote
quote_buy_net c usdc_in fee net_usdc_in min_tickets_out = do
  k ← checked_mul c.virtual_usdc c.virtual_ticket
  new_virtual_usdc ← ok_or (u128_checked_add c.virtual_usdc net_usdc_in) overflow
  new_virtual_ticket ← checked_div k new_virtual_usdc
  tickets_out ← ok_or (u128_checked_sub c.virtual_ticket new_virtual_ticket) overflow
  if ltb tickets_out min_tickets_out
      then err (slippage_exceeded tickets_out min_tickets_out)
      else ok tt
  price_after ← price_from_reserves new_virtual_usdc new_virtual_ticket
  ok (record {
    usdc_in = usdc_in;
    fee = fee;
    net_usdc_in = net_usdc_in;
    tickets_out = tickets_out;
    old_virtual_usdc = c.virtual_usdc;
    old_virtual_ticket = c.virtual_ticket;
    new_virtual_usdc = new_virtual_usdc;
    new_virtual_ticket = new_virtual_ticket;
    price_after = price_after;
  })

unfoldable pub quote_buy : CurveState → Amount → ℕ → Amount → CryptoResult BuyQuote
quote_buy c usdc_in buy_fee_bps min_tickets_out = do
  validate_amount usdc_in
  validate_fee_bps buy_fee_bps
  fee ← calculate_fee usdc_in buy_fee_bps
  net_usdc_in ← ok_or (u128_checked_sub usdc_in fee) overflow
  validate_amount net_usdc_in
  quote_buy_net c usdc_in fee net_usdc_in min_tickets_out

unfoldable pub ensure_quote_matches_buy : CurveState → BuyQuote → CryptoResult (Unit {0})
ensure_quote_matches_buy c quote =
    if not (c.virtual_usdc == quote.old_virtual_usdc)
      || not (c.virtual_ticket == quote.old_virtual_ticket)
    then err quote_stale
    else ok tt

unfoldable pub apply_buy_to_curve : CurveState → BuyQuote → CurveState × CryptoResult (Unit {0})
apply_buy_to_curve c quote = or_return (ensure_quote_matches_buy c quote) c (λ matched.
    let c₁ = record c {
      virtual_usdc = quote.new_virtual_usdc;
      virtual_ticket = quote.new_virtual_ticket;
    } in
    or_return (ok_or (u128_checked_add c₁.real_usdc quote.net_usdc_in) overflow) c₁ (λ real_usdc.
      let c₂ = record c₁ { real_usdc = real_usdc } in
      or_return (ok_or (u128_checked_add c₂.ticket_supply quote.tickets_out) overflow) c₂
        (λ ticket_supply. (record c₂ { ticket_supply = ticket_supply }, ok tt))))

-- The overwriting of the lot's market and round by those of the round changes nothing.
unfoldable pub apply_fresh_buy :
    RoundState → Side → BuyQuote → ℕ → Name → ℤ → RoundState × CryptoResult PositionLot
apply_fresh_buy round side quote lot_id owner now_ts =
    or_return (validate_live_fresh_buy round now_ts) round (λ live.
      let (c, applied) = apply_buy_to_curve (curve round side) quote in
      let round₁ = set_curve round side c in
      or_return applied round₁ (λ bought.
        (round₁, new_lot lot_id round₁ side owner quote.tickets_out quote.usdc_in now_ts)))

-- The aggregate is written last, so an error leaves it as it was.
unfoldable pub submit_opening_order :
    OpeningAggregate → Name → Amount → Amount → CryptoResult (OpeningAggregate × OpeningOrder)
submit_opening_order aggregate user net_usdc wallet_cap = do
  validate_amount net_usdc
  if ltb wallet_cap net_usdc then err (opening_wallet_cap_exceeded net_usdc wallet_cap) else ok tt
  if aggregate.finalized then err opening_aggregate_already_finalized else ok tt
  total ← ok_or (u128_checked_add aggregate.total_net_usdc net_usdc) overflow
  ok (
    record aggregate { total_net_usdc = total },
    record {
      round_id = aggregate.round_id;
      user = user;
      side = aggregate.side;
      net_usdc = net_usdc;
      claimed = false;
    },
  )

unfoldable pub finalize_opening_side :
    RoundState
    → OpeningAggregate
    → Amount
    → ℤ
    → (RoundState × OpeningAggregate) × CryptoResult BuyQuote
finalize_opening_side round aggregate min_tickets_out now_ts =
    let unchanged : RoundState × OpeningAggregate = (round, aggregate) in
    if ltb_ℤ now_ts round.batch_until
    then (unchanged, err (opening_batch_active now_ts round.batch_until))
    else if aggregate.finalized
    then (unchanged, err opening_aggregate_already_finalized)
    else or_return (validate_amount aggregate.total_net_usdc) unchanged (λ positive.
      let c = curve round aggregate.side in
      let total = aggregate.total_net_usdc in
      or_return (quote_buy_net c total 0 total min_tickets_out) unchanged (λ quote.
        let (c₁, applied) = apply_buy_to_curve c quote in
        let round₁ = set_curve round aggregate.side c₁ in
        or_return applied (round₁, aggregate)
          (λ bought. (
            (round₁, record aggregate { total_tickets_out = quote.tickets_out; finalized = true }),
            ok quote,
          ))))

-- The order is marked before the lot is made.
unfoldable pub claim_opening_order :
    RoundState → OpeningAggregate → OpeningOrder → ℕ → ℤ → OpeningOrder × CryptoResult PositionLot
claim_opening_order round aggregate order lot_id now_ts =
    if not aggregate.finalized
    then (order, err opening_aggregate_not_finalized)
    else if order.claimed
    then (order, err opening_order_already_claimed)
    else if not (side_eq order.side aggregate.side)
    then (order, err opening_side_mismatch)
    else or_return
        (checked_mul_div aggregate.total_tickets_out order.net_usdc aggregate.total_net_usdc) order
        (λ ticket_amount. (
          record order { claimed = true },
          new_lot lot_id round order.side order.user ticket_amount order.net_usdc now_ts,
        ))
