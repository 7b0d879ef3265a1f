-- ===== src/Domain/Trading/Quotes.antt =====
-- A quote for a fresh purchase, and the curve after the purchase at it.
use basingamarket.Base.{ℕ, ◌+◌, ◌*◌, ◌/◌, ◌≤◌, ◌<◌, ◌≡◌, arith, ok, err}
use basingamarket.Domain.Amounts.{validate_amount, checked_mul, checked_div}
use basingamarket.Domain.State.{Amount, CurveState, BuyQuote, quote_stale}
use basingamarket.Domain.Trading.{
  quote_buy, quote_buy_net, ensure_quote_matches_buy, apply_buy_to_curve,
}

-- What a quote says of the curve that it was made for.
pub record Quoted (c : CurveState) (usdc_in min_tickets_out : Amount) (q : BuyQuote) : Type 0 where
  pub divided : q.net_usdc_in + q.fee ≡ usdc_in
  pub positive : 0 < q.net_usdc_in
  pub enough : min_tickets_out ≤ q.tickets_out
  pub tickets : q.tickets_out + q.new_virtual_ticket ≡ c.virtual_ticket
  pub usdc : q.new_virtual_usdc ≡ c.virtual_usdc + q.net_usdc_in
  pub reserve :
      q.new_virtual_ticket ≡ c.virtual_usdc * c.virtual_ticket / (c.virtual_usdc + q.net_usdc_in)

quote_buy-Quoted :
    (c : CurveState) (usdc_in : Amount) (bps : ℕ) (min : Amount) {q : BuyQuote}
    → quote_buy c usdc_in bps min ≡ ok q
    → Quoted c usdc_in min q
unfolding quote_buy quote_buy_net validate_amount checked_mul checked_div
quote_buy-Quoted c usdc_in bps min h = ground arith

-- A purchase at a quote moves the curve exactly as quoted: the dollars less the fee come into both
-- dollar reserves, and the quoted tickets, at least the minimum, leave the virtual reserve and are added
-- to the supply. The new virtual reserve of tickets is the old product of the reserves over the new
-- dollar reserve, rounded down. After it the same quote is refused as stale, and the curve stays.
pub apply_buy_to_curve-quote :
    (c : CurveState) (usdc_in : Amount) (bps : ℕ) (min : Amount) {q : BuyQuote} {c' : CurveState}
    → quote_buy c usdc_in bps min ≡ ok q
    → apply_buy_to_curve c q ≡ (c', ok tt)
    → (c'.real_usdc + q.fee ≡ c.real_usdc + usdc_in)
      × (c'.virtual_usdc + c.real_usdc ≡ c.virtual_usdc + c'.real_usdc)
      × (c'.virtual_ticket + q.tickets_out ≡ c.virtual_ticket)
      × (c'.ticket_supply ≡ c.ticket_supply + q.tickets_out)
      × (c'.virtual_ticket ≡ c.virtual_usdc * c.virtual_ticket / c'.virtual_usdc)
      × (min ≤ q.tickets_out)
      × (apply_buy_to_curve c' q ≡ (c', err quote_stale))
unfolding apply_buy_to_curve ensure_quote_matches_buy
apply_buy_to_curve-quote c usdc_in bps min h k =
    let q = quote_buy-Quoted c usdc_in bps min h in
    (
      ground (arith, q),
      ground (arith, q),
      ground (arith, q),
      ground (arith, q),
      ground (arith, q),
      q.enough,
      ground (arith, q),
    )
