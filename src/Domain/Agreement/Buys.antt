-- ===== src/Domain/Agreement/Buys.antt =====
-- The program and the services quote and apply the same purchase.
use basingamarket.Base.{ℕ, ◌*◌, ◌/◌, ◌≤◌, ◌<◌, ◌≡◌, arith, ok}
use basingamarket.Domain.Agreement.{curve_of}
use basingamarket.Domain.Amounts.{checked_mul, checked_div, checked_mul_div, price_from_reserves}
use basingamarket.Domain.State.{Amount, BuyQuote}
use basingamarket.Domain.Trading.{quote_buy_net, apply_buy_to_curve, ensure_quote_matches_buy}
use basingamarket.Program.Curve.{quote_buy, apply_buy}
use basingamarket.Program.Math.{checked_add, checked_sub}
use basingamarket.Program.State.{Curve}

quote_of : Curve → Curve → Amount → Amount → Amount → Amount → BuyQuote
quote_of c c' usdc_in fee net tickets = record {
  usdc_in = usdc_in;
  fee = fee;
  net_usdc_in = net;
  tickets_out = tickets;
  old_virtual_usdc = c.virtual_usdc;
  old_virtual_ticket = c.virtual_ticket;
  new_virtual_usdc = c'.virtual_usdc;
  new_virtual_ticket = c'.virtual_ticket;
  price_after = c'.virtual_usdc * 1000000 / c'.virtual_ticket;
}

-- Where the program quotes and applies a purchase that leaves tickets in the reserve, the services
-- quote the same tickets, for any fee and any limit that the tickets reach, and their purchase at that
-- quote leaves the same curve.
pub quote_buy_agrees :
    (c : Curve) (net : Amount) (usdc_in fee min : Amount) {tickets : ℕ} {c' : Curve}
    → quote_buy c net ≡ ok tickets
    → apply_buy c net tickets ≡ ok c'
    → 0 < c'.virtual_ticket
    → min ≤ tickets
    → (q : BuyQuote) × (quote_buy_net (curve_of c) usdc_in fee net min ≡ ok q)
      × (q.tickets_out ≡ tickets)
      × (apply_buy_to_curve (curve_of c) q ≡ (curve_of c', ok tt))
unfolding quote_buy apply_buy checked_add checked_sub quote_of quote_buy_net apply_buy_to_curve
    ensure_quote_matches_buy checked_mul checked_div checked_mul_div price_from_reserves
quote_buy_agrees c net usdc_in fee min {tickets} {c'} h k left enough =
    (quote_of c c' usdc_in fee net tickets, ground arith, ground arith, ground arith)
