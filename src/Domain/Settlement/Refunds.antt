-- ===== src/Domain/Settlement/Refunds.antt =====
-- What the lots of a voided round may be refunded together.
use native.Mathlib.Nat.{
  le_trans, mul-le-mul_right, div-le_of_le-mul, div-mul-le_self, zero-mul, zero-div,
}
use basingamarket.Base.{◌+◌, ◌*◌, ◌/◌, ◌≤◌, ◌≡◌, List, [], ◌∷◌, arith, ok, ◌>>=◌, >>=-eq-ok}
use basingamarket.Base.Div.{div-add-le}
use basingamarket.Domain.Amounts.{scale}
use basingamarket.Domain.Settlement.{quote_void_refund}
use basingamarket.Domain.Settlement.Outcome.{checked_mul_div-eq}
use basingamarket.Domain.Settlement.Solvency.{tickets_on, total_on}
use basingamarket.Domain.State.{
  Amount, Side, CryptoResult, CurveState, RoundState, PositionLot, VoidRefundQuote, curve,
}

unfoldable pub refund_all : RoundState → List PositionLot → CryptoResult Amount
refund_all round [] = ok 0
refund_all round (lot ∷ lots) = do
  quote ← quote_void_refund round lot
  rest ← refund_all round lots
  ok (quote.amount + rest)

-- What `tickets` of a side are refunded, at the rate for one ticket.
refund : Amount → CurveState → Amount
refund tickets c = tickets * (c.real_usdc * scale / c.ticket_supply) / scale

refund-add : (a b : Amount) (c : CurveState) → refund a c + refund b c ≤ refund (a + b) c
unfolding refund
refund-add a b c = grind (
  arith,
  div-add-le (a * (c.real_usdc * scale / c.ticket_supply))
      (b * (c.real_usdc * scale / c.ticket_supply)) scale,
)

refund-le : (t : Amount) (c : CurveState) → t ≤ c.ticket_supply → refund t c ≤ c.real_usdc
unfolding refund
refund-le t c h =
    let rate : Amount = c.real_usdc * scale / c.ticket_supply in
    div-le_of_le-mul scale (
      le_trans (mul-le-mul_right rate h)
        (omega (arith, div-mul-le_self (c.real_usdc * scale) c.ticket_supply)))

quote_void_refund-share :
    (round : RoundState) (lot : PositionLot) {quote : VoidRefundQuote}
    → quote_void_refund round lot ≡ ok quote
    → quote.amount
      ≡ refund (tickets_on Side.up lot) round.up_curve
        + refund (tickets_on Side.down lot) round.down_curve
unfolding quote_void_refund tickets_on refund
quote_void_refund-share round lot {quote} h =
    let c = curve round lot.side in
    ground (
      arith,
      zero-mul (round.up_curve.real_usdc * scale / round.up_curve.ticket_supply),
      zero-mul (round.down_curve.real_usdc * scale / round.down_curve.ticket_supply),
      zero-div scale,
      checked_mul_div-eq c.real_usdc scale c.ticket_supply {q = quote.refund_per_ticket},
      checked_mul_div-eq lot.ticket_amount quote.refund_per_ticket scale {q = quote.amount},
    )

refund_all-le :
    (round : RoundState) (lots : List PositionLot) {total : Amount}
    → refund_all round lots ≡ ok total
    → total
      ≤ refund (total_on Side.up lots) round.up_curve
        + refund (total_on Side.down lots) round.down_curve
unfolding refund_all total_on
refund_all-le round [] h = ground arith
refund_all-le round (lot ∷ lots) h =
    let (quote, first, h₁) = >>=-eq-ok (quote_void_refund round lot) _ h in
    let (rest, others, h₂) = >>=-eq-ok (refund_all round lots) _ h₁ in
    let share = quote_void_refund-share round lot first in
    let below = refund_all-le round lots others in
    ground (
      arith,
      h₂,
      share,
      below,
      refund-add (tickets_on Side.up lot) (total_on Side.up lots) round.up_curve,
      refund-add (tickets_on Side.down lot) (total_on Side.down lots) round.down_curve,
    )

-- However the tickets of a voided round are spread over lots, the refunds that are quoted for them add
-- up to at most what the two sides took in. The lots hold no more tickets of a side than were sold.
pub quote_void_refund_solvent :
    (round : RoundState) (lots : List PositionLot) {total : Amount}
    → total_on Side.up lots ≤ round.up_curve.ticket_supply
    → total_on Side.down lots ≤ round.down_curve.ticket_supply
    → refund_all round lots ≡ ok total
    → total ≤ round.up_curve.real_usdc + round.down_curve.real_usdc
quote_void_refund_solvent round lots u d h = omega (
  arith,
  refund_all-le round lots h,
  refund-le _ round.up_curve u,
  refund-le _ round.down_curve d,
)
