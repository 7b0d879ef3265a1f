-- ===== src/Domain/Settlement/Solvency.antt =====
-- What the lots of a settled round may claim together.
use native.Mathlib.Nat.{le_trans, mul-le-mul_right, div-le_of_le-mul}
use basingamarket.Base.{◌+◌, ◌*◌, ◌/◌, ◌≤◌, ◌≡◌, List, [], ◌∷◌, some, arith, ok, ◌>>=◌, >>=-eq-ok}
use basingamarket.Base.Div.{div-add-le}
use basingamarket.Domain.Amounts.{scale}
use basingamarket.Domain.Settlement.{resolve_round, quote_claim}
use basingamarket.Domain.Settlement.Outcome.{checked_mul_div-eq, resolve_round-Settled}
use basingamarket.Domain.State.{
  Amount, Side, CryptoResult, MarketStreamConfig, RoundState, PositionLot, ClaimQuote, curve,
}

-- The amounts that the lots are quoted, added up.
unfoldable pub claim_all : RoundState → List PositionLot → CryptoResult Amount
claim_all round [] = ok 0
claim_all round (lot ∷ lots) = do
  quote ← quote_claim round lot
  rest ← claim_all round lots
  ok (quote.amount + rest)

-- The tickets of the lots on one side.
unfoldable pub tickets_on : Side → PositionLot → Amount
tickets_on Side.up lot = elim lot.side [ Side.up ↦ lot.ticket_amount | Side.down ↦ 0 ]
tickets_on Side.down lot = elim lot.side [ Side.up ↦ 0 | Side.down ↦ lot.ticket_amount ]

unfoldable pub total_on : Side → List PositionLot → Amount
total_on side [] = 0
total_on side (lot ∷ lots) = tickets_on side lot + total_on side lots

quote_claim-share :
    (round : RoundState) (side : Side) (lot : PositionLot) {quote : ClaimQuote}
    → round.winning_side ≡ some side
    → quote_claim round lot ≡ ok quote
    → quote.amount ≡ tickets_on side lot * round.payout_per_ticket / scale
unfolding quote_claim tickets_on
quote_claim-share round side lot {quote} w h =
    ground
      (arith, checked_mul_div-eq lot.ticket_amount round.payout_per_ticket scale {q = quote.amount})

claim_all-le :
    (round : RoundState) (side : Side) (lots : List PositionLot) {total : Amount}
    → round.winning_side ≡ some side
    → claim_all round lots ≡ ok total
    → total ≤ total_on side lots * round.payout_per_ticket / scale
unfolding claim_all total_on
claim_all-le round side [] w h = ground arith
claim_all-le round side (lot ∷ lots) w h =
    let (quote, first, h₁) = >>=-eq-ok (quote_claim round lot) _ h in
    let (rest, others, h₂) = >>=-eq-ok (claim_all round lots) _ h₁ in
    let share = quote_claim-share round side lot w first in
    let below = claim_all-le round side lots w others in
    ground (
      arith,
      h₂,
      share,
      below,
      div-add-le (tickets_on side lot * round.payout_per_ticket)
          (total_on side lots * round.payout_per_ticket) scale,
    )

-- However the winning tickets of a round are spread over lots, the amounts that are quoted for them
-- add up to at most the settlement vault. The lots hold no more winning tickets than were sold.
pub quote_claim_solvent :
    (round : RoundState) (end_price : Amount) (config : MarketStreamConfig) (side : Side)
    (lots : List PositionLot) {round' : RoundState} {total : Amount}
    → resolve_round round end_price config ≡ (round', ok (some side))
    → total_on side lots ≤ (curve round side).ticket_supply
    → claim_all round' lots ≡ ok total
    → total ≤ round'.settlement_vault
quote_claim_solvent round end_price config side lots {round'} h t k =
    let s = resolve_round-Settled round end_price config side h in
    le_trans (claim_all-le round' side lots s.winning k) (
      div-le_of_le-mul scale
        (le_trans (mul-le-mul_right round'.payout_per_ticket t) (omega (arith, s.payout))))
