-- ===== src/Domain/Trading/Lost.antt =====
-- An opening order whose share rounds down to nothing.
use basingamarket.Base.{ℕ, ◌*◌, ◌/◌, ◌≤◌, ◌<◌, ◌≡◌, true, false, arith, err}
use basingamarket.Base.Int.{ℤ}
use basingamarket.Base.Words.{u128_max}
use basingamarket.Domain.Amounts.{
  validate_amount, checked_mul_div, checked_mul, checked_div, new_lot,
}
use basingamarket.Domain.State.{
  RoundState, OpeningAggregate, OpeningOrder, zero_amount, opening_order_already_claimed,
}
use basingamarket.Domain.Trading.{claim_opening_order}

-- In a finalized batch on the order's side, an order whose share of the tickets rounds to zero gets an
-- error and no lot, but is marked as claimed: the next claim fails because of the mark. The product of
-- the share is a u128.
pub claim_opening_order_lost :
    (round : RoundState) (aggregate : OpeningAggregate) (order : OpeningOrder) (id id₂ : ℕ)
    (now later : ℤ)
    → aggregate.finalized ≡ true
    → order.claimed ≡ false
    → order.side ≡ aggregate.side
    → 0 < aggregate.total_net_usdc
    → aggregate.total_tickets_out * order.net_usdc ≤ u128_max
    → aggregate.total_tickets_out * order.net_usdc / aggregate.total_net_usdc ≡ 0
    → let marked = record order { claimed = true } in
      (claim_opening_order round aggregate order id now ≡ (marked, err zero_amount))
      × (claim_opening_order round aggregate marked id₂ later
          ≡ (marked, err opening_order_already_claimed))
unfolding claim_opening_order checked_mul_div checked_mul checked_div new_lot validate_amount
claim_opening_order_lost round aggregate order id id₂ now later f u s p fits none = ground arith
