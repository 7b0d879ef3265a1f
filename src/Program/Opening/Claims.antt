-- ===== src/Program/Opening/Claims.antt =====
-- The lots that the orders of a batch are turned into.
use native.Mathlib.Nat.{div-le_of_le-mul, mul-le-mul_right}
use basingamarket.Base.{
  ℕ, ◌+◌, ◌*◌, ◌/◌, ◌≤◌, ◌<◌, ◌≡◌, List, [], ◌∷◌, false, arith, ok, ◌>>=◌, is_ok, >>=-eq-ok,
}
use basingamarket.Base.Int.{ℤ}
use basingamarket.Base.Div.{div-add-le}
use basingamarket.Program.Error.{AnchorResult}
use basingamarket.Program.Lot.{init_lot}
use basingamarket.Program.Math.Exact.{mul_div-eq}
use basingamarket.Program.Opening.{ClaimOpeningOrder, claim_opening_order}
use basingamarket.Program.State.{
  Account, Pubkey, Round, OpeningAggregate, OpeningOrder, PositionLot,
}

-- The order's share of the batch's tickets, rounded down.
abbrev pub share : OpeningAggregate → ℕ → ℕ
share a net = net * a.total_tickets_out / a.total_net_usdc

-- A claimed order becomes a lot of its user with the order's share of the tickets, at least one, and
-- at the order's cost, and the order cannot be claimed again.
pub claim_opening_order_lem :
    (now later : ℤ) (ctx : ClaimOpeningOrder) (id id₂ : ℕ) {ctx' : ClaimOpeningOrder}
    → claim_opening_order now ctx id ≡ ok ctx'
    → (ctx'.position_lot.ticket_amount ≡ share ctx.aggregate ctx.opening_order.net_usdc)
      × (0 < ctx'.position_lot.ticket_amount)
      × (ctx'.position_lot.usdc_in ≡ ctx.opening_order.net_usdc)
      × (ctx'.position_lot.current_owner ≡ ctx.opening_order.user)
      × (ctx'.position_lot.side ≡ ctx.aggregate.side)
      × (is_ok (claim_opening_order later ctx' id₂) ≡ false)
unfolding claim_opening_order init_lot
claim_opening_order_lem now later ctx id id₂ {ctx'} h = ground (
  arith,
  mul_div-eq ctx.opening_order.net_usdc ctx.aggregate.total_tickets_out ctx.aggregate.total_net_usdc
      {q = ctx'.position_lot.ticket_amount},
)

-- A claim does not look at the order's own round: whatever round the order was placed in, the claim
-- goes through with the same lot.
pub claim_opening_order_any_round :
    (now : ℤ) (ctx : ClaimOpeningOrder) (id : ℕ) (placed : Pubkey) {ctx' : ClaimOpeningOrder}
    → claim_opening_order now ctx id ≡ ok ctx'
    → claim_opening_order now
        (record ctx { opening_order = record ctx.opening_order { round = placed } })
        id
      ≡ ok (record ctx' { opening_order = record ctx'.opening_order { round = placed } })
unfolding claim_opening_order init_lot
claim_opening_order_any_round now ctx id placed h = ground arith

module _ (now : ℤ) (round : Account Round) (aggregate : OpeningAggregate)
    (blank : PositionLot) where
  abbrev pub claim_of : OpeningOrder → ClaimOpeningOrder
  claim_of order = record {
    round = round;
    aggregate = aggregate;
    opening_order = order;
    position_lot = blank;
    user = order.user;
  }

  -- Each order is claimed by its user; the sum of the tickets of the new lots.
  unfoldable pub claim_orders : List OpeningOrder → AnchorResult ℕ
  claim_orders [] = ok 0
  claim_orders (order ∷ orders) = do
    claimed ← claim_opening_order now (claim_of order) 0
    rest ← claim_orders orders
    ok (claimed.position_lot.ticket_amount + rest)

  unfoldable pub ordered : List OpeningOrder → ℕ
  ordered [] = 0
  ordered (order ∷ orders) = order.net_usdc + ordered orders

  share-add : (a b : ℕ) → share aggregate a + share aggregate b ≤ share aggregate (a + b)
  share-add a b = grind (
    arith,
    div-add-le (a * aggregate.total_tickets_out) (b * aggregate.total_tickets_out)
        aggregate.total_net_usdc,
  )

  claim_orders-le :
      (orders : List OpeningOrder) {total : ℕ}
      → claim_orders orders ≡ ok total
      → total ≤ share aggregate (ordered orders)
  unfolding claim_orders ordered
  claim_orders-le [] h = ground arith
  claim_orders-le (order ∷ orders) h =
      let (claimed, first, h₁) = >>=-eq-ok (claim_opening_order now (claim_of order) 0) _ h in
      let (rest, others, h₂) = >>=-eq-ok (claim_orders orders) _ h₁ in
      let lot = claim_opening_order_lem now now (claim_of order) 0 0 first in
      let below = claim_orders-le orders others in
      ground (arith, h₂, lot, below, share-add order.net_usdc (ordered orders))

  -- All orders of a batch together are given at most the tickets that were bought for it. The orders
  -- add up to no more than the batch's total.
  pub claim_orders_solvent :
      (orders : List OpeningOrder) {total : ℕ}
      → ordered orders ≤ aggregate.total_net_usdc
      → claim_orders orders ≡ ok total
      → total ≤ aggregate.total_tickets_out
  claim_orders_solvent orders h k = omega (
    arith,
    claim_orders-le orders k,
    div-le_of_le-mul aggregate.total_net_usdc (mul-le-mul_right aggregate.total_tickets_out h),
  )
