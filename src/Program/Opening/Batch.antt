-- ===== src/Program/Opening/Batch.antt =====
-- Orders of the opening batch, and the purchase for all of them.
use basingamarket.Base.{◌+◌, ◌≤◌, ◌<◌, ◌≡◌, ◌≢◌, false, arith, ok}
use basingamarket.Base.Int.{ℤ, ◌≤ℤ◌}
use basingamarket.Base.Words.{u64_max}
use basingamarket.Program.Guards.{require_opening_batch}
use basingamarket.Program.Math.{checked_add}
use basingamarket.Program.Opening.{
  SubmitOpeningOrder, SubmitOpeningOrderArgs, submit_opening_order, opened_aggregate,
  init_aggregate,
}
use basingamarket.Program.State.{default_pubkey, OpeningOrder, opened}

-- What the acceptance of an order says of the order, the round and the aggregate.
pub record Accepted (now : ℤ) (ctx : SubmitOpeningOrder) (args : SubmitOpeningOrderArgs)
    (ctx' : SubmitOpeningOrder) : Type 0 where
  pub positive : 0 < args.net_usdc
  pub capped : args.net_usdc ≤ ctx.market_config.opening_wallet_side_cap_usdc
  pub is_open : ctx.round.value.status ≡ opened
  pub in_time : now ≤ℤ ctx.round.value.batch_until
  pub open_batch : ctx'.aggregate.finalized ≡ false
  pub same_round : ctx'.aggregate.round ≡ ctx.round.key
  pub same_side : ctx'.aggregate.side ≡ args.side
  pub total :
      ctx'.aggregate.total_net_usdc
      ≡ (opened_aggregate ctx args.side).total_net_usdc + args.net_usdc
  pub amount : ctx'.opening_order.net_usdc ≡ args.net_usdc
  pub order_side : ctx'.opening_order.side ≡ args.side
  pub user : ctx'.opening_order.user ≡ ctx.user
  pub unclaimed : ctx'.opening_order.claimed ≡ false

-- An order that was accepted lies within the cap and the batch's time, adds exactly its amount to the
-- side's total, and is recorded for its user, unclaimed.
pub submit_opening_order-Accepted :
    (now : ℤ) (ctx : SubmitOpeningOrder) (args : SubmitOpeningOrderArgs) {ctx' : SubmitOpeningOrder}
    → submit_opening_order now ctx args ≡ ok ctx'
    → Accepted now ctx args ctx'
unfolding submit_opening_order require_opening_batch init_aggregate checked_add
submit_opening_order-Accepted now ctx args h = ground arith

-- The cap is on each order, not on a wallet: after an accepted order the same user's next order of the
-- same amount is accepted too, in a new order account, and the side's total holds both. The total
-- stays a u64, and the round's key is not the default key.
pub submit_opening_order_again :
    (now : ℤ) (ctx : SubmitOpeningOrder) (args : SubmitOpeningOrderArgs) (fresh : OpeningOrder)
    {ctx' : SubmitOpeningOrder}
    → submit_opening_order now ctx args ≡ ok ctx'
    → ctx'.aggregate.total_net_usdc + args.net_usdc ≤ u64_max
    → ctx.round.key ≢ default_pubkey
    → (ctx₂ : SubmitOpeningOrder) × (submit_opening_order now
          (record ctx' { opening_order = fresh })
          args
        ≡ ok ctx₂)
      × (ctx₂.aggregate.total_net_usdc ≡ ctx'.aggregate.total_net_usdc + args.net_usdc)
      × (ctx₂.opening_order ≡ ctx'.opening_order)
unfolding submit_opening_order require_opening_batch init_aggregate checked_add
submit_opening_order_again now ctx args fresh {ctx'} h fits key = (
  record ctx' {
    aggregate = record ctx'.aggregate {
      total_net_usdc = ctx'.aggregate.total_net_usdc + args.net_usdc;
    };
  },
  ground arith,
  ground arith,
  ground arith,
)
