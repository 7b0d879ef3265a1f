-- ===== src/Program/Opening.antt =====
-- The opening batch: `init_aggregate` of programs/basingamarket/src/ops.rs, and the instructions
-- `submit_opening_order`, `finalize_opening_side` and `claim_opening_order` of lib.rs. `now` is the
-- clock.
pub mod Batch
pub mod Finalize
pub mod Claims
use basingamarket.Base.{ℕ, ltb, leb, ◌==◌, ◌&&◌, not, true, false, ok, if◌then◌else◌, ◌>>=◌, ◌>>◌}
use basingamarket.Base.Int.{ℤ, leb_ℤ}
use basingamarket.Program.Curve.{curve_for_side, set_curve_for_side, quote_buy, apply_buy}
use basingamarket.Program.Error.{
  AnchorResult, require, unauthorized, zero_amount, zero_ticket_amount, batch_still_open,
  opening_wallet_cap_exceeded, invalid_opening_aggregate,
}
use basingamarket.Program.Guards.{
  require_not_paused, require_opening_batch, require_settlement_actor,
}
use basingamarket.Program.Lot.{init_lot}
use basingamarket.Program.Math.{mul_div, checked_add}
use basingamarket.Program.State.{
  Pubkey, default_pubkey, Account, GlobalConfig, MarketConfig, Round, OpeningOrder,
  OpeningAggregate, PositionLot, Side, side_eq,
}

unfoldable pub init_aggregate : Pubkey → Side → OpeningAggregate
init_aggregate round side = record {
  round = round;
  side = side;
  total_net_usdc = 0;
  total_tickets_out = 0;
  finalized = false;
}

-- `aggregate` is created by `init_if_needed`, all zero at first; `opening_order` by `init`.
pub record SubmitOpeningOrder : Type 0 where
  pub global_config : GlobalConfig
  pub market_config : MarketConfig
  pub round : Account Round
  pub aggregate : OpeningAggregate
  pub opening_order : OpeningOrder
  pub user : Pubkey

pub record SubmitOpeningOrderArgs : Type 0 where
  pub side : Side
  pub net_usdc : ℕ

-- The aggregate, set up at its first use.
abbrev pub opened_aggregate : SubmitOpeningOrder → Side → OpeningAggregate
opened_aggregate ctx side =
    if ctx.aggregate.round == default_pubkey
    then init_aggregate ctx.round.key side
    else ctx.aggregate

unfoldable pub submit_opening_order :
    ℤ → SubmitOpeningOrder → SubmitOpeningOrderArgs → AnchorResult SubmitOpeningOrder
submit_opening_order now ctx args = do
  require_not_paused ctx.global_config
  require_opening_batch now ctx.round.value
  require (ltb 0 args.net_usdc && leb args.net_usdc ctx.market_config.opening_wallet_side_cap_usdc)
      opening_wallet_cap_exceeded
  let aggregate = opened_aggregate ctx args.side
  require
      (aggregate.round == ctx.round.key
        && side_eq aggregate.side args.side
        && not aggregate.finalized)
      invalid_opening_aggregate
  total ← checked_add aggregate.total_net_usdc args.net_usdc
  ok (record ctx {
    aggregate = record aggregate { total_net_usdc = total };
    opening_order = record {
      round = ctx.round.key;
      user = ctx.user;
      side = args.side;
      net_usdc = args.net_usdc;
      claimed = false;
      bump = 0;
    };
  })

pub record FinalizeOpeningSide : Type 0 where
  pub global_config : GlobalConfig
  pub round : Account Round
  pub aggregate : OpeningAggregate
  pub authority : Pubkey

-- The purchase that `finalize_opening_side` makes for all orders together.
unfoldable pub finalize_aggregate : FinalizeOpeningSide → AnchorResult FinalizeOpeningSide
finalize_aggregate ctx = do
  require (ctx.aggregate.round == ctx.round.key && not ctx.aggregate.finalized)
      invalid_opening_aggregate
  let curve = curve_for_side ctx.round.value ctx.aggregate.side
  quote ← quote_buy curve ctx.aggregate.total_net_usdc
  bought ← apply_buy curve ctx.aggregate.total_net_usdc quote
  ok (record ctx {
    round = record ctx.round {
      value = set_curve_for_side ctx.round.value ctx.aggregate.side bought;
    };
    aggregate = record ctx.aggregate { total_tickets_out = quote; finalized = true };
  })

unfoldable pub finalize_opening_side : ℤ → FinalizeOpeningSide → AnchorResult FinalizeOpeningSide
unfolding finalize_aggregate
finalize_opening_side now ctx = do
  require_settlement_actor ctx.global_config ctx.authority
  require (leb_ℤ ctx.round.value.batch_until now) batch_still_open
  if ctx.aggregate.round == default_pubkey
      then ok (record ctx { aggregate = record ctx.aggregate { finalized = true } })
      else finalize_aggregate ctx

pub record ClaimOpeningOrder : Type 0 where
  pub round : Account Round
  pub aggregate : OpeningAggregate
  pub opening_order : OpeningOrder
  pub position_lot : PositionLot
  pub user : Pubkey

-- `ClaimOpeningOrderArgs` is the id of the new lot.
unfoldable pub claim_opening_order : ℤ → ClaimOpeningOrder → ℕ → AnchorResult ClaimOpeningOrder
claim_opening_order now ctx lot_id = do
  require
      (ctx.aggregate.round == ctx.round.key
        && side_eq ctx.aggregate.side ctx.opening_order.side
        && ctx.aggregate.finalized)
      invalid_opening_aggregate
  require (ctx.opening_order.user == ctx.user && not ctx.opening_order.claimed) unauthorized
  require (ltb 0 ctx.aggregate.total_net_usdc) zero_amount
  tickets ←
      mul_div ctx.opening_order.net_usdc ctx.aggregate.total_tickets_out
        ctx.aggregate.total_net_usdc
  require (ltb 0 tickets) zero_ticket_amount
  lot ← init_lot (record {
    lot_id = lot_id;
    round = ctx.round.key;
    side = ctx.opening_order.side;
    owner = ctx.user;
    ticket_amount = tickets;
    usdc_in = ctx.opening_order.net_usdc;
    now = now;
  })
  ok (record ctx {
    position_lot = lot;
    opening_order = record ctx.opening_order { claimed = true };
  })
