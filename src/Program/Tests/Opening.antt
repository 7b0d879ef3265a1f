-- ===== src/Program/Tests/Opening.antt =====
-- An opening batch from its first order to the lots, and the properties of the batch at it.
use basingamarket.Base.{◌+◌, ◌≤◌, ◌≡◌, [], ◌∷◌, refl, true, false, arith, ok}
use basingamarket.Base.Int.{pos}
use basingamarket.Program.Curve.{quote_buy, apply_buy, curve_for_side}
use basingamarket.Program.Curve.Invariant.{new_curve-IsBalanced}
use basingamarket.Program.Guards.{
  require_not_paused, require_opening_batch, require_settlement_actor,
}
use basingamarket.Program.Lot.{init_lot}
use basingamarket.Program.Math.{mul_div, checked_add, checked_sub}
use basingamarket.Program.Opening.{
  SubmitOpeningOrder, SubmitOpeningOrderArgs, submit_opening_order, init_aggregate,
  FinalizeOpeningSide, finalize_opening_side, finalize_aggregate, ClaimOpeningOrder,
  claim_opening_order,
}
use basingamarket.Program.Opening.Batch.{submit_opening_order_again}
use basingamarket.Program.Opening.Claims.{
  claim_opening_order_any_round, claim_orders, ordered, claim_orders_solvent,
}
use basingamarket.Program.Opening.Finalize.{
  finalize_opening_side_books, MayFinalize, finalize_opening_side_total,
}
use basingamarket.Program.Settlement.Outcome.{gross_vault}
use basingamarket.Program.State.{OpeningOrder, OpeningAggregate, PositionLot, Curve, Side, resolved}
use basingamarket.Program.Tests.Data.{config, market, round, round_account, blank_lot}

abbrev blank_order : OpeningOrder
blank_order = record {
  round = 0;
  user = 0;
  side = Side.up;
  net_usdc = 0;
  claimed = false;
  bump = 0;
}

abbrev blank_aggregate : OpeningAggregate
blank_aggregate = record {
  round = 0;
  side = Side.up;
  total_net_usdc = 0;
  total_tickets_out = 0;
  finalized = false;
}

-- The first order: four of the five dollars that the market allows.
abbrev submission : SubmitOpeningOrder
submission = record {
  global_config = config;
  market_config = market;
  round = round_account;
  aggregate = blank_aggregate;
  opening_order = blank_order;
  user = 1;
}

abbrev args : SubmitOpeningOrderArgs
args = record { side = Side.up; net_usdc = 4000000 }

abbrev aggregate : OpeningAggregate
aggregate = record blank_aggregate { round = 2; total_net_usdc = 4000000 }

abbrev order : OpeningOrder
order = record blank_order { round = 2; user = 1; net_usdc = 4000000 }

abbrev submitted : SubmitOpeningOrder
submitted = record submission { aggregate = aggregate; opening_order = order }

submits : submit_opening_order (pos 105) submission args ≡ ok submitted
unfolding submit_opening_order require_not_paused require_opening_batch init_aggregate checked_add
submits = refl

-- A second order of the same user: eight dollars in all, over the cap of five.
submit_opening_order_again_example :
    (ctx₂ : SubmitOpeningOrder) × (submit_opening_order
        (pos 105)
        (record submitted { opening_order = blank_order })
        args
      ≡ ok ctx₂)
    × (ctx₂.aggregate.total_net_usdc ≡ 4000000 + 4000000)
    × (ctx₂.opening_order ≡ order)
submit_opening_order_again_example =
    submit_opening_order_again (pos 105) submission args blank_order submits (omega arith)
      (omega arith)

-- The end of the batch, in a round that was resolved already.
abbrev late : FinalizeOpeningSide
late = record {
  global_config = config;
  round = record round_account { value = record round { status = resolved } };
  aggregate = record aggregate { total_net_usdc = 8000000 };
  authority = 5;
}

late_actor : require_settlement_actor config 5 ≡ ok tt
unfolding require_settlement_actor
late_actor = refl

late-MayFinalize : MayFinalize (pos 300) 50000000000 100000000000 late
late-MayFinalize = record {
  actor = late_actor;
  due = ground arith;
  used = omega arith;
  same_round = refl;
  unfinalized = refl;
  orders = omega arith;
  books = new_curve-IsBalanced 50000000000 100000000000;
  start = omega arith;
  fits = omega arith;
}

finalize_opening_side_total_example :
    (ctx' : FinalizeOpeningSide) × (finalize_opening_side (pos 300) late ≡ ok ctx')
    × (ctx'.round.value.status ≡ resolved)
    × ((curve_for_side ctx'.round.value Side.up).real_usdc ≡ 0 + 8000000)
finalize_opening_side_total_example =
    finalize_opening_side_total (pos 300) 50000000000 100000000000 late late-MayFinalize

-- The end of the batch in time.
abbrev pub batch : FinalizeOpeningSide
batch = record late { round = round_account }

abbrev curve : Curve
curve = record {
  virtual_usdc = 50008000000;
  virtual_ticket = 99984002559;
  real_usdc = 8000000;
  ticket_supply = 15997441;
}

abbrev finished : FinalizeOpeningSide
finished = record batch {
  round = record round_account { value = record round { up = curve } };
  aggregate = record batch.aggregate { total_tickets_out = 15997441; finalized = true };
}

finishes : finalize_opening_side (pos 110) batch ≡ ok finished
unfolding finalize_opening_side finalize_aggregate require_settlement_actor quote_buy apply_buy
    checked_add checked_sub
finishes = refl

finalize_opening_side_books_example :
    (gross_vault finished.round.value ≡ 0 + 8000000)
    × (15997441 ≡ 0 + 15997441)
    × (finished.round.value.down ≡ round.down)
    × (finished.aggregate.finalized ≡ true)
finalize_opening_side_books_example =
    finalize_opening_side_books (pos 110) batch finishes (omega arith)

-- The claim of the first order.
abbrev claim : ClaimOpeningOrder
claim = record {
  round = finished.round;
  aggregate = finished.aggregate;
  opening_order = order;
  position_lot = blank_lot;
  user = 1;
}

abbrev claimed_lot : PositionLot
claimed_lot = record {
  lot_id = 3;
  round = 2;
  side = Side.up;
  current_owner = 1;
  original_buyer = 1;
  ticket_amount = 7998720;
  usdc_in = 4000000;
  avg_entry_price = 500080;
  listed = false;
  listed_price = 0;
  created_at = pos 111;
  last_transfer_at = pos 111;
  claimed = false;
}

abbrev claimed : ClaimOpeningOrder
claimed = record claim {
  opening_order = record order { claimed = true };
  position_lot = claimed_lot;
}

claims : claim_opening_order (pos 111) claim 3 ≡ ok claimed
unfolding claim_opening_order init_lot mul_div
claims = refl

claim_opening_order_any_round_example :
    claim_opening_order (pos 111) (record claim { opening_order = record order { round = 77 } }) 3
    ≡ ok (record claimed { opening_order = record claimed.opening_order { round = 77 } })
claim_opening_order_any_round_example = claim_opening_order_any_round (pos 111) claim 3 77 claims

both_claimed :
    claim_orders (pos 111) finished.round finished.aggregate blank_lot (order ∷ order ∷ [])
    ≡ ok 15997440
unfolding claim_orders claim_opening_order init_lot mul_div
both_claimed = refl

both_ordered :
    ordered (pos 111) finished.round finished.aggregate blank_lot (order ∷ order ∷ []) ≤ 8000000
unfolding ordered
both_ordered = omega arith

claim_orders_solvent_example : 15997440 ≤ 15997441
claim_orders_solvent_example =
    claim_orders_solvent (pos 111) finished.round finished.aggregate blank_lot (order ∷ order ∷ [])
      both_ordered both_claimed
