-- ===== src/Program/Opening/Finalize.antt =====
-- The purchase that ends the opening batch of a side.
use basingamarket.Base.{ap, ◌∙◌, refl, ℕ, ◌+◌, ◌≤◌, ◌<◌, ◌≡◌, ◌≢◌, true, false, arith, ok}
use basingamarket.Base.Int.{ℤ, ◌≤ℤ◌}
use basingamarket.Base.Words.{u64_max}
use basingamarket.Program.Curve.{curve_for_side, set_curve_for_side, quote_buy, apply_buy}
use basingamarket.Program.Curve.Buy.{apply_buy-Bought}
use basingamarket.Program.Curve.Invariant.{IsBalanced, buy_total}
use basingamarket.Program.Guards.{require_settlement_actor}
use basingamarket.Program.Opening.{FinalizeOpeningSide, finalize_opening_side}
use basingamarket.Program.Settlement.Outcome.{gross_vault}
use basingamarket.Program.State.{Curve, Round, Side, default_pubkey}

-- The curve of the aggregate's side.
abbrev pub side_curve : FinalizeOpeningSide → Curve
side_curve ctx = curve_for_side ctx.round.value ctx.aggregate.side

-- One purchase for the whole batch, on the curve of the batch's side.
pub record Finalized (ctx ctx' : FinalizeOpeningSide) (tickets : ℕ) (curve : Curve) : Type 0 where
  pub quoted : quote_buy (side_curve ctx) ctx.aggregate.total_net_usdc ≡ ok tickets
  pub bought : apply_buy (side_curve ctx) ctx.aggregate.total_net_usdc tickets ≡ ok curve
  pub round :
      ctx'.round
      ≡ record ctx.round { value = set_curve_for_side ctx.round.value ctx.aggregate.side curve }
  pub aggregate :
      ctx'.aggregate ≡ record ctx.aggregate { total_tickets_out = tickets; finalized = true }
  pub unfinalized : ctx.aggregate.finalized ≡ false
  pub same_round : ctx.aggregate.round ≡ ctx.round.key

amounts :
    (now : ℤ) (ctx : FinalizeOpeningSide) {ctx' : FinalizeOpeningSide}
    → finalize_opening_side now ctx ≡ ok ctx'
    → ctx.aggregate.round ≢ default_pubkey
    → (tickets : ℕ) × (curve : Curve) × (quote_buy (side_curve ctx) ctx.aggregate.total_net_usdc
        ≡ ok tickets)
      × (apply_buy (side_curve ctx) ctx.aggregate.total_net_usdc tickets ≡ ok curve)
unfolding finalize_opening_side
amounts now ctx h used = ground arith

amounts-Finalized :
    (now : ℤ) (ctx ctx' : FinalizeOpeningSide) (tickets : ℕ) (curve : Curve)
    → finalize_opening_side now ctx ≡ ok ctx'
    → ctx.aggregate.round ≢ default_pubkey
    → quote_buy (side_curve ctx) ctx.aggregate.total_net_usdc ≡ ok tickets
    → apply_buy (side_curve ctx) ctx.aggregate.total_net_usdc tickets ≡ ok curve
    → Finalized ctx ctx' tickets curve
unfolding finalize_opening_side
amounts-Finalized now ctx ctx' tickets curve h used q b = ground arith

pub finalize_opening_side-Finalized :
    (now : ℤ) (ctx : FinalizeOpeningSide) {ctx' : FinalizeOpeningSide}
    → finalize_opening_side now ctx ≡ ok ctx'
    → ctx.aggregate.round ≢ default_pubkey
    → (tickets : ℕ) × (curve : Curve) × Finalized ctx ctx' tickets curve
finalize_opening_side-Finalized now ctx h used =
    let (tickets, curve, q, b) = amounts now ctx h used in
    (tickets, curve, amounts-Finalized now ctx _ tickets curve h used q b)

-- An aggregate that no order has set up is marked, and the round is left alone.
pub finalize_opening_side_unused :
    (now : ℤ) (ctx : FinalizeOpeningSide) {ctx' : FinalizeOpeningSide}
    → finalize_opening_side now ctx ≡ ok ctx'
    → ctx.aggregate.round ≡ default_pubkey
    → ctx'.round ≡ ctx.round
unfolding finalize_opening_side
finalize_opening_side_unused now ctx h unused = ground arith

-- The other side.
abbrev opposite : Side → Side
opposite Side.up = Side.down
opposite Side.down = Side.up

-- Setting the curve of a side leaves that of the other side.
set_curve-opposite :
    (r : Round) (side : Side) (c : Curve)
    → curve_for_side (set_curve_for_side r side c) (opposite side)
      ≡ curve_for_side r (opposite side)
set_curve-opposite r Side.up c = refl
set_curve-opposite r Side.down c = refl

-- Ending a batch that has orders books all of its dollars to the round, sells on the batch's side as
-- many tickets as the batch records for its orders, leaves the curve of the other side, and marks the
-- batch as ended.
pub finalize_opening_side_books :
    (now : ℤ) (ctx : FinalizeOpeningSide) {ctx' : FinalizeOpeningSide}
    → finalize_opening_side now ctx ≡ ok ctx'
    → ctx.aggregate.round ≢ default_pubkey
    → (gross_vault ctx'.round.value ≡ gross_vault ctx.round.value + ctx.aggregate.total_net_usdc)
      × ((curve_for_side ctx'.round.value ctx.aggregate.side).ticket_supply
          ≡ (side_curve ctx).ticket_supply + ctx'.aggregate.total_tickets_out)
      × (curve_for_side ctx'.round.value (opposite ctx.aggregate.side)
          ≡ curve_for_side ctx.round.value (opposite ctx.aggregate.side))
      × (ctx'.aggregate.finalized ≡ true)
finalize_opening_side_books now ctx {ctx'} h used =
    let (tickets, curve, f) = finalize_opening_side-Finalized now ctx h used in
    let b = apply_buy-Bought (side_curve ctx) _ tickets f.bought in
    (
      ground (arith, f.round, b.real),
      ground (arith, f.round, f.aggregate, b.supply),
      ap (λ round. curve_for_side round.value (opposite ctx.aggregate.side)) f.round
          ∙ set_curve-opposite ctx.round.value ctx.aggregate.side curve,
      ap (λ aggregate. aggregate.finalized) f.aggregate,
    )

-- What the batch of a side needs to be ended.
pub record MayFinalize (now : ℤ) (usdc_start ticket_start : ℕ) (ctx : FinalizeOpeningSide)
    : Type 0 where
  pub actor : require_settlement_actor ctx.global_config ctx.authority ≡ ok tt
  pub due : ctx.round.value.batch_until ≤ℤ now
  pub used : ctx.aggregate.round ≢ default_pubkey
  pub same_round : ctx.aggregate.round ≡ ctx.round.key
  pub unfinalized : ctx.aggregate.finalized ≡ false
  pub orders : 0 < ctx.aggregate.total_net_usdc
  pub books : IsBalanced usdc_start ticket_start (side_curve ctx)
  pub start : ticket_start ≤ u64_max
  pub fits : (side_curve ctx).virtual_usdc + ctx.aggregate.total_net_usdc ≤ u64_max

-- The batch of a side can be ended whatever the status of the round, also after it was resolved or
-- voided: the status stays, and the side's dollars grow by the batch's.
pub finalize_opening_side_total :
    (now : ℤ) (usdc_start ticket_start : ℕ) (ctx : FinalizeOpeningSide)
    → MayFinalize now usdc_start ticket_start ctx
    → (ctx' : FinalizeOpeningSide) × (finalize_opening_side now ctx ≡ ok ctx')
      × (ctx'.round.value.status ≡ ctx.round.value.status)
      × ((curve_for_side ctx'.round.value ctx.aggregate.side).real_usdc
          ≡ (side_curve ctx).real_usdc + ctx.aggregate.total_net_usdc)
unfolding finalize_opening_side
finalize_opening_side_total now u t ctx v =
    let (tickets, curve, q, b) =
      buy_total u t ctx.aggregate.total_net_usdc (side_curve ctx) v.books v.start v.orders v.fits in
    let bought = apply_buy-Bought (side_curve ctx) _ tickets b in
    (
      record ctx {
        round = record ctx.round {
          value = set_curve_for_side ctx.round.value ctx.aggregate.side curve;
        };
        aggregate = record ctx.aggregate { total_tickets_out = tickets; finalized = true };
      },
      ground (arith, q, b),
      ground arith,
      ground (arith, bought.real),
    )
