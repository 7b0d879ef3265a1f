-- ===== src/Program/Lifecycle/Books.antt =====
-- The books of both curves, in every world that a round reaches.
use basingamarket.Base.{ℕ, ◌+◌, ◌≤◌, ◌≡◌, arith, ok}
use basingamarket.Program.Admin.{OpenRound, OpenRoundArgs, open_round}
use basingamarket.Program.Curve.{curve_for_side, set_curve_for_side}
use basingamarket.Program.Curve.Invariant.{IsBalanced, buy-IsBalanced}
use basingamarket.Program.Lifecycle.{World, Reach, here, next}
use basingamarket.Program.Lifecycle.Effect.{Effect, trade, bonus, settle, keep, Step-Effect}
use basingamarket.Program.State.{Round, Side, Curve}
use basingamarket.Program.Token.{Spl}

-- The books of both curves balance against the market's starting reserves.
pub record BothBalanced (u t : ℕ) (r : Round) : Type 0 where
  pub up : IsBalanced u t r.up
  pub down : IsBalanced u t r.down

curve_for_side-IsBalanced :
    (u t : ℕ) (r : Round) (side : Side)
    → BothBalanced u t r
    → IsBalanced u t (curve_for_side r side)
curve_for_side-IsBalanced u t r Side.up v = v.up
curve_for_side-IsBalanced u t r Side.down v = v.down

set_curve_for_side-BothBalanced :
    (u t : ℕ) (r : Round) (side : Side) (c : Curve)
    → BothBalanced u t r
    → IsBalanced u t c
    → BothBalanced u t (set_curve_for_side r side c)
set_curve_for_side-BothBalanced u t r Side.up c v h = record { up = h; down = v.down }
set_curve_for_side-BothBalanced u t r Side.down c v h = record { up = v.up; down = h }

same_curves-BothBalanced :
    (u t : ℕ) (r r' : Round)
    → r'.up ≡ r.up
    → r'.down ≡ r.down
    → BothBalanced u t r
    → BothBalanced u t r'
same_curves-BothBalanced u t r r' p q v = record { up = rw p v.up; down = rw q v.down }

-- Every effect keeps the books of both curves.
pub Effect-BothBalanced :
    (u t : ℕ) (r r' : Round) → Effect r r' → BothBalanced u t r → BothBalanced u t r'
Effect-BothBalanced u t r r' (trade side net tickets curve q b e) v = rw e (
    set_curve_for_side-BothBalanced u t r side curve v (
      buy-IsBalanced u t net tickets (curve_for_side r side)
        (curve_for_side-IsBalanced u t r side v) q b))
Effect-BothBalanced u t r r' (bonus fee e) v = rw e (record { up = v.up; down = v.down })
Effect-BothBalanced u t r r' (settle s) v = same_curves-BothBalanced u t r r' s.up s.down v
Effect-BothBalanced u t r r' (keep e) v = rw e v

-- A round that was just opened is balanced against its market.
open_round-BothBalanced :
    (ctx : OpenRound) (args : OpenRoundArgs) {r : Round}
    → open_round ctx args ≡ ok r
    → let market = ctx.market_config.value in
      BothBalanced market.virtual_usdc_start market.virtual_ticket_start r
unfolding open_round
open_round-BothBalanced ctx args h = ground arith

module _ {Ledger : Type 0} (spl : Spl Ledger) where
  Reach-BothBalanced :
      (u t : ℕ) {w w' : World Ledger}
      → BothBalanced u t w.round.value
      → Reach spl w w'
      → BothBalanced u t w'.round.value
  Reach-BothBalanced u t v here = v
  Reach-BothBalanced u t v (next r s) =
      Effect-BothBalanced u t _ _ (Step-Effect spl s) (Reach-BothBalanced u t v r)

  -- From the opening of a round on, whatever instructions follow, on each side the tickets sold are
  -- those gone from the virtual reserve, the dollars taken in are those that the virtual reserve has
  -- gained, and no more tickets are sold than the market started with.
  pub Reach-books :
      (ctx : OpenRound) (args : OpenRoundArgs) {w w' : World Ledger} (side : Side)
      → open_round ctx args ≡ ok w.round.value
      → Reach spl w w'
      → let market = ctx.market_config.value in
        let curve = curve_for_side w'.round.value side in
        (curve.virtual_usdc ≡ market.virtual_usdc_start + curve.real_usdc)
        × (curve.virtual_ticket + curve.ticket_supply ≡ market.virtual_ticket_start)
        × (curve.ticket_supply ≤ market.virtual_ticket_start)
  Reach-books ctx args {w} {w'} side h r =
      let v = Reach-BothBalanced _ _ (open_round-BothBalanced ctx args h) r in
      let c = curve_for_side-IsBalanced _ _ w'.round.value side v in
      (c.usdc, c.tickets, omega (arith, c.tickets))
