-- ===== src/Program/Lifecycle/Status.antt =====
-- The status of a round over time.
use basingamarket.Base.{ℕ, ◌≤◌, ◌≡◌, ◌≢◌, ◌⊎◌, arith}
use basingamarket.Program.Lifecycle.{World, Reach, here, next}
use basingamarket.Program.Lifecycle.Effect.{Effect, trade, bonus, settle, keep, Step-Effect}
use basingamarket.Program.State.{Curve, Round, Side, opened}
use basingamarket.Program.Curve.{curve_for_side, set_curve_for_side}
use basingamarket.Program.Curve.Buy.{Bought, apply_buy-Bought}
use basingamarket.Program.Token.{Spl}

-- What time does not change, and what only grows.
pub record Later (r r' : Round) : Type 0 where
  pub market : r'.market ≡ r.market
  pub id : r'.round_id ≡ r.round_id
  pub start : r'.start_at ≡ r.start_at
  pub batch : r'.batch_until ≡ r.batch_until
  pub end : r'.end_at ≡ r.end_at
  pub start_price : r'.start_price ≡ r.start_price
  pub over : (r.status ≡ opened) ⊎ (r'.status ≢ opened)
  pub bonus : r.round_bonus_usdc ≤ r'.round_bonus_usdc
  pub up_sold : r.up.ticket_supply ≤ r'.up.ticket_supply
  pub down_sold : r.down.ticket_supply ≤ r'.down.ticket_supply
  pub up_paid : r.up.real_usdc ≤ r'.up.real_usdc
  pub down_paid : r.down.real_usdc ≤ r'.down.real_usdc

Later-refl : (r : Round) → Later r r
Later-refl r = ground arith

Later-trans : (r s t : Round) → Later r s → Later s t → Later r t
Later-trans r s t a b = ground arith

trade-Later :
    (r : Round) (side : Side) (net tickets : ℕ) (c : Curve)
    → Bought (curve_for_side r side) net tickets c
    → Later r (set_curve_for_side r side c)
trade-Later r Side.up net tickets c b = ground arith
trade-Later r Side.down net tickets c b = ground arith

Effect-Later : (r r' : Round) → Effect r r' → Later r r'
Effect-Later r r' (trade side net tickets curve q b e) =
    rw e (
      trade-Later r side net tickets curve (apply_buy-Bought (curve_for_side r side) net tickets b))
Effect-Later r r' (bonus fee e) = ground arith
Effect-Later r r' (settle s) = ground arith
Effect-Later r r' (keep e) = rw e (Later-refl r)

module _ {Ledger : Type 0} (spl : Spl Ledger) where
  -- Whatever instructions follow, a round keeps its market, its id, its three times (start, end of the
  -- opening batch, end) and its starting price, a round that is no longer open never opens again, and
  -- what was sold, paid in and added to the bonus never shrinks.
  pub Reach-Later : {w w' : World Ledger} → Reach spl w w' → Later w.round.value w'.round.value
  Reach-Later here = Later-refl _
  Reach-Later (next r s) = Later-trans _ _ _ (Reach-Later r) (Effect-Later _ _ (Step-Effect spl s))
