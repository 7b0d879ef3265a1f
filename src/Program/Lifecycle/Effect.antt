-- ===== src/Program/Lifecycle/Effect.antt =====
-- What one instruction can do to a round: each step is one of four effects.
use basingamarket.Base.{ℕ, ◌+◌, ◌≡◌, ◌==◌, inl, inr, refl, ap, arith, ok, Bool-cases}
use basingamarket.Base.Int.{ℤ}
use basingamarket.Program.Curve.{curve_for_side, set_curve_for_side, quote_buy, apply_buy}
use basingamarket.Program.FreshBuy.Purchase.{execute_fresh_buy-Purchase}
use basingamarket.Program.Lifecycle.{
  World, Step, fresh_buy, resale, opening, close, resolve, cancel, mint, withdraw, settlement_of,
}
use basingamarket.Program.Opening.{FinalizeOpeningSide, finalize_opening_side}
use basingamarket.Program.Opening.Finalize.{
  finalize_opening_side-Finalized, finalize_opening_side_unused,
}
use basingamarket.Program.Secondary.Balances.{execute_secondary_fee_transfers-Charged}
use basingamarket.Program.Settlement.Frame.{
  SameTrading, close_round-SameTrading, resolve_round-SameTrading, void_round-SameTrading,
}
use basingamarket.Program.State.{Curve, Round, Side, default_pubkey}
use basingamarket.Program.Token.{Spl}

-- A purchase at the quoted price, an early fee, a change of status, or nothing.
pub data Effect (r r' : Round) : Type 0 where
  trade :
      (side : Side) (net tickets : ℕ) (curve : Curve)
      → quote_buy (curve_for_side r side) net ≡ ok tickets
      → apply_buy (curve_for_side r side) net tickets ≡ ok curve
      → r' ≡ set_curve_for_side r side curve
      → Effect r r'
  bonus : (fee : ℕ) → r' ≡ record r { round_bonus_usdc = r.round_bonus_usdc + fee } → Effect r r'
  settle : SameTrading r r' → Effect r r'
  keep : r' ≡ r → Effect r r'

finalize_opening_side-Effect :
    (now : ℤ) (ctx : FinalizeOpeningSide) {ctx' : FinalizeOpeningSide}
    → finalize_opening_side now ctx ≡ ok ctx'
    → Effect ctx.round.value ctx'.round.value
finalize_opening_side-Effect now ctx {ctx'} h =
    elim (Bool-cases (ctx.aggregate.round == default_pubkey)) [
      | inl unused ↦
          keep (ap (λ a. a.value) (finalize_opening_side_unused now ctx h (ground (arith, unused))))
      | inr used ↦
          let (tickets, curve, f) =
            finalize_opening_side-Finalized now ctx h (ground (arith, used)) in
          trade ctx.aggregate.side ctx.aggregate.total_net_usdc tickets curve f.quoted f.bought
            (ap (λ a. a.value) f.round)
    ]

module _ {Ledger : Type 0} (spl : Spl Ledger) where
  pub Step-Effect : {w w' : World Ledger} → Step spl w w' → Effect w.round.value w'.round.value
  Step-Effect (fresh_buy now ctx ctx' p h q) =
      let (fee, net, tickets, curve, b) = execute_fresh_buy-Purchase spl now ctx h in
      rw (p, q) (trade ctx.side net tickets curve b.quoted b.bought (ap (λ a. a.value) b.round))
  Step-Effect (resale ctx ctx' p h q) =
      let (resale_fee, early_fee, c) = execute_secondary_fee_transfers-Charged spl ctx h in
      rw (p, q) (bonus early_fee (ap (λ a. a.value) c.round))
  Step-Effect (opening now ctx ctx' p h q) = rw (p, q) (finalize_opening_side-Effect now ctx h)
  Step-Effect {w} (close now authority s h q) =
      rw q (settle (close_round-SameTrading now (settlement_of w authority) h))
  Step-Effect {w} (resolve now authority args s h q) =
      rw q (settle (resolve_round-SameTrading now (settlement_of w authority) args h))
  Step-Effect {w} (cancel authority args s h q) =
      rw q (settle (void_round-SameTrading (settlement_of w authority) args h))
  Step-Effect (mint admin usdc_mint c h q) = rw q (keep refl)
  Step-Effect (withdraw admin c h q) = rw q (keep refl)
