-- ===== src/Program/Claims.antt =====
-- Claims after settlement: `claim_winning_lot` and `claim_void_lot` of
-- programs/basingamarket/src/lib.rs. The program computes the amount and marks the lot; the amount
-- is the second component of the result here, where the source binds it to `_payout` or `_refund`.
pub mod Once
pub mod Sum
pub mod Solvency
pub mod Refunds
use basingamarket.Base.{ℕ, ltb, true, not, ok, ◌>>=◌, ◌>>◌}
use basingamarket.Program.Curve.{curve_for_side}
use basingamarket.Program.Error.{
  AnchorResult, require, round_not_resolved, round_not_voided, already_claimed, losing_lot,
  zero_ticket_amount,
}
use basingamarket.Program.Guards.{require_lot_owner}
use basingamarket.Program.Math.{scale, mul_div}
use basingamarket.Program.State.{
  Pubkey, Round, PositionLot, status_eq, outcome_eq, outcome_of_side, resolved, voided,
}

-- The accounts of `ClaimLot`; `owner` is the signer's key.
pub record ClaimLot : Type 0 where
  pub round : Round
  pub position_lot : PositionLot
  pub owner : Pubkey

unfoldable pub claim_winning_lot : ClaimLot → AnchorResult (ClaimLot × ℕ)
unfolding require_lot_owner
claim_winning_lot ctx = do
  require_lot_owner ctx.position_lot ctx.owner
  require (status_eq ctx.round.status resolved) round_not_resolved
  require (not ctx.position_lot.claimed) already_claimed
  require (outcome_eq ctx.round.winning_side (outcome_of_side ctx.position_lot.side)) losing_lot
  payout ← mul_div ctx.position_lot.ticket_amount ctx.round.payout_per_ticket scale
  ok (record ctx { position_lot = record ctx.position_lot { claimed = true } }, payout)

unfoldable pub claim_void_lot : ClaimLot → AnchorResult (ClaimLot × ℕ)
unfolding require_lot_owner
claim_void_lot ctx = do
  require_lot_owner ctx.position_lot ctx.owner
  require (status_eq ctx.round.status voided) round_not_voided
  require (not ctx.position_lot.claimed) already_claimed
  let curve = curve_for_side ctx.round ctx.position_lot.side
  require (ltb 0 curve.ticket_supply) zero_ticket_amount
  refund ← mul_div ctx.position_lot.ticket_amount curve.real_usdc curve.ticket_supply
  ok (record ctx { position_lot = record ctx.position_lot { claimed = true } }, refund)
