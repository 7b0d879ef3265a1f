-- ===== src/Program/Tests/Lots.antt =====
-- Claims on lots of a settled round, and the properties of claiming at them.
use basingamarket.Base.{◌+◌, ◌≤◌, ◌≡◌, [], ◌∷◌, refl, true, false, arith, ok, is_ok}
use basingamarket.Program.Claims.{ClaimLot, claim_winning_lot, claim_void_lot}
use basingamarket.Program.Claims.Once.{claim_winning_lot_once, claim_winning_lot_any_round}
use basingamarket.Program.Claims.Refunds.{claim_void_lot_solvent}
use basingamarket.Program.Claims.Solvency.{claim_winning_lot_solvent}
use basingamarket.Program.Claims.Sum.{claim_all, tickets_on, total_on}
use basingamarket.Program.Math.{mul_div, fee_amount, checked_add, checked_sub}
use basingamarket.Program.Settlement.{apply_round_resolution, resolve_with_winner, voided_round}
use basingamarket.Program.State.{GlobalConfig, PositionLot, Round, RoundOutcome, Side, resolved}
use basingamarket.Program.Tests.Data.{config, lot, sold_round}

-- 60 tickets on the same side, and 40 on the other one.
abbrev other_lot : PositionLot
other_lot = record lot { lot_id = 2; current_owner = 8; ticket_amount = 60000000 }

abbrev down_lot : PositionLot
down_lot = record lot { lot_id = 3; side = Side.down; ticket_amount = 40000000 }

-- The settled round: 300 dollars less the fee of 3, for 200 tickets.
abbrev won_round : Round
won_round = record sold_round {
  status = resolved;
  winning_side = RoundOutcome.up;
  settlement_vault = 297000000;
  payout_per_ticket = 1485000;
  protocol_vault_amount = 3000000;
}

abbrev charged : GlobalConfig
charged = record config { protocol_fee_accrued_usdc = 3000000 }

won : apply_round_resolution sold_round config 2100 ≡ ok (won_round, charged)
unfolding apply_round_resolution resolve_with_winner fee_amount mul_div checked_add checked_sub
won = refl

-- The claim of the buyer on the settled round, and on the round voided.
abbrev claim : ClaimLot
claim = record { round = won_round; position_lot = lot; owner = 1 }

abbrev refund : ClaimLot
refund = record { round = voided_round sold_round; position_lot = lot; owner = 1 }

abbrev claimed : PositionLot
claimed = record lot { claimed = true }

claim_pays : claim_winning_lot claim ≡ ok (record claim { position_lot = claimed }, 148500000)
unfolding claim_winning_lot mul_div
claim_pays = refl

refund_pays : claim_void_lot refund ≡ ok (record refund { position_lot = claimed }, 75000000)
unfolding claim_void_lot mul_div
refund_pays = refl

-- Two lots of the winning side are paid 148.5 and 89.1 dollars.
both_paid : claim_all claim_winning_lot won_round (lot ∷ other_lot ∷ []) ≡ ok 237600000
unfolding claim_all claim_winning_lot mul_div
both_paid = refl

few_won : total_on Side.up (lot ∷ other_lot ∷ []) ≤ 200000000
unfolding total_on tickets_on
few_won = omega arith

claim_winning_lot_solvent_example : 237600000 ≤ 297000000
claim_winning_lot_solvent_example =
    claim_winning_lot_solvent sold_round config 2100 (lot ∷ other_lot ∷ []) won refl few_won
      both_paid

both_refunded :
    claim_all claim_void_lot (voided_round sold_round) (lot ∷ down_lot ∷ []) ≡ ok 108333333
unfolding claim_all claim_void_lot mul_div
both_refunded = refl

few_up : total_on Side.up (lot ∷ down_lot ∷ []) ≤ 200000000
unfolding total_on tickets_on
few_up = omega arith

few_down : total_on Side.down (lot ∷ down_lot ∷ []) ≤ 180000000
unfolding total_on tickets_on
few_down = omega arith

claim_void_lot_solvent_example : 108333333 ≤ 150000000 + 150000000
claim_void_lot_solvent_example =
    claim_void_lot_solvent (voided_round sold_round) (lot ∷ down_lot ∷ []) few_up few_down
      both_refunded

claim_winning_lot_once_example :
    let again = record claim { position_lot = claimed; round = sold_round; owner = 8 } in
    (is_ok (claim_winning_lot again) ≡ false) × (is_ok (claim_void_lot again) ≡ false)
claim_winning_lot_once_example = claim_winning_lot_once claim sold_round 8 claim_pays

-- The lot of some other round 77 is paid the same.
claim_winning_lot_any_round_example :
    claim_winning_lot (record claim { position_lot = record lot { round = 77 } })
    ≡ ok (record claim { position_lot = record claimed { round = 77 } }, 148500000)
claim_winning_lot_any_round_example = claim_winning_lot_any_round claim 77 claim_pays
