-- ===== src/Program/Claims/Solvency.antt =====
-- The payouts of a resolved round never add up to more than its settlement vault.
use native.Mathlib.Nat.{le_trans, mul-le-mul_right, div-le_of_le-mul}
use basingamarket.Base.{ℕ, ◌*◌, ◌/◌, ◌≤◌, ◌≡◌, List, [], ◌∷◌, arith, ok, inl, inr}
use basingamarket.Program.Claims.{ClaimLot, claim_winning_lot}
use basingamarket.Program.Curve.{curve_for_side}
use basingamarket.Program.Math.{scale}
use basingamarket.Program.Math.Exact.{mul_div-eq}
use basingamarket.Program.Settlement.{apply_round_resolution, winner}
use basingamarket.Program.Settlement.Outcome.{apply_round_resolution_outcome}
use basingamarket.Program.State.{resolved, GlobalConfig, Round, PositionLot, Side, outcome_of_side}
use basingamarket.Program.Claims.Sum.{claim_all, tickets_on, total_on, share-add, claim_all-cons}

claimed_share :
    (r : Round) (side : Side) (lot : PositionLot) {after : ClaimLot} {paid : ℕ}
    → r.winning_side ≡ outcome_of_side side
    → claim_winning_lot (record { round = r; position_lot = lot; owner = lot.current_owner })
      ≡ ok (after, paid)
    → paid ≡ tickets_on side lot * r.payout_per_ticket / scale
unfolding claim_winning_lot tickets_on
claimed_share r side lot {after} {paid} w h =
    ground (arith, mul_div-eq lot.ticket_amount r.payout_per_ticket scale {q = paid})

claim_all-le :
    (r : Round) (side : Side) (lots : List PositionLot) {total : ℕ}
    → r.winning_side ≡ outcome_of_side side
    → claim_all claim_winning_lot r lots ≡ ok total
    → total ≤ total_on side lots * r.payout_per_ticket / scale
unfolding claim_all total_on
claim_all-le r side [] w h = ground arith
claim_all-le r side (lot ∷ lots) {total} w h =
    let (after, paid, rest, e, e₁, sum) = claim_all-cons claim_winning_lot r lot lots h in
    let first = claimed_share r side lot w e in
    let others = claim_all-le r side lots w e₁ in
    omega (
      arith,
      first,
      others,
      sum,
      share-add (tickets_on side lot) (total_on side lots) r.payout_per_ticket scale,
    )

-- A payout rate that was computed from the vault: all tickets together are worth at most the vault.
rate-le :
    (t supply vault payout : ℕ)
    → t ≤ supply
    → payout * supply ≤ vault * scale
    → t * payout / scale ≤ vault
rate-le t supply vault payout h k =
    div-le_of_le-mul scale (le_trans (mul-le-mul_right payout h) (omega (arith, k)))

-- However the winning tickets of a round are spread over lots, the payouts of all claims together are
-- at most the settlement vault that resolving set aside. The lots hold no more winning tickets than
-- were sold.
pub claim_winning_lot_solvent :
    (r : Round) (c : GlobalConfig) (e : ℕ) (lots : List PositionLot) {r' : Round}
    {c' : GlobalConfig} {total : ℕ}
    → apply_round_resolution r c e ≡ ok (r', c')
    → r'.status ≡ resolved
    → total_on (winner r.start_price e) lots
      ≤ (curve_for_side r (winner r.start_price e)).ticket_supply
    → claim_all claim_winning_lot r' lots ≡ ok total
    → total ≤ r'.settlement_vault
claim_winning_lot_solvent r c e lots {r'} h s t k = elim (apply_round_resolution_outcome r c e h) [
  | inl d ↦
      le_trans (claim_all-le r' (winner r.start_price e) lots d.winning k)
        (rate-le _ _ _ _ t d.payout)
  | inr d ↦ absurd (ground (arith, s, d.1))
]
