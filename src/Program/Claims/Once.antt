-- ===== src/Program/Claims/Once.antt =====
-- Who may claim a lot, and that a lot is claimed once.
use basingamarket.Base.{ℕ, ◌≡◌, ◌↔◌, true, false, arith, ok, is_ok}
use basingamarket.Program.Claims.{ClaimLot, claim_winning_lot, claim_void_lot}
use basingamarket.Program.Math.{scale, mul_div}
use basingamarket.Program.State.{Pubkey, Round, outcome_of_side, resolved}

-- After a winning lot was claimed, neither claim goes through again for that lot, whoever asks and
-- whatever became of the round.
pub claim_winning_lot_once :
    (ctx : ClaimLot) {after : ClaimLot} {paid : ℕ} (r : Round) (owner : Pubkey)
    → claim_winning_lot ctx ≡ ok (after, paid)
    → let again = record after { round = r; owner = owner } in
      (is_ok (claim_winning_lot again) ≡ false) × (is_ok (claim_void_lot again) ≡ false)
unfolding claim_winning_lot claim_void_lot
claim_winning_lot_once ctx r owner h = ground arith

-- The same after a refund.
pub claim_void_lot_once :
    (ctx : ClaimLot) {after : ClaimLot} {paid : ℕ} (r : Round) (owner : Pubkey)
    → claim_void_lot ctx ≡ ok (after, paid)
    → let again = record after { round = r; owner = owner } in
      (is_ok (claim_winning_lot again) ≡ false) × (is_ok (claim_void_lot again) ≡ false)
unfolding claim_winning_lot claim_void_lot
claim_void_lot_once ctx r owner h = ground arith

-- What a claim on a winning lot needs.
pub record MayClaim (ctx : ClaimLot) : Type 0 where
  pub owner : ctx.position_lot.current_owner ≡ ctx.owner
  pub resolved : ctx.round.status ≡ resolved
  pub unclaimed : ctx.position_lot.claimed ≡ false
  pub won : ctx.round.winning_side ≡ outcome_of_side ctx.position_lot.side
  pub payable :
      is_ok (mul_div ctx.position_lot.ticket_amount ctx.round.payout_per_ticket scale) ≡ true

-- A winning claim goes through exactly for the owner's unclaimed lot of the winning side of a resolved
-- round, if the payout is a u64.
pub claim_winning_lot_iff : (ctx : ClaimLot) → (is_ok (claim_winning_lot ctx) ≡ true) ↔ MayClaim ctx
unfolding claim_winning_lot
claim_winning_lot_iff ctx = ground arith

-- A claim does not look at the lot's round: whatever round the lot was bought in, the claim against
-- this round goes through for the same amount.
pub claim_winning_lot_any_round :
    (ctx : ClaimLot) (bought : Pubkey) {ctx' : ClaimLot} {paid : ℕ}
    → claim_winning_lot ctx ≡ ok (ctx', paid)
    → claim_winning_lot (record ctx { position_lot = record ctx.position_lot { round = bought } })
      ≡ ok (record ctx' { position_lot = record ctx'.position_lot { round = bought } }, paid)
unfolding claim_winning_lot
claim_winning_lot_any_round ctx bought h = ground arith
