-- ===== src/Program/Claims/Refunds.antt =====
-- The refunds of a voided round never add up to more than its two sides have taken in.
use native.Mathlib.Nat.{div-le_of_le-mul, mul-le-mul_right, zero-div, zero-mul}
use basingamarket.Base.{ℕ, ◌+◌, ◌*◌, ◌/◌, ◌≤◌, ◌≡◌, List, [], ◌∷◌, arith, ok}
use basingamarket.Program.Claims.{ClaimLot, claim_void_lot}
use basingamarket.Program.Claims.Sum.{claim_all, tickets_on, total_on, share-add, claim_all-cons}
use basingamarket.Program.Curve.{curve_for_side}
use basingamarket.Program.Math.{mul_div}
use basingamarket.Program.Math.Exact.{mul_div-eq}
use basingamarket.Program.State.{Curve, Round, PositionLot, Side}

-- What `tickets` of a side are worth when the side's dollars are shared out.
refund : ℕ → Curve → ℕ
refund tickets curve = tickets * curve.real_usdc / curve.ticket_supply

refund-zero : (c : Curve) → refund 0 c ≡ 0
unfolding refund
refund-zero c = rw zero-mul (zero-div c.ticket_supply)

refund-le : (tickets : ℕ) (c : Curve) → tickets ≤ c.ticket_supply → refund tickets c ≤ c.real_usdc
unfolding refund
refund-le tickets c h = div-le_of_le-mul c.ticket_supply (mul-le-mul_right c.real_usdc h)

refund-add : (a b : ℕ) (c : Curve) → refund a c + refund b c ≤ refund (a + b) c
unfolding refund
refund-add a b c = share-add a b c.real_usdc c.ticket_supply

mul_div-refund :
    (tickets : ℕ) (c : Curve) {q : ℕ}
    → mul_div tickets c.real_usdc c.ticket_supply ≡ ok q
    → q ≡ refund tickets c
unfolding refund
mul_div-refund tickets c h = (mul_div-eq tickets c.real_usdc c.ticket_supply h).0

refunded_share :
    (r : Round) (lot : PositionLot) {after : ClaimLot} {paid : ℕ}
    → claim_void_lot (record { round = r; position_lot = lot; owner = lot.current_owner })
      ≡ ok (after, paid)
    → paid ≡ refund (tickets_on Side.up lot) r.up + refund (tickets_on Side.down lot) r.down
unfolding claim_void_lot tickets_on
refunded_share r lot {paid = paid} h =
    let curve = curve_for_side r lot.side in
    ground (
      arith,
      refund-zero r.up,
      refund-zero r.down,
      mul_div-refund lot.ticket_amount curve {q = paid},
    )

claim_all-le :
    (r : Round) (lots : List PositionLot) {total : ℕ}
    → claim_all claim_void_lot r lots ≡ ok total
    → total ≤ refund (total_on Side.up lots) r.up + refund (total_on Side.down lots) r.down
unfolding claim_all total_on
claim_all-le r [] h = ground arith
claim_all-le r (lot ∷ lots) h =
    let (after, paid, rest, e, e₁, sum) = claim_all-cons claim_void_lot r lot lots h in
    omega (
      arith,
      refunded_share r lot e,
      claim_all-le r lots e₁,
      sum,
      refund-add (tickets_on Side.up lot) (total_on Side.up lots) r.up,
      refund-add (tickets_on Side.down lot) (total_on Side.down lots) r.down,
    )

-- However the tickets of a round are spread over lots, the refunds of all claims together are at most
-- what the two sides took in. The lots hold no more tickets of a side than were sold.
pub claim_void_lot_solvent :
    (r : Round) (lots : List PositionLot) {total : ℕ}
    → total_on Side.up lots ≤ r.up.ticket_supply
    → total_on Side.down lots ≤ r.down.ticket_supply
    → claim_all claim_void_lot r lots ≡ ok total
    → total ≤ r.up.real_usdc + r.down.real_usdc
claim_void_lot_solvent r lots u d h =
    omega (arith, claim_all-le r lots h, refund-le _ r.up u, refund-le _ r.down d)
