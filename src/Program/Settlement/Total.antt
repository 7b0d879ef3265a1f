-- ===== src/Program/Settlement/Total.antt =====
-- When resolving a round cannot fail.
use native.Mathlib.Nat.{div-le_self, mul-le-mul_right, le_trans, sub-le}
use basingamarket.Base.{ℕ, ◌+◌, ◌*◌, ◌≤◌, ◌<◌, ◌≡◌, true, arith, is_ok, ◌-◌, ◌/◌}
use basingamarket.Base.Words.{u64_max}
use basingamarket.Program.Curve.{curve_for_side}
use basingamarket.Program.Math.{scale, checked_add, checked_sub}
use basingamarket.Program.Math.Exact.{fee_amount_total, mul_div_lem}
use basingamarket.Program.Settlement.{
  apply_round_resolution, resolve_with_winner, resolve_without_winner, winner,
}
use basingamarket.Program.Settlement.Outcome.{gross_vault}
use basingamarket.Program.State.{GlobalConfig, Round}

-- The sums that resolving computes stay within a u64.
pub record IsInRange (r : Round) (c : GlobalConfig) : Type 0 where
  pub fee : c.settlement_fee_bps ≤ 10000
  pub scaled : gross_vault r * scale ≤ u64_max
  pub accrued : c.protocol_fee_accrued_usdc + gross_vault r ≤ u64_max

resolve_without_winner_total :
    (r : Round) (c : GlobalConfig) (e : ℕ)
    → IsInRange r c
    → is_ok (resolve_without_winner r c (winner r.start_price e) (gross_vault r)) ≡ true
unfolding resolve_without_winner checked_add
resolve_without_winner_total r c e v = ground arith

module _ (r : Round) (c : GlobalConfig) (v : IsInRange r c) where
  share : ℕ
  share = gross_vault r - gross_vault r * c.settlement_fee_bps / 10000

  share_scaled : share * scale ≤ u64_max
  unfolding share
  share_scaled = le_trans (mul-le-mul_right scale (sub-le (gross_vault r) _)) v.scaled

resolve_with_winner_total :
    (r : Round) (c : GlobalConfig) (e : ℕ)
    → IsInRange r c
    → 0 < (curve_for_side r (winner r.start_price e)).ticket_supply
    → is_ok (resolve_with_winner r c (winner r.start_price e) (gross_vault r)) ≡ true
unfolding resolve_with_winner checked_add checked_sub share
resolve_with_winner_total r c e v h =
    let supply = (curve_for_side r (winner r.start_price e)).ticket_supply in
    let shared = share_scaled r c v in
    ground (
      arith,
      shared,
      fee_amount_total (gross_vault r) c.settlement_fee_bps (omega arith) v.fee,
      mul_div_lem (share r c v) scale supply,
      div-le_self (share r c v * scale) supply,
    )

-- With a fee of at most 10000 basis points, and a vault whose scaled value and whose accrual are u64,
-- a round is resolved at any end price without an error.
pub apply_round_resolution_total :
    (r : Round) (c : GlobalConfig) (e : ℕ)
    → IsInRange r c
    → is_ok (apply_round_resolution r c e) ≡ true
unfolding apply_round_resolution checked_add
apply_round_resolution_total r c e v =
    ground (arith, resolve_without_winner_total r c e v, resolve_with_winner_total r c e v)
