-- ===== src/Program/Math/FlipFee.antt =====
-- The fee on an early resale falls with the time that the lot was held.
use native.Mathlib.Nat.{mul-le-mul_left}
use basingamarket.Base.{ℕ, ◌*◌, ◌/◌, ◌≤◌, ◌≡◌, arith, ok}
use basingamarket.Base.Int.{ℤ, ◌≤ℤ◌}
use basingamarket.Base.Words.{u64_max}
use basingamarket.Program.Math.{early_flip_fee, early_flip_fee_bps}
use basingamarket.Program.Math.Exact.{fee_amount_total}

early_flip_fee_bps-le : (t : ℤ) → early_flip_fee_bps t ≤ 500
unfolding early_flip_fee_bps
early_flip_fee_bps-le t = ground arith

early_flip_fee_bps_falls : (s t : ℤ) → s ≤ℤ t → early_flip_fee_bps t ≤ early_flip_fee_bps s
unfolding early_flip_fee_bps
early_flip_fee_bps_falls s t h = ground arith

pub early_flip_fee_total :
    (amount : ℕ) (t : ℤ)
    → amount ≤ u64_max
    → early_flip_fee amount t ≡ ok (amount * early_flip_fee_bps t / 10000)
unfolding early_flip_fee
early_flip_fee_total amount t h =
    (fee_amount_total amount (early_flip_fee_bps t) h (omega (arith, early_flip_fee_bps-le t))).0

-- For every u64 amount the fee is computed, is at most a twentieth, and a longer holding time never
-- raises it.
pub early_flip_fee_falls :
    (amount : ℕ) (s t : ℤ)
    → amount ≤ u64_max
    → s ≤ℤ t
    → (f : ℕ) × (g : ℕ) × (early_flip_fee amount s ≡ ok f)
      × (early_flip_fee amount t ≡ ok g)
      × (g ≤ f)
      × (f * 20 ≤ amount)
early_flip_fee_falls amount s t h st = (
  fee s,
  fee t,
  early_flip_fee_total amount s h,
  early_flip_fee_total amount t h,
  omega (arith, mul-le-mul_left amount (early_flip_fee_bps_falls s t st)),
  omega (arith, mul-le-mul_left amount (early_flip_fee_bps-le s)),
)
  where
    fee : ℤ → ℕ
    fee u = amount * early_flip_fee_bps u / 10000
