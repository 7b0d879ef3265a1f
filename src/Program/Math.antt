-- ===== src/Program/Math.antt =====
-- The checked arithmetic of programs/basingamarket/src/math.rs.
pub mod Exact
pub mod FlipFee
use basingamarket.Base.{ℕ, ◌<◌, Bool, arith, ltb, ok_or, and_then, if◌then◌else◌, ◌>>=◌, ◌>>◌}
use basingamarket.Base.Int.{ℤ, pos, ltb_ℤ}
use basingamarket.Base.Words.{
  u64_checked_add, u64_checked_sub, u128_checked_mul, checked_div, u64_try_from, i64_checked_mul,
  i64_checked_sub,
}
use basingamarket.Program.Error.{AnchorResult, market, require, overflow, zero_amount}

abbrev pub bps_denominator : ℕ
bps_denominator = 10000

-- `SCALE` of lib.rs
abbrev pub scale : ℕ
scale = 1000000

unfoldable pub fee_amount : ℕ → ℕ → AnchorResult ℕ
fee_amount amount fee_bps = do
  fee ←
      ok_or
        (and_then (u128_checked_mul amount fee_bps) (λ value. checked_div value bps_denominator))
        (market overflow)
  ok_or (u64_try_from fee) (market overflow)

unfoldable pub early_flip_fee_bps : ℤ → ℕ
early_flip_fee_bps held_seconds =
    if ltb_ℤ held_seconds (pos 10)
    then 500
    else if ltb_ℤ held_seconds (pos 30)
    then 300
    else if ltb_ℤ held_seconds (pos 60)
    then 100
    else 0

unfoldable pub early_flip_fee : ℕ → ℤ → AnchorResult ℕ
early_flip_fee amount held_seconds = fee_amount amount (early_flip_fee_bps held_seconds)

unfoldable pub mul_div : ℕ → ℕ → ℕ → AnchorResult ℕ
mul_div amount numerator denominator = do
  require (ltb 0 denominator) zero_amount
  value ←
      ok_or (and_then (u128_checked_mul amount numerator) (λ value. checked_div value denominator))
        (market overflow)
  ok_or (u64_try_from value) (market overflow)

unfoldable pub checked_add : ℕ → ℕ → AnchorResult ℕ
checked_add left right = ok_or (u64_checked_add left right) (market overflow)

unfoldable pub checked_sub : ℕ → ℕ → AnchorResult ℕ
checked_sub left right = ok_or (u64_checked_sub left right) (market overflow)

unfoldable pub seconds_to_millis : ℤ → AnchorResult ℤ
seconds_to_millis seconds = ok_or (i64_checked_mul seconds (pos 1000)) (market overflow)

unfoldable pub expected_close_time_ms : ℤ → AnchorResult ℤ
expected_close_time_ms end_at = do
  millis ← seconds_to_millis end_at
  ok_or (i64_checked_sub millis (pos 1)) (market overflow)
