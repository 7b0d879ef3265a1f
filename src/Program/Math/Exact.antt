-- ===== src/Program/Math/Exact.antt =====
-- What `mul_div` and `fee_amount` of programs/basingamarket/src/math.rs compute, errors included.
use basingamarket.Base.{ℕ, ◌*◌, ◌/◌, ◌≤◌, ◌<◌, ◌≡◌, arith, ltb, leb, ok, err, if◌then◌else◌}
use basingamarket.Base.Words.{u64_max, mul-le-u128_max}
use basingamarket.Base.Div.{mul-div-le_of_le}
use basingamarket.Program.Error.{market, overflow, zero_amount}
use basingamarket.Program.Math.{fee_amount, mul_div}

-- For u64 operands the wide product never overflows: the result is the rounded quotient, and the
-- only errors are a zero denominator and a quotient that is no u64.
pub mul_div_lem :
    (a n d : ℕ)
    → a ≤ u64_max
    → n ≤ u64_max
    → mul_div a n d ≡ (
        if ltb 0 d
        then if leb (a * n / d) u64_max then ok (a * n / d) else err (market overflow)
        else err (market zero_amount))
unfolding mul_div
mul_div_lem a n d ha hn = ground (arith, mul-le-u128_max a n ha hn)

pub mul_div-eq :
    (a n d : ℕ) {q : ℕ} → mul_div a n d ≡ ok q → (q ≡ a * n / d) × (q ≤ u64_max) × (0 < d)
unfolding mul_div
mul_div-eq a n d h = ground arith

-- A fee of at most 10000 basis points is always computed, as the rounded share, and is at most the
-- amount.
pub fee_amount_total :
    (a bps : ℕ)
    → a ≤ u64_max
    → bps ≤ 10000
    → (fee_amount a bps ≡ ok (a * bps / 10000)) × (a * bps / 10000 ≤ a)
unfolding fee_amount
fee_amount_total a bps ha hb =
    let share : a * bps / 10000 ≤ a = mul-div-le_of_le a bps 10000 hb in
    (ground (arith, mul-le-u128_max a bps ha (omega arith)), share)
