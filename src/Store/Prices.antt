-- ===== src/Store/Prices.antt =====
-- Prices, totals and shares of an amount, in u128 (`entry_price`, `entry_total`, `prorated_amount` and
-- `side_to_outcome_id` of crates/db/src/memory.rs, `entry_total` of memory_settlement.rs).
use basingamarket.Base.{ℕ, [], ◌∷◌, ok, err, ok_or, and_then, bytes_eq, ◌==◌, ◌||◌, if◌then◌else◌}
use basingamarket.Base.Words.{u128_checked_mul, checked_div}
use basingamarket.Store.Key.{Text}
use basingamarket.Store.Rows.Error.{
  DbResult, Message, projection, entry_price_overflow, entry_total_overflow,
  prorated_amount_overflow, invalid_cash_trade_side, settlement_entry_overflow,
}

-- `SCALE` of crates/domain/src/lib.rs
abbrev pub scale : ℕ
scale = 1000000

-- The strings "UP", "DOWN", "active", "cancelled", "filled" and "mint".
abbrev pub up_text : Text
up_text = 85 ∷ 80 ∷ []

abbrev pub down_text : Text
down_text = 68 ∷ 79 ∷ 87 ∷ 78 ∷ []

abbrev pub active_text : Text
active_text = 97 ∷ 99 ∷ 116 ∷ 105 ∷ 118 ∷ 101 ∷ []

abbrev pub cancelled_text : Text
cancelled_text = 99 ∷ 97 ∷ 110 ∷ 99 ∷ 101 ∷ 108 ∷ 108 ∷ 101 ∷ 100 ∷ []

abbrev pub filled_text : Text
filled_text = 102 ∷ 105 ∷ 108 ∷ 108 ∷ 101 ∷ 100 ∷ []

abbrev pub mint_text : Text
mint_text = 109 ∷ 105 ∷ 110 ∷ 116 ∷ []

unfoldable pub side_to_outcome_id : Text → DbResult ℕ
side_to_outcome_id side =
    if bytes_eq side up_text
    then ok 0
    else if bytes_eq side down_text
    then ok 1
    else err (projection invalid_cash_trade_side)

-- `a.checked_mul(b).and_then(|value| value.checked_div(c))`
abbrev pub mul_then_div : ℕ → ℕ → ℕ → Message → DbResult ℕ
mul_then_div a b c message =
    ok_or (and_then (u128_checked_mul a b) (λ value. checked_div value c)) (projection message)

unfoldable pub entry_price : ℕ → ℕ → DbResult ℕ
entry_price usdc tickets =
    if tickets == 0 then ok 0 else mul_then_div usdc scale tickets entry_price_overflow

unfoldable pub entry_total : ℕ → ℕ → DbResult ℕ
entry_total price tickets = mul_then_div price tickets scale entry_total_overflow

unfoldable pub settlement_total : ℕ → ℕ → DbResult ℕ
settlement_total price tickets = mul_then_div price tickets scale settlement_entry_overflow

unfoldable pub prorated_amount : ℕ → ℕ → ℕ → DbResult ℕ
prorated_amount amount numerator denominator =
    if denominator == 0 || numerator == 0 || amount == 0
    then ok 0
    else mul_then_div amount numerator denominator prorated_amount_overflow
