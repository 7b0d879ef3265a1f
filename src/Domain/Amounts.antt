-- ===== src/Domain/Amounts.antt =====
-- Checks on amounts and their arithmetic, at the end of types.rs, and `PositionLot::new`.
use basingamarket.Base.{
  ℕ, ltb, ◌==◌, ◌&&◌, not, false, ok, err, guard, ok_or, if◌then◌else◌, ◌>>=◌, ◌>>◌,
}
use basingamarket.Base.Int.{ℤ}
use basingamarket.Base.Words.{u128_checked_mul}
use basingamarket.Domain.State.{
  Amount, Name, Side, CryptoResult, zero_amount, fee_bps_too_high, overflow, lot_round_mismatch,
  RoundState, PositionLot,
}

abbrev pub scale : Amount
scale = 1000000

abbrev pub bps_denominator : Amount
bps_denominator = 10000

unfoldable pub validate_amount : Amount → CryptoResult (Unit {0})
validate_amount amount = if amount == 0 then err zero_amount else ok tt

unfoldable pub validate_fee_bps : ℕ → CryptoResult (Unit {0})
validate_fee_bps fee_bps =
    if ltb bps_denominator fee_bps then err (fee_bps_too_high fee_bps) else ok tt

unfoldable pub checked_mul : Amount → Amount → CryptoResult Amount
checked_mul a b = ok_or (u128_checked_mul a b) overflow

-- A quotient of u128 is one, so the `checked_div` of the source fails on zero only.
unfoldable pub checked_div : Amount → Amount → CryptoResult Amount
checked_div a b =
    if b == 0 then err overflow else ok_or (basingamarket.Base.Words.checked_div a b) overflow

unfoldable pub checked_mul_div : Amount → Amount → Amount → CryptoResult Amount
unfolding checked_mul checked_div
checked_mul_div a b denominator = do product ← checked_mul a b; checked_div product denominator

unfoldable pub calculate_fee : Amount → ℕ → CryptoResult Amount
calculate_fee amount fee_bps = checked_mul_div amount fee_bps bps_denominator

unfoldable pub price_from_reserves : Amount → Amount → CryptoResult Amount
price_from_reserves virtual_usdc virtual_ticket = checked_mul_div virtual_usdc scale virtual_ticket

unfoldable pub validate_lot_for_round : RoundState → PositionLot → CryptoResult (Unit {0})
validate_lot_for_round round lot =
    if round.market_id == lot.market_id && round.round_id == lot.round_id
    then ok tt
    else err lot_round_mismatch

-- `PositionLot::new`
unfoldable pub new_lot :
    ℕ → RoundState → Side → Name → Amount → Amount → ℤ → CryptoResult PositionLot
new_lot lot_id round side owner ticket_amount usdc_in created_at = do
  validate_amount ticket_amount
  validate_amount usdc_in
  avg_entry_price ← checked_mul_div usdc_in scale ticket_amount
  ok (record {
    lot_id = lot_id;
    market_id = round.market_id;
    round_id = round.round_id;
    side = side;
    current_owner = owner;
    original_buyer = owner;
    ticket_amount = ticket_amount;
    usdc_in = usdc_in;
    avg_entry_price = avg_entry_price;
    listed = false;
    listed_price = 0;
    created_at = created_at;
    last_transfer_at = created_at;
    claimed = false;
  })
