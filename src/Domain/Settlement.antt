-- ===== src/Domain/Settlement.antt =====
-- Settling and claiming: crates/domain/src/crypto_rounds/settlement.rs. `resolve_round` writes the
-- round through a reference, so it is the round that it leaves, with its result.
pub mod Outcome
pub mod Solvency
pub mod Refunds
use basingamarket.Base.{
  ℕ, Bool, Option, none, some, true, ltb, ◌==◌, ◌||◌, not, ok, err, ok_or, and_then, or_return,
  if◌then◌else◌, ◌>>=◌, ◌>>◌,
}
use basingamarket.Base.Int.{ℤ, pos, ltb_ℤ, leb_ℤ, eqb_ℤ}
use basingamarket.Base.Words.{u128_checked_add, u128_checked_sub, i64_checked_mul}
use basingamarket.Domain.Amounts.{scale, calculate_fee, checked_mul_div, validate_lot_for_round}
use basingamarket.Domain.State.{
  Amount, Side, CryptoResult, MarketStreamConfig, RoundState, PositionLot, ClaimQuote,
  VoidRefundQuote, curve, side_eq, status_eq, opened, closed, resolved, voided, round_not_open,
  round_closed, missing_binance_snapshot, overflow, round_not_active, round_not_resolved,
  round_not_voided, lot_already_claimed, losing_lot, zero_ticket_supply, opening_batch_active,
  opening_batch_closed, round_open_window_not_started, invalid_binance_snapshot_time,
}

unfoldable pub resolve_outcome : Amount → Amount → Option Side
resolve_outcome start_price end_price =
    if ltb start_price end_price
    then some Side.up
    else if ltb end_price start_price
    then some Side.down
    else none

-- Both branches that void the round write this.
abbrev pub voided_round : RoundState → RoundState
voided_round round = record round {
  status = voided;
  winning_side = none;
  settlement_vault = 0;
  payout_per_ticket = 0;
  protocol_vault_amount = 0;
}

-- `ensure_round_active`, whose only error is `RoundNotActive`.
unfoldable pub ensure_round_active : RoundState → MarketStreamConfig → CryptoResult (Unit {0})
ensure_round_active round config =
    if ltb round.up_curve.real_usdc config.min_side_real_usdc
      || ltb round.down_curve.real_usdc config.min_side_real_usdc
    then err (
        round_not_active round.up_curve.real_usdc round.down_curve.real_usdc
          config.min_side_real_usdc)
    else ok tt

-- The winners are paid. The status and the vault are written before the payout rate is computed.
unfoldable pub pay_winners :
    RoundState → MarketStreamConfig → Side → Amount → RoundState × CryptoResult (Option Side)
pay_winners round config winning_side gross_vault =
    or_return (calculate_fee gross_vault config.settlement_fee_bps) round (λ settlement_fee.
      or_return (ok_or (u128_checked_sub gross_vault settlement_fee) overflow) round (λ vault.
        let round₁ = record round {
          status = resolved;
          winning_side = some winning_side;
          settlement_vault = vault;
        } in
        or_return (checked_mul_div vault scale (curve round winning_side).ticket_supply) round₁
          (λ payout. (
            record round₁ { payout_per_ticket = payout; protocol_vault_amount = settlement_fee },
            ok (some winning_side),
          ))))

-- The price moved to `winning_side`, and the round holds `gross_vault`.
unfoldable pub settle_vault :
    RoundState → MarketStreamConfig → Side → Amount → RoundState × CryptoResult (Option Side)
settle_vault round config winning_side gross_vault =
    if (curve round winning_side).ticket_supply == 0
    then (
      record round {
        status = resolved;
        winning_side = some winning_side;
        settlement_vault = 0;
        payout_per_ticket = 0;
        protocol_vault_amount = gross_vault;
      },
      ok (some winning_side),
    )
    else elim (ensure_round_active round config) [
      | err e ↦ (voided_round round, ok none)
      | ok u ↦ pay_winners round config winning_side gross_vault
    ]

unfoldable pub vault_of : RoundState → CryptoResult Amount
vault_of round =
    ok_or
      (and_then (u128_checked_add round.up_curve.real_usdc round.down_curve.real_usdc)
        (λ amount. u128_checked_add amount round.round_bonus_usdc))
      overflow

unfoldable pub settle :
    RoundState → MarketStreamConfig → Side → RoundState × CryptoResult (Option Side)
settle round config winning_side =
    or_return (vault_of round) round (settle_vault round config winning_side)

unfoldable pub resolve_round :
    RoundState → Amount → MarketStreamConfig → RoundState × CryptoResult (Option Side)
resolve_round round end_price config =
    if not (status_eq round.status opened || status_eq round.status closed)
    then (round, err round_not_open)
    else or_return (ok_or round.start_price missing_binance_snapshot) round (λ start_price.
      let round₁ = record round { end_price = some end_price } in
      elim (resolve_outcome start_price end_price) [
        | none ↦ (voided_round round₁, ok none)
        | some winning_side ↦ settle round₁ config winning_side
      ])

unfoldable pub quote_claim : RoundState → PositionLot → CryptoResult ClaimQuote
quote_claim round lot = do
  validate_lot_for_round round lot
  if not (status_eq round.status resolved) then err round_not_resolved else ok tt
  if lot.claimed then err lot_already_claimed else ok tt
  winning_side ← ok_or round.winning_side round_not_resolved
  if not (side_eq lot.side winning_side) then err losing_lot else ok tt
  if (curve round winning_side).ticket_supply == 0 then err zero_ticket_supply else ok tt
  amount ← checked_mul_div lot.ticket_amount round.payout_per_ticket scale
  ok (record {
    side = lot.side;
    ticket_amount = lot.ticket_amount;
    payout_per_ticket = round.payout_per_ticket;
    amount = amount;
  })

unfoldable pub quote_void_refund : RoundState → PositionLot → CryptoResult VoidRefundQuote
quote_void_refund round lot = do
  validate_lot_for_round round lot
  if not (status_eq round.status voided) then err round_not_voided else ok tt
  if lot.claimed then err lot_already_claimed else ok tt
  let c = curve round lot.side
  if c.ticket_supply == 0 then err zero_ticket_supply else ok tt
  refund_per_ticket ← checked_mul_div c.real_usdc scale c.ticket_supply
  amount ← checked_mul_div lot.ticket_amount refund_per_ticket scale
  ok (record {
    side = lot.side;
    ticket_amount = lot.ticket_amount;
    refund_per_ticket = refund_per_ticket;
    amount = amount;
  })

unfoldable pub mark_lot_claimed : PositionLot → CryptoResult PositionLot
mark_lot_claimed lot =
    if lot.claimed then err lot_already_claimed else ok (record lot { claimed = true })

unfoldable pub validate_open_round : RoundState → ℤ → CryptoResult (Unit {0})
validate_open_round round now_ts = do
  if not (status_eq round.status opened) then err round_not_open else ok tt
  if leb_ℤ round.end_at now_ts then err round_closed else ok tt

unfoldable pub validate_live_fresh_buy : RoundState → ℤ → CryptoResult (Unit {0})
validate_live_fresh_buy round now_ts = do
  validate_open_round round now_ts
  if leb_ℤ now_ts round.batch_until
      then err (opening_batch_active now_ts round.batch_until)
      else ok tt

unfoldable pub validate_opening_order_time : RoundState → ℤ → CryptoResult (Unit {0})
validate_opening_order_time round now_ts = do
  if ltb_ℤ now_ts round.start_at
      then err (round_open_window_not_started now_ts round.start_at)
      else ok tt
  if ltb_ℤ round.batch_until now_ts
      then err (opening_batch_closed now_ts round.batch_until)
      else ok tt

unfoldable pub validate_binance_snapshot_time : ℤ → ℤ → CryptoResult (Unit {0})
validate_binance_snapshot_time open_time_ms expected_start_at = do
  expected ← ok_or (i64_checked_mul expected_start_at (pos 1000)) overflow
  if not (eqb_ℤ open_time_ms expected)
      then err (invalid_binance_snapshot_time open_time_ms expected)
      else ok tt
