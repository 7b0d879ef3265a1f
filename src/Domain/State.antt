-- ===== src/Domain/State.antt =====
-- The types of crates/domain/src/crypto_rounds/types.rs. Amounts are u128, times i64, and a user's
-- name is the bytes of its string.
use basingamarket.Base.{ℕ, Bool, List, Option, true, false, Result, ok, err, ◌==◌, if◌then◌else◌}
use basingamarket.Base.Int.{ℤ}

abbrev pub Amount : Type 0
Amount = ℕ

abbrev pub Name : Type 0
Name = List ℕ

pub data Asset : Type 0 where
  btc eth sol xrp doge : Asset

pub data Side : Type 0 where
  up down : Side

-- `RoundStatus::Open` is `opened`.
pub data RoundStatus : Type 0 where
  opened closed resolved voided : RoundStatus

abbrev pub side_eq : Side → Side → Bool
side_eq Side.up Side.up = true
side_eq Side.down Side.down = true
side_eq _ _ = false

abbrev pub status_eq : RoundStatus → RoundStatus → Bool
status_eq opened opened = true
status_eq closed closed = true
status_eq resolved resolved = true
status_eq voided voided = true
status_eq _ _ = false

pub data CryptoRoundError : Type 0 where
  zero_amount : CryptoRoundError
  fee_bps_too_high : (fee_bps : ℕ) → CryptoRoundError
  slippage_exceeded : (actual minimum : Amount) → CryptoRoundError
  round_not_open round_not_resolved round_not_voided round_closed : CryptoRoundError
  opening_batch_active : (now_ts batch_until : ℤ) → CryptoRoundError
  opening_batch_closed : (now_ts batch_until : ℤ) → CryptoRoundError
  opening_aggregate_already_finalized opening_aggregate_not_finalized : CryptoRoundError
  opening_order_already_claimed opening_side_mismatch : CryptoRoundError
  opening_wallet_cap_exceeded : (amount cap : Amount) → CryptoRoundError
  lot_already_claimed losing_lot lot_round_mismatch lot_not_listed : CryptoRoundError
  lot_already_listed : CryptoRoundError
  listed_price_exceeds_max : (listed_price max_price : Amount) → CryptoRoundError
  buyer_is_seller zero_ticket_supply quote_stale invalid_duration : CryptoRoundError
  unsupported_settlement_duration : (duration_seconds : ℕ) → CryptoRoundError
  invalid_timestamp : CryptoRoundError
  round_open_window_not_started : (now_ts start_at : ℤ) → CryptoRoundError
  round_open_window_expired : (now_ts latest_open_ts : ℤ) → CryptoRoundError
  resolve_too_early : (now_ts earliest_resolve_ts : ℤ) → CryptoRoundError
  missing_binance_snapshot : CryptoRoundError
  invalid_binance_snapshot_time : (open_time_ms expected_open_time_ms : ℤ) → CryptoRoundError
  round_not_active : (up_real_usdc down_real_usdc minimum : Amount) → CryptoRoundError
  overflow : CryptoRoundError

abbrev pub CryptoResult {ℓ} : Type ℓ → Type ℓ
CryptoResult A = Result CryptoRoundError A

pub record CurveState : Type 0 where
  pub virtual_usdc : Amount
  pub virtual_ticket : Amount
  pub real_usdc : Amount
  pub ticket_supply : Amount

pub data BinanceSpotSymbol : Type 0 where
  btc_usdt eth_usdt sol_usdt xrp_usdt doge_usdt : BinanceSpotSymbol

-- `BinanceSpotSymbol::for_asset`
unfoldable pub for_asset : Asset → BinanceSpotSymbol
for_asset btc = btc_usdt
for_asset eth = eth_usdt
for_asset sol = sol_usdt
for_asset xrp = xrp_usdt
for_asset doge = doge_usdt

pub data SettlementInterval : Type 0 where
  one_minute five_minutes fifteen_minutes : SettlementInterval

-- `SettlementInterval::from_duration_seconds` and `SettlementInterval::duration_seconds`
unfoldable pub from_duration_seconds : ℕ → CryptoResult SettlementInterval
from_duration_seconds duration_seconds =
    if duration_seconds == 60
    then ok one_minute
    else if duration_seconds == 300
    then ok five_minutes
    else if duration_seconds == 900
    then ok fifteen_minutes
    else err (unsupported_settlement_duration duration_seconds)

unfoldable pub interval_seconds : SettlementInterval → ℕ
interval_seconds one_minute = 60
interval_seconds five_minutes = 300
interval_seconds fifteen_minutes = 900

pub data SettlementSource : Type 0 where
  binance_spot : (symbol : BinanceSpotSymbol) (interval : SettlementInterval) → SettlementSource

pub record MarketStreamConfig : Type 0 where
  pub market_id : ℕ
  pub asset : Asset
  pub duration_seconds : ℕ
  pub settlement_source : SettlementSource
  pub virtual_usdc : Amount
  pub virtual_ticket : Amount
  pub buy_fee_bps : ℕ
  pub resale_fee_bps : ℕ
  pub settlement_fee_bps : ℕ
  pub min_side_real_usdc : Amount
  pub opening_batch_seconds : ℤ
  pub opening_batch_wallet_cap_usdc : Amount
  pub active : Bool
  pub is_protocol_market : Bool

pub record RoundState : Type 0 where
  pub market_id : ℕ
  pub round_id : ℕ
  pub start_at : ℤ
  pub batch_until : ℤ
  pub end_at : ℤ
  pub start_price : Option Amount
  pub end_price : Option Amount
  pub status : RoundStatus
  pub winning_side : Option Side
  pub up_curve : CurveState
  pub down_curve : CurveState
  pub round_bonus_usdc : Amount
  pub settlement_vault : Amount
  pub payout_per_ticket : Amount
  pub protocol_vault_amount : Amount
  pub settlement_source : SettlementSource
  pub start_binance_open_time_ms : Option ℤ
  pub end_binance_open_time_ms : Option ℤ

-- `RoundState::curve`, and what a write through `RoundState::curve_mut` leaves.
abbrev pub curve : RoundState → Side → CurveState
curve round Side.up = round.up_curve
curve round Side.down = round.down_curve

abbrev pub set_curve : RoundState → Side → CurveState → RoundState
set_curve round Side.up c = record round { up_curve = c }
set_curve round Side.down c = record round { down_curve = c }

pub record OpeningOrder : Type 0 where
  pub round_id : ℕ
  pub user : Name
  pub side : Side
  pub net_usdc : Amount
  pub claimed : Bool

pub record OpeningAggregate : Type 0 where
  pub round_id : ℕ
  pub side : Side
  pub total_net_usdc : Amount
  pub total_tickets_out : Amount
  pub finalized : Bool

pub record PositionLot : Type 0 where
  pub lot_id : ℕ
  pub market_id : ℕ
  pub round_id : ℕ
  pub side : Side
  pub current_owner : Name
  pub original_buyer : Name
  pub ticket_amount : Amount
  pub usdc_in : Amount
  pub avg_entry_price : Amount
  pub listed : Bool
  pub listed_price : Amount
  pub created_at : ℤ
  pub last_transfer_at : ℤ
  pub claimed : Bool

pub record BuyQuote : Type 0 where
  pub usdc_in : Amount
  pub fee : Amount
  pub net_usdc_in : Amount
  pub tickets_out : Amount
  pub old_virtual_usdc : Amount
  pub old_virtual_ticket : Amount
  pub new_virtual_usdc : Amount
  pub new_virtual_ticket : Amount
  pub price_after : Amount

pub record ListingQuote : Type 0 where
  pub listed_price : Amount
  pub resale_fee : Amount
  pub early_flip_fee : Amount
  pub seller_receives : Amount

pub record ClaimQuote : Type 0 where
  pub side : Side
  pub ticket_amount : Amount
  pub payout_per_ticket : Amount
  pub amount : Amount

pub record VoidRefundQuote : Type 0 where
  pub side : Side
  pub ticket_amount : Amount
  pub refund_per_ticket : Amount
  pub amount : Amount
