-- ===== src/Domain/Plans.antt =====
-- Which rounds to open: the streams and the plans of crates/domain/src/crypto_rounds/automation.rs,
-- with `RoundState::new` and `ProtocolStreamTemplate::to_config` of types.rs. The set of rounds that
-- exist is a list of pairs of a market and a round.
pub mod Openings
use basingamarket.Base.{
  ℕ, Bool, List, [], ◌∷◌, Option, none, some, true, false, leb, ◌==◌, ◌&&◌, ◌||◌, not, ok, err,
  if◌then◌else◌, ◌>>=◌, ◌>>◌, map,
}
use basingamarket.Base.Int.{ℤ, pos}
use basingamarket.Base.Words.{i64_wrapping_add}
use basingamarket.Domain.State.{
  Amount, Asset, btc, eth, sol, xrp, doge, CurveState, CryptoResult, SettlementSource, binance_spot,
  for_asset, from_duration_seconds, MarketStreamConfig, RoundState, invalid_duration, opened,
}
use basingamarket.Domain.Windows.{current_round_id, round_window, validate_lazy_open_window}

-- `CurveState::new`
abbrev pub new_curve : Amount → Amount → CurveState
new_curve virtual_usdc virtual_ticket = record {
  virtual_usdc = virtual_usdc;
  virtual_ticket = virtual_ticket;
  real_usdc = 0;
  ticket_supply = 0;
}

-- `RoundState::new`
unfoldable pub new_round : MarketStreamConfig → ℕ → ℤ → ℤ → RoundState
new_round config round_id start_at end_at = record {
  market_id = config.market_id;
  round_id = round_id;
  start_at = start_at;
  batch_until = i64_wrapping_add start_at config.opening_batch_seconds;
  end_at = end_at;
  start_price = none;
  end_price = none;
  status = opened;
  winning_side = none;
  up_curve = new_curve config.virtual_usdc config.virtual_ticket;
  down_curve = new_curve config.virtual_usdc config.virtual_ticket;
  round_bonus_usdc = 0;
  settlement_vault = 0;
  payout_per_ticket = 0;
  protocol_vault_amount = 0;
  settlement_source = config.settlement_source;
  start_binance_open_time_ms = none;
  end_binance_open_time_ms = none;
}

-- `SettlementSource::binance_spot`
unfoldable pub source_for : Asset → ℕ → CryptoResult SettlementSource
source_for asset duration_seconds = do
  interval ← from_duration_seconds duration_seconds
  ok (binance_spot (for_asset asset) interval)

pub record ProtocolStreamTemplate : Type 0 where
  pub phase : ℕ
  pub market_id : ℕ
  pub asset : Asset
  pub duration_seconds : ℕ
  pub settlement_source : SettlementSource

unfoldable pub to_config : ProtocolStreamTemplate → MarketStreamConfig
to_config template = record {
  market_id = template.market_id;
  asset = template.asset;
  duration_seconds = template.duration_seconds;
  settlement_source = template.settlement_source;
  virtual_usdc = 50000000000;
  virtual_ticket = 100000000000;
  buy_fee_bps = 50;
  resale_fee_bps = 50;
  settlement_fee_bps = 0;
  min_side_real_usdc = 10000000;
  opening_batch_seconds = pos 5;
  opening_batch_wallet_cap_usdc = 500000000;
  active = true;
  is_protocol_market = true;
}

-- An error stands for the panic of `expect`.
unfoldable pub protocol_stream_template : ℕ → ℕ → Asset → ℕ → CryptoResult ProtocolStreamTemplate
protocol_stream_template phase market_id asset duration_seconds = do
  source ← source_for asset duration_seconds
  ok (record {
    phase = phase;
    market_id = market_id;
    asset = asset;
    duration_seconds = duration_seconds;
    settlement_source = source;
  })

abbrev pub templates : List (ℕ × ℕ × Asset × ℕ) → CryptoResult (List ProtocolStreamTemplate)
templates [] = ok []
templates ((phase, market_id, asset, duration_seconds) ∷ rows) = do
  template ← protocol_stream_template phase market_id asset duration_seconds
  rest ← templates rows
  ok (template ∷ rest)

unfoldable pub default_protocol_streams : CryptoResult (List ProtocolStreamTemplate)
default_protocol_streams = templates (
    (1, 1, btc, 300)
    ∷ (1, 2, eth, 300)
    ∷ (1, 3, sol, 300)
    ∷ (1, 14, doge, 300)
    ∷ (1, 11, btc, 60)
    ∷ (1, 12, eth, 60)
    ∷ (1, 13, sol, 60)
    ∷ (1, 15, doge, 60)
    ∷ (2, 4, btc, 900)
    ∷ (2, 5, eth, 900)
    ∷ (2, 6, sol, 900)
    ∷ (3, 7, xrp, 300)
    ∷ (4, 9, xrp, 900)
    ∷ (4, 10, doge, 900)
    ∷ [])

abbrev up_to_phase : ℕ → List ProtocolStreamTemplate → List ProtocolStreamTemplate
up_to_phase phase [] = []
up_to_phase phase (template ∷ rest) =
    let others = up_to_phase phase rest in
    if leb template.phase phase then template ∷ others else others

unfoldable pub protocol_streams_for_phase : ℕ → CryptoResult (List ProtocolStreamTemplate)
protocol_streams_for_phase phase = do
  if not (leb 1 phase && leb phase 4) then err invalid_duration else ok tt
  streams ← default_protocol_streams
  ok (up_to_phase phase streams)

unfoldable pub protocol_stream_configs_for_phase : ℕ → CryptoResult (List MarketStreamConfig)
protocol_stream_configs_for_phase phase = do
  streams ← protocol_streams_for_phase phase
  ok (map to_config streams)

unfoldable pub all_protocol_stream_configs : CryptoResult (List MarketStreamConfig)
all_protocol_stream_configs = do streams ← default_protocol_streams; ok (map to_config streams)

pub record RoundOpenPlan : Type 0 where
  pub market_id : ℕ
  pub asset : Asset
  pub duration_seconds : ℕ
  pub round_id : ℕ
  pub start_at : ℤ
  pub batch_until : ℤ
  pub end_at : ℤ
  pub settlement_source : SettlementSource

-- `existing_round_ids.contains(&(market_id, round_id))`
unfoldable pub contains : List (ℕ × ℕ) → ℕ → ℕ → Bool
contains [] market_id round_id = false
contains ((m, r) ∷ rest) market_id round_id =
    (m == market_id && r == round_id) || contains rest market_id round_id

abbrev pub plan_of : MarketStreamConfig → ℕ → ℤ → ℤ → RoundOpenPlan
plan_of stream round_id start_at end_at = record {
  market_id = stream.market_id;
  asset = stream.asset;
  duration_seconds = stream.duration_seconds;
  round_id = round_id;
  start_at = start_at;
  batch_until = i64_wrapping_add start_at stream.opening_batch_seconds;
  end_at = end_at;
  settlement_source = stream.settlement_source;
}

-- `rest` are the plans of the streams after this one.
unfoldable pub plan_stream :
    MarketStreamConfig
    → List (ℕ × ℕ)
    → ℤ
    → CryptoResult (List RoundOpenPlan)
    → CryptoResult (List RoundOpenPlan)
plan_stream stream existing now_ts rest = do
  round_id ← current_round_id now_ts stream.duration_seconds
  if contains existing stream.market_id round_id then rest else do
    (start_at, end_at) ← round_window round_id stream.duration_seconds
    plans ← rest
    ok (plan_of stream round_id start_at end_at ∷ plans)

unfoldable pub plan_round_openings :
    List MarketStreamConfig → List (ℕ × ℕ) → ℤ → CryptoResult (List RoundOpenPlan)
plan_round_openings [] existing now_ts = ok []
plan_round_openings (stream ∷ streams) existing now_ts =
    let rest = plan_round_openings streams existing now_ts in
    if stream.active then plan_stream stream existing now_ts rest else rest

unfoldable pub plan_lazy_round_opening :
    MarketStreamConfig → List (ℕ × ℕ) → ℤ → ℤ → CryptoResult (Option RoundOpenPlan)
plan_lazy_round_opening stream existing now_ts activation_grace_seconds =
    if not stream.active then ok none else do
      round_id ← current_round_id now_ts stream.duration_seconds
      if contains existing stream.market_id round_id then ok none else do
        (start_at, end_at) ← round_window round_id stream.duration_seconds
        validate_lazy_open_window now_ts start_at activation_grace_seconds
        ok (some (plan_of stream round_id start_at end_at))

pub record AutomationPlan : Type 0 where
  pub now_ts : ℤ
  pub streams : List MarketStreamConfig
  pub round_openings : List RoundOpenPlan

unfoldable pub build_automation_plan :
    List MarketStreamConfig → List (ℕ × ℕ) → ℤ → CryptoResult AutomationPlan
build_automation_plan streams existing now_ts = do
  round_openings ← plan_round_openings streams existing now_ts
  ok (record { now_ts = now_ts; streams = streams; round_openings = round_openings })
