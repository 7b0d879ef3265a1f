-- ===== src/Domain/Tests/Rounds.antt =====
-- Settling and claiming the services' rounds on small inputs, with the properties there.
use basingamarket.Base.{◌≤◌, ◌≡◌, [], ◌∷◌, some, none, inl, refl, true, false, arith, ok}
use basingamarket.Base.Int.{pos}
use basingamarket.Domain.Agreement.Settlements.{
  record_of, config_of, settled_of, resolve_round_agrees,
}
use basingamarket.Domain.Amounts.{
  validate_lot_for_round, calculate_fee, checked_mul, checked_div, checked_mul_div,
}
use basingamarket.Domain.Settlement.{
  resolve_round, resolve_outcome, settle, settle_vault, vault_of, ensure_round_active, pay_winners,
  quote_claim, quote_void_refund, voided_round,
}
use basingamarket.Domain.Settlement.Refunds.{refund_all}
use basingamarket.Domain.Settlement.Solvency.{claim_all, tickets_on, total_on, quote_claim_solvent}
use basingamarket.Domain.State.{
  RoundState, MarketStreamConfig, PositionLot, Side, opened, resolved, binance_spot,
  SettlementSource, BinanceSpotSymbol, SettlementInterval, Asset,
}
use basingamarket.Program.Settlement.{apply_round_resolution, resolve_with_winner}
use basingamarket.Program.State.{Round, RoundOutcome, GlobalConfig, Curve}
use basingamarket.Program.Math.{fee_amount, mul_div, checked_add, checked_sub}
use basingamarket.Program.Tests.Data.{sold_round, config as program_config}

abbrev pub source : SettlementSource
source = binance_spot BinanceSpotSymbol.btc_usdt SettlementInterval.five_minutes

abbrev pub config : MarketStreamConfig
config = record {
  market_id = 1;
  asset = Asset.btc;
  duration_seconds = 300;
  settlement_source = source;
  virtual_usdc = 50000000000;
  virtual_ticket = 100000000000;
  buy_fee_bps = 50;
  resale_fee_bps = 50;
  settlement_fee_bps = 100;
  min_side_real_usdc = 1000000;
  opening_batch_seconds = pos 5;
  opening_batch_wallet_cap_usdc = 500000000;
  active = true;
  is_protocol_market = true;
}

-- 200 tickets sold on the side up and 180 on the side down, for 150 dollars each.
abbrev pub sold : RoundState
sold = record {
  market_id = 1;
  round_id = 7;
  start_at = pos 2100;
  batch_until = pos 2105;
  end_at = pos 2400;
  start_price = some 2000;
  end_price = none;
  status = opened;
  winning_side = none;
  up_curve = record {
    virtual_usdc = 50150000000;
    virtual_ticket = 99800000000;
    real_usdc = 150000000;
    ticket_supply = 200000000;
  };
  down_curve = record {
    virtual_usdc = 50150000000;
    virtual_ticket = 99820000000;
    real_usdc = 150000000;
    ticket_supply = 180000000;
  };
  round_bonus_usdc = 0;
  settlement_vault = 0;
  payout_per_ticket = 0;
  protocol_vault_amount = 0;
  settlement_source = source;
  start_binance_open_time_ms = none;
  end_binance_open_time_ms = none;
}

abbrev won : RoundState
won = record sold {
  end_price = some 2100;
  status = resolved;
  winning_side = some Side.up;
  settlement_vault = 297000000;
  payout_per_ticket = 1485000;
  protocol_vault_amount = 3000000;
}

resolves : resolve_round sold 2100 config ≡ (won, ok (some Side.up))
unfolding resolve_round resolve_outcome settle settle_vault vault_of ensure_round_active pay_winners
    calculate_fee checked_mul_div checked_mul checked_div
resolves = refl

-- A hundred tickets of the user "A" on the side up.
abbrev pub lot : PositionLot
lot = record {
  lot_id = 1;
  market_id = 1;
  round_id = 7;
  side = Side.up;
  current_owner = b'A' ∷ [];
  original_buyer = b'A' ∷ [];
  ticket_amount = 100000000;
  usdc_in = 50000000;
  avg_entry_price = 500000;
  listed = false;
  listed_price = 0;
  created_at = pos 2110;
  last_transfer_at = pos 2110;
  claimed = false;
}

abbrev down_lot : PositionLot
down_lot = record lot { lot_id = 2; side = Side.down; ticket_amount = 40000000 }

claims : claim_all won (lot ∷ lot ∷ []) ≡ ok 297000000
unfolding claim_all quote_claim validate_lot_for_round checked_mul_div checked_mul checked_div
claims = refl

few_won : total_on Side.up (lot ∷ lot ∷ []) ≤ 200000000
unfolding total_on tickets_on
few_won = omega arith

quote_claim_solvent_example : 297000000 ≤ 297000000
quote_claim_solvent_example =
    quote_claim_solvent sold 2100 config Side.up (lot ∷ lot ∷ []) resolves few_won claims

refunds : refund_all (voided_round sold) (lot ∷ down_lot ∷ []) ≡ ok 108333320
unfolding refund_all quote_void_refund validate_lot_for_round checked_mul_div checked_mul
    checked_div
refunds = refl

-- The same round in the program, and its settlement there.
abbrev program_round : Round
program_round = sold_round

abbrev program_won : Round
program_won = record program_round {
  status = basingamarket.Program.State.resolved;
  winning_side = RoundOutcome.up;
  settlement_vault = 297000000;
  payout_per_ticket = 1485000;
  protocol_vault_amount = 3000000;
}

program_resolves :
    apply_round_resolution program_round program_config 2100
    ≡ ok (program_won, record program_config { protocol_fee_accrued_usdc = 3000000 })
unfolding apply_round_resolution resolve_with_winner fee_amount mul_div checked_add checked_sub
program_resolves = refl

resolve_round_agrees_example :
    resolve_round (record_of sold program_round) 2100 (config_of config program_config) ≡ (
      settled_of (record_of (record sold { end_price = some 2100 }) program_round) program_won,
      ok (some Side.up),
    )
resolve_round_agrees_example =
    resolve_round_agrees program_round program_config 2100 sold config (inl refl) program_resolves
