-- ===== src/Program/Admin.antt =====
-- The instructions of the administrator and of the keeper that opens rounds, in
-- programs/basingamarket/src/lib.rs. Accounts that Anchor's `init` creates are results; `bump` is the
-- bump of their address.
use basingamarket.Base.{ℕ, ltb, ◌&&◌, not, true, false, bytes_eq, ok, ◌>>=◌, ◌>>◌}
use basingamarket.Base.Int.{ℤ, pos, ltb_ℤ, leb_ℤ, eqb_ℤ}
use basingamarket.Program.Error.{
  AnchorResult, require, paused, invalid_duration, invalid_virtual_reserves, invalid_round_window,
  invalid_binance_snapshot,
}
use basingamarket.Program.Guards.{require_admin, require_settlement_actor}
use basingamarket.Program.Math.{seconds_to_millis}
use basingamarket.Program.State.{
  Pubkey, Bytes, Account, Asset, GlobalConfig, MarketConfig, Round, RoundOutcome, new_curve, opened,
}

pub record InitializeGlobalConfigArgs : Type 0 where
  pub protocol_treasury : Pubkey
  pub usdc_mint : Pubkey
  pub trusted_settlement_actor : Pubkey
  pub buy_fee_bps : ℕ
  pub resale_fee_bps : ℕ
  pub settlement_fee_bps : ℕ
  pub min_side_real_usdc : ℕ

unfoldable pub initialize_global_config : Pubkey → ℕ → InitializeGlobalConfigArgs → GlobalConfig
initialize_global_config admin bump args = record {
  admin = admin;
  protocol_treasury = args.protocol_treasury;
  usdc_mint = args.usdc_mint;
  trusted_settlement_actor = args.trusted_settlement_actor;
  buy_fee_bps = args.buy_fee_bps;
  resale_fee_bps = args.resale_fee_bps;
  settlement_fee_bps = args.settlement_fee_bps;
  min_side_real_usdc = args.min_side_real_usdc;
  protocol_fee_accrued_usdc = 0;
  paused = false;
  bump = bump;
}

pub record CreateMarketConfigArgs : Type 0 where
  pub market_id : ℕ
  pub asset : Asset
  pub duration_seconds : ℕ
  pub binance_symbol : Bytes
  pub binance_interval : Bytes
  pub virtual_usdc_start : ℕ
  pub virtual_ticket_start : ℕ
  pub opening_batch_seconds : ℕ
  pub opening_wallet_side_cap_usdc : ℕ

unfoldable pub create_market_config :
    GlobalConfig → Pubkey → ℕ → CreateMarketConfigArgs → AnchorResult MarketConfig
create_market_config global_config admin bump args = do
  require_admin global_config admin
  require (ltb 0 args.duration_seconds) invalid_duration
  require (ltb 0 args.virtual_usdc_start && ltb 0 args.virtual_ticket_start)
      invalid_virtual_reserves
  ok (record {
    market_id = args.market_id;
    asset = args.asset;
    duration_seconds = args.duration_seconds;
    binance_symbol = args.binance_symbol;
    binance_interval = args.binance_interval;
    virtual_usdc_start = args.virtual_usdc_start;
    virtual_ticket_start = args.virtual_ticket_start;
    opening_batch_seconds = args.opening_batch_seconds;
    opening_wallet_side_cap_usdc = args.opening_wallet_side_cap_usdc;
    active = true;
    bump = bump;
  })

unfoldable pub set_cash_mint : GlobalConfig → Pubkey → Pubkey → AnchorResult GlobalConfig
set_cash_mint global_config admin usdc_mint = do
  require_admin global_config admin
  ok (record global_config { usdc_mint = usdc_mint })

unfoldable pub pause_market : GlobalConfig → MarketConfig → Pubkey → AnchorResult MarketConfig
pause_market global_config market_config admin = do
  require_admin global_config admin
  ok (record market_config { active = false })

unfoldable pub unpause_market : GlobalConfig → MarketConfig → Pubkey → AnchorResult MarketConfig
unpause_market global_config market_config admin = do
  require_admin global_config admin
  ok (record market_config { active = true })

unfoldable pub withdraw_protocol_fees : GlobalConfig → Pubkey → AnchorResult GlobalConfig
withdraw_protocol_fees global_config admin = do
  require_admin global_config admin
  ok (record global_config { protocol_fee_accrued_usdc = 0 })

pub record OpenRound : Type 0 where
  pub global_config : GlobalConfig
  pub market_config : Account MarketConfig
  pub authority : Pubkey
  pub bump : ℕ

pub record OpenRoundArgs : Type 0 where
  pub round_id : ℕ
  pub start_at : ℤ
  pub batch_until : ℤ
  pub end_at : ℤ
  pub start_price : ℕ
  pub binance_symbol : Bytes
  pub binance_interval : Bytes
  pub binance_open_time_ms : ℤ

unfoldable pub open_round : OpenRound → OpenRoundArgs → AnchorResult Round
open_round ctx args = do
  let market = ctx.market_config.value
  require_settlement_actor ctx.global_config ctx.authority
  require (not ctx.global_config.paused && market.active) paused
  require
      (ltb_ℤ args.start_at args.end_at
        && leb_ℤ args.start_at args.batch_until
        && ltb_ℤ args.batch_until args.end_at)
      invalid_round_window
  require
      (bytes_eq args.binance_symbol market.binance_symbol
        && bytes_eq args.binance_interval market.binance_interval)
      invalid_binance_snapshot
  start_ms ← seconds_to_millis args.start_at
  require (eqb_ℤ args.binance_open_time_ms start_ms) invalid_binance_snapshot
  ok (record {
    market = ctx.market_config.key;
    round_id = args.round_id;
    start_at = args.start_at;
    batch_until = args.batch_until;
    end_at = args.end_at;
    start_price = args.start_price;
    end_price = 0;
    status = opened;
    winning_side = RoundOutcome.none;
    up = new_curve market.virtual_usdc_start market.virtual_ticket_start;
    down = new_curve market.virtual_usdc_start market.virtual_ticket_start;
    round_bonus_usdc = 0;
    payout_per_ticket = 0;
    settlement_vault = 0;
    protocol_vault_amount = 0;
    binance_symbol = args.binance_symbol;
    binance_interval = args.binance_interval;
    binance_open_time_ms = args.binance_open_time_ms;
    binance_close_time_ms = pos 0;
    bump = ctx.bump;
  })
