-- ===== src/Program/Settlement.antt =====
-- How a round is closed, resolved and voided: `apply_round_resolution` and the handlers
-- `close_round`, `resolve_round`, `void_round`, in programs/basingamarket/src/lib.rs.
pub mod Outcome
pub mod Total
pub mod Again
pub mod Frame
use basingamarket.Base.{
  ℕ, Bool, false, ◌==◌, ◌&&◌, ◌||◌, bytes_eq, ltb, ok, if◌then◌else◌, ◌>>=◌, ◌>>◌,
}
use basingamarket.Base.Int.{ℤ, leb_ℤ, eqb_ℤ}
use basingamarket.Program.Curve.{curve_for_side}
use basingamarket.Program.Error.{
  AnchorResult, require, round_not_open, round_still_open, invalid_binance_snapshot,
}
use basingamarket.Program.Guards.{require_settlement_actor}
use basingamarket.Program.Math.{
  scale, fee_amount, mul_div, checked_add, checked_sub, expected_close_time_ms,
}
use basingamarket.Program.State.{
  Pubkey, Bytes, GlobalConfig, Round, RoundOutcome, Side, status_eq, outcome_of_side, opened,
  closed, resolved, voided,
}

-- The accounts of `CloseRound` and `ResolveRound`; `authority` is the signer's key.
pub record SettlementAccounts : Type 0 where
  pub global_config : GlobalConfig
  pub round : Round
  pub authority : Pubkey

pub record ResolveRoundArgs : Type 0 where
  pub end_price : ℕ
  pub binance_symbol : Bytes
  pub binance_interval : Bytes
  pub binance_open_time_ms : ℤ
  pub binance_close_time_ms : ℤ

-- The writes of every branch that voids the round.
abbrev pub voided_round : Round → Round
voided_round round = record round {
  status = voided;
  winning_side = RoundOutcome.void;
  settlement_vault = 0;
  payout_per_ticket = 0;
  protocol_vault_amount = 0;
}

abbrev pub winner : ℕ → ℕ → Side
winner start_price end_price = if ltb start_price end_price then Side.up else Side.down

-- The branch where nobody holds a winning ticket: the whole vault goes to the protocol.
unfoldable pub resolve_without_winner :
    Round → GlobalConfig → Side → ℕ → AnchorResult (Round × GlobalConfig)
resolve_without_winner round config winning_side gross_vault = do
  accrued ← checked_add config.protocol_fee_accrued_usdc gross_vault
  ok (
    record round {
      status = resolved;
      winning_side = outcome_of_side winning_side;
      settlement_vault = 0;
      payout_per_ticket = 0;
      protocol_vault_amount = gross_vault;
    },
    record config { protocol_fee_accrued_usdc = accrued },
  )

-- The branch that pays the winners.
unfoldable pub resolve_with_winner :
    Round → GlobalConfig → Side → ℕ → AnchorResult (Round × GlobalConfig)
resolve_with_winner round config winning_side gross_vault = do
  settlement_fee ← fee_amount gross_vault config.settlement_fee_bps
  settlement_vault ← checked_sub gross_vault settlement_fee
  payout ← mul_div settlement_vault scale (curve_for_side round winning_side).ticket_supply
  accrued ← checked_add config.protocol_fee_accrued_usdc settlement_fee
  ok (
    record round {
      status = resolved;
      winning_side = outcome_of_side winning_side;
      settlement_vault = settlement_vault;
      payout_per_ticket = payout;
      protocol_vault_amount = settlement_fee;
    },
    record config { protocol_fee_accrued_usdc = accrued },
  )

unfoldable pub apply_round_resolution :
    Round → GlobalConfig → ℕ → AnchorResult (Round × GlobalConfig)
apply_round_resolution round config end_price =
    if end_price == round.start_price then ok (voided_round round, config) else do
      sides ← checked_add round.up.real_usdc round.down.real_usdc
      gross_vault ← checked_add sides round.round_bonus_usdc
      let winning_side = winner round.start_price end_price
      if (curve_for_side round winning_side).ticket_supply == 0
          then resolve_without_winner round config winning_side gross_vault
          else if ltb round.up.real_usdc config.min_side_real_usdc
              || ltb round.down.real_usdc config.min_side_real_usdc
          then ok (voided_round round, config)
          else resolve_with_winner round config winning_side gross_vault

unfoldable pub close_round : ℤ → SettlementAccounts → AnchorResult SettlementAccounts
close_round now ctx = do
  require_settlement_actor ctx.global_config ctx.authority
  require (leb_ℤ ctx.round.end_at now) round_still_open
  ok (record ctx { round = record ctx.round { status = closed } })

-- The `require!` of `resolve_round` on the snapshot: its last conjunct, with a `?` of its own, is
-- computed only if the others hold.
unfoldable pub require_snapshot : Round → ResolveRoundArgs → AnchorResult (Unit {0})
require_snapshot round args =
    if bytes_eq args.binance_symbol round.binance_symbol
      && bytes_eq args.binance_interval round.binance_interval
      && eqb_ℤ args.binance_open_time_ms round.binance_open_time_ms
    then (do
      expected ← expected_close_time_ms round.end_at
      require (eqb_ℤ args.binance_close_time_ms expected) invalid_binance_snapshot)
    else require false invalid_binance_snapshot

unfoldable pub resolve_round :
    ℤ → SettlementAccounts → ResolveRoundArgs → AnchorResult SettlementAccounts
resolve_round now ctx args = do
  require_settlement_actor ctx.global_config ctx.authority
  require (status_eq ctx.round.status opened || status_eq ctx.round.status closed) round_not_open
  require (leb_ℤ ctx.round.end_at now) round_still_open
  require_snapshot ctx.round args
  let round = record ctx.round {
    end_price = args.end_price;
    binance_close_time_ms = args.binance_close_time_ms;
  }
  (round, config) ← apply_round_resolution round ctx.global_config args.end_price
  ok (record ctx { round = round; global_config = config })

unfoldable pub void_round : SettlementAccounts → ResolveRoundArgs → AnchorResult SettlementAccounts
void_round ctx args = do
  require_settlement_actor ctx.global_config ctx.authority
  require
      (bytes_eq args.binance_symbol ctx.round.binance_symbol
        && bytes_eq args.binance_interval ctx.round.binance_interval)
      invalid_binance_snapshot
  let round = record ctx.round {
    end_price = args.end_price;
    binance_close_time_ms = args.binance_close_time_ms;
  }
  ok (record ctx { round = voided_round round })
