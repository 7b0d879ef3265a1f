-- ===== src/Program/FreshBuy.antt =====
-- Buying new tickets from a curve: `execute_fresh_buy` of programs/basingamarket/src/ops.rs and its
-- two instructions. `now` is the clock; `lot_account` is the account that Anchor's `init` creates.
pub mod Purchase
pub mod Balances
pub mod Instructions
use basingamarket.Base.{ℕ, ltb, leb, ◌==◌, ok, if◌then◌else◌, ◌>>=◌, ◌>>◌}
use basingamarket.Base.Int.{ℤ}
use basingamarket.Program.Curve.{curve_for_side, set_curve_for_side, quote_buy, apply_buy}
use basingamarket.Program.Error.{AnchorResult, require, zero_amount, slippage, invalid_usdc_mint}
use basingamarket.Program.Guards.{
  require_not_paused, require_live_trading, require_settlement_actor,
}
use basingamarket.Program.Lot.{init_lot}
use basingamarket.Program.Math.{fee_amount, checked_add, checked_sub}
use basingamarket.Program.State.{Pubkey, Account, GlobalConfig, PositionLot, Round, Side}
use basingamarket.Program.Token.{Spl, Transfer, require_token_account, transfer_checked}

-- Token accounts, the mint and signers are named by their keys; `ledger` is the token program's
-- state.
pub record FreshBuyExecution (Ledger : Type 0) : Type 0 where
  pub global_config : Account GlobalConfig
  pub round : Account Round
  pub position_lot : PositionLot
  pub ledger : Ledger
  pub usdc_mint : Pubkey
  pub source_usdc_account : Pubkey
  pub round_vault : Pubkey
  pub fee_vault : Pubkey
  pub source_authority : Pubkey
  pub position_owner : Pubkey
  pub lot_id : ℕ
  pub side : Side
  pub usdc_in : ℕ
  pub min_tickets_out : ℕ

module _ {Ledger : Type 0} (spl : Spl Ledger) where
  -- The transfer of `amount` from the source of the purchase to `destination`.
  abbrev pub payment : FreshBuyExecution Ledger → Pubkey → ℕ → Transfer
  payment ctx destination amount = record {
    source = ctx.source_usdc_account;
    mint = ctx.usdc_mint;
    destination = destination;
    authority = ctx.source_authority;
    amount = amount;
    decimals = spl.decimals_of ctx.ledger ctx.usdc_mint;
  }

  -- The checks on the mint and the three token accounts.
  unfoldable pub require_accounts : FreshBuyExecution Ledger → AnchorResult (Unit {0})
  require_accounts ctx = do
    require (spl.decimals_of ctx.ledger ctx.usdc_mint == 6) invalid_usdc_mint
    require_token_account spl ctx.ledger ctx.source_usdc_account ctx.usdc_mint ctx.source_authority
    require_token_account spl ctx.ledger ctx.round_vault ctx.usdc_mint ctx.round.key
    require_token_account spl ctx.ledger ctx.fee_vault ctx.usdc_mint ctx.global_config.key

  -- The two transfers: the net amount to the round, the fee to the protocol.
  unfoldable pub pay : FreshBuyExecution Ledger → ℕ → ℕ → AnchorResult Ledger
  pay ctx net_usdc fee = do
    ledger ← transfer_checked spl ctx.ledger (payment ctx ctx.round_vault net_usdc)
    if ltb 0 fee then transfer_checked spl ledger (payment ctx ctx.fee_vault fee) else ok ledger

  unfoldable pub execute_fresh_buy :
      ℤ → FreshBuyExecution Ledger → AnchorResult (FreshBuyExecution Ledger)
  execute_fresh_buy now ctx = do
    let config = ctx.global_config.value
    let round = ctx.round.value
    require_not_paused config
    require_live_trading now round
    require (ltb 0 ctx.usdc_in) zero_amount
    fee ← fee_amount ctx.usdc_in config.buy_fee_bps
    net_usdc ← checked_sub ctx.usdc_in fee
    tickets_out ← quote_buy (curve_for_side round ctx.side) net_usdc
    require (leb ctx.min_tickets_out tickets_out) slippage
    require_accounts ctx
    ledger ← pay ctx net_usdc fee
    curve ← apply_buy (curve_for_side round ctx.side) net_usdc tickets_out
    accrued ← checked_add config.protocol_fee_accrued_usdc fee
    lot ← init_lot (record {
      lot_id = ctx.lot_id;
      round = ctx.round.key;
      side = ctx.side;
      owner = ctx.position_owner;
      ticket_amount = tickets_out;
      usdc_in = net_usdc;
      now = now;
    })
    ok (record ctx {
      global_config = record ctx.global_config {
        value = record config { protocol_fee_accrued_usdc = accrued };
      };
      round = record ctx.round { value = set_curve_for_side round ctx.side curve };
      position_lot = lot;
      ledger = ledger;
    })
