-- ===== src/Program/Secondary.antt =====
-- Fees on the resale of a lot: `execute_secondary_fee_transfers` of
-- programs/basingamarket/src/ops.rs.
pub mod Balances
use basingamarket.Base.{ℕ, ltb, ◌==◌, ok, if◌then◌else◌, ◌>>=◌, ◌>>◌}
use basingamarket.Base.Int.{ℤ}
use basingamarket.Base.Words.{i64_saturating_sub}
use basingamarket.Program.Error.{AnchorResult, require, zero_amount, invalid_usdc_mint}
use basingamarket.Program.Math.{fee_amount, early_flip_fee, checked_add, checked_sub}
use basingamarket.Program.State.{Pubkey, Account, GlobalConfig, Round}
use basingamarket.Program.Token.{Spl, Transfer, require_token_account, transfer_checked}

pub record SecondaryFeeTransferExecution (Ledger : Type 0) : Type 0 where
  pub global_config : Account GlobalConfig
  pub round : Account Round
  pub ledger : Ledger
  pub usdc_mint : Pubkey
  pub cash_vault : Pubkey
  pub round_vault : Pubkey
  pub fee_vault : Pubkey
  pub cashier : Pubkey
  pub gross_usdc : ℕ
  pub last_transfer_at : ℤ
  pub now : ℤ

module _ {Ledger : Type 0} (spl : Spl Ledger) where
  abbrev pub payment : SecondaryFeeTransferExecution Ledger → Pubkey → ℕ → Transfer
  payment ctx destination amount = record {
    source = ctx.cash_vault;
    mint = ctx.usdc_mint;
    destination = destination;
    authority = ctx.cashier;
    amount = amount;
    decimals = spl.decimals_of ctx.ledger ctx.usdc_mint;
  }

  -- The checks on the mint and the three token accounts.
  unfoldable pub require_accounts : SecondaryFeeTransferExecution Ledger → AnchorResult (Unit {0})
  require_accounts ctx = do
    require (spl.decimals_of ctx.ledger ctx.usdc_mint == 6) invalid_usdc_mint
    require_token_account spl ctx.ledger ctx.cash_vault ctx.usdc_mint ctx.cashier
    require_token_account spl ctx.ledger ctx.round_vault ctx.usdc_mint ctx.round.key
    require_token_account spl ctx.ledger ctx.fee_vault ctx.usdc_mint ctx.global_config.key

  -- The two transfers: the resale fee to the protocol, the early fee to the round.
  unfoldable pub pay : SecondaryFeeTransferExecution Ledger → ℕ → ℕ → AnchorResult Ledger
  pay ctx resale_fee early_fee = do
    ledger ←
        if ltb 0 resale_fee
        then transfer_checked spl ctx.ledger (payment ctx ctx.fee_vault resale_fee)
        else ok ctx.ledger
    if ltb 0 early_fee
        then transfer_checked spl ledger (payment ctx ctx.round_vault early_fee)
        else ok ledger

  unfoldable pub execute_secondary_fee_transfers :
      SecondaryFeeTransferExecution Ledger → AnchorResult (SecondaryFeeTransferExecution Ledger)
  execute_secondary_fee_transfers ctx = do
    require (ltb 0 ctx.gross_usdc) zero_amount
    require_accounts ctx
    resale_fee ← fee_amount ctx.gross_usdc ctx.global_config.value.resale_fee_bps
    early_fee ← early_flip_fee ctx.gross_usdc (i64_saturating_sub ctx.now ctx.last_transfer_at)
    after_resale ← checked_sub ctx.gross_usdc resale_fee
    _ ← checked_sub after_resale early_fee
    ledger ← pay ctx resale_fee early_fee
    accrued ← checked_add ctx.global_config.value.protocol_fee_accrued_usdc resale_fee
    bonus ← checked_add ctx.round.value.round_bonus_usdc early_fee
    ok (record ctx {
      global_config = record ctx.global_config {
        value = record ctx.global_config.value { protocol_fee_accrued_usdc = accrued };
      };
      round = record ctx.round { value = record ctx.round.value { round_bonus_usdc = bonus } };
      ledger = ledger;
    })
