-- ===== src/Program/FreshBuy/Instructions.antt =====
-- The instructions `buy_fresh` and `buy_fresh_from_vault` of programs/basingamarket/src/lib.rs, over
-- the accounts of contexts.rs: each names the payer and the new owner of `execute_fresh_buy`.
use basingamarket.Base.{ℕ, ok, ◌>>=◌, ◌>>◌}
use basingamarket.Base.Int.{ℤ}
use basingamarket.Program.Error.{AnchorResult}
use basingamarket.Program.FreshBuy.{FreshBuyExecution, execute_fresh_buy}
use basingamarket.Program.Guards.{require_settlement_actor}
use basingamarket.Program.State.{Pubkey, Account, GlobalConfig, PositionLot, Round, Side}
use basingamarket.Program.Token.{Spl}

pub record BuyFresh (Ledger : Type 0) : Type 0 where
  pub global_config : Account GlobalConfig
  pub round : Account Round
  pub position_lot : PositionLot
  pub usdc_mint : Pubkey
  pub buyer_usdc_account : Pubkey
  pub round_vault : Pubkey
  pub fee_vault : Pubkey
  pub buyer : Pubkey
  pub ledger : Ledger

pub record BuyFreshArgs : Type 0 where
  pub lot_id : ℕ
  pub side : Side
  pub usdc_in : ℕ
  pub min_tickets_out : ℕ

pub record BuyFreshFromVault (Ledger : Type 0) : Type 0 where
  pub global_config : Account GlobalConfig
  pub round : Account Round
  pub position_lot : PositionLot
  pub usdc_mint : Pubkey
  pub cash_vault : Pubkey
  pub round_vault : Pubkey
  pub fee_vault : Pubkey
  pub cashier : Pubkey
  pub ledger : Ledger

pub record BuyFreshFromVaultArgs : Type 0 where
  pub lot_id : ℕ
  pub side : Side
  pub position_owner : Pubkey
  pub usdc_in : ℕ
  pub min_tickets_out : ℕ

module _ {Ledger : Type 0} (spl : Spl Ledger) where
  abbrev pub execution_of : BuyFresh Ledger → BuyFreshArgs → FreshBuyExecution Ledger
  execution_of ctx args = record {
    global_config = ctx.global_config;
    round = ctx.round;
    position_lot = ctx.position_lot;
    ledger = ctx.ledger;
    usdc_mint = ctx.usdc_mint;
    source_usdc_account = ctx.buyer_usdc_account;
    round_vault = ctx.round_vault;
    fee_vault = ctx.fee_vault;
    source_authority = ctx.buyer;
    position_owner = ctx.buyer;
    lot_id = args.lot_id;
    side = args.side;
    usdc_in = args.usdc_in;
    min_tickets_out = args.min_tickets_out;
  }

  unfoldable pub buy_fresh : ℤ → BuyFresh Ledger → BuyFreshArgs → AnchorResult (BuyFresh Ledger)
  buy_fresh now ctx args = do
    done ← execute_fresh_buy spl now (execution_of ctx args)
    ok (record ctx {
      global_config = done.global_config;
      round = done.round;
      position_lot = done.position_lot;
      ledger = done.ledger;
    })

  abbrev pub vault_execution_of :
      BuyFreshFromVault Ledger → BuyFreshFromVaultArgs → FreshBuyExecution Ledger
  vault_execution_of ctx args = record {
    global_config = ctx.global_config;
    round = ctx.round;
    position_lot = ctx.position_lot;
    ledger = ctx.ledger;
    usdc_mint = ctx.usdc_mint;
    source_usdc_account = ctx.cash_vault;
    round_vault = ctx.round_vault;
    fee_vault = ctx.fee_vault;
    source_authority = ctx.cashier;
    position_owner = args.position_owner;
    lot_id = args.lot_id;
    side = args.side;
    usdc_in = args.usdc_in;
    min_tickets_out = args.min_tickets_out;
  }

  unfoldable pub buy_fresh_from_vault :
      ℤ → BuyFreshFromVault Ledger → BuyFreshFromVaultArgs → AnchorResult (BuyFreshFromVault Ledger)
  buy_fresh_from_vault now ctx args = do
    require_settlement_actor ctx.global_config.value ctx.cashier
    done ← execute_fresh_buy spl now (vault_execution_of ctx args)
    ok (record ctx {
      global_config = done.global_config;
      round = done.round;
      position_lot = done.position_lot;
      ledger = done.ledger;
    })
