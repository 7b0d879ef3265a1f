-- ===== src/Program/Lifecycle.antt =====
-- A round from its opening on, under any sequence of the instructions that write the round or the
-- configuration, each with any accounts and arguments. The instructions that only write lots, orders
-- or the market are no steps here.
pub mod Effect
pub mod Books
pub mod Status
use basingamarket.Base.{ℕ, ◌≡◌, ok}
use basingamarket.Base.Int.{ℤ}
use basingamarket.Program.Admin.{set_cash_mint, withdraw_protocol_fees}
use basingamarket.Program.FreshBuy.{FreshBuyExecution, execute_fresh_buy}
use basingamarket.Program.Opening.{FinalizeOpeningSide, finalize_opening_side}
use basingamarket.Program.Secondary.{SecondaryFeeTransferExecution, execute_secondary_fee_transfers}
use basingamarket.Program.Settlement.{
  SettlementAccounts, ResolveRoundArgs, close_round, resolve_round, void_round,
}
use basingamarket.Program.State.{Pubkey, Account, GlobalConfig, Round}
use basingamarket.Program.Token.{Spl}

pub record World (Ledger : Type 0) : Type 0 where
  pub global_config : Account GlobalConfig
  pub round : Account Round
  pub ledger : Ledger

-- The accounts of a settlement instruction in a world, and the world after it.
abbrev pub settlement_of : {Ledger : Type 0} → World Ledger → Pubkey → SettlementAccounts
settlement_of w authority = record {
  global_config = w.global_config.value;
  round = w.round.value;
  authority = authority;
}

abbrev pub settled : {Ledger : Type 0} → World Ledger → SettlementAccounts → World Ledger
settled w s = record w {
  global_config = record w.global_config { value = s.global_config };
  round = record w.round { value = s.round };
}

abbrev pub configured : {Ledger : Type 0} → World Ledger → GlobalConfig → World Ledger
configured w c = record w { global_config = record w.global_config { value = c } }

-- One instruction that went through.
pub data Step {Ledger : Type 0} (spl : Spl Ledger) : World Ledger → World Ledger → Type 0 where
  fresh_buy :
      {w w' : World Ledger} (now : ℤ) (ctx ctx' : FreshBuyExecution Ledger)
      → w ≡ record { global_config = ctx.global_config; round = ctx.round; ledger = ctx.ledger }
      → execute_fresh_buy spl now ctx ≡ ok ctx'
      → w' ≡ record { global_config = ctx'.global_config; round = ctx'.round; ledger = ctx'.ledger }
      → Step spl w w'
  resale :
      {w w' : World Ledger} (ctx ctx' : SecondaryFeeTransferExecution Ledger)
      → w ≡ record { global_config = ctx.global_config; round = ctx.round; ledger = ctx.ledger }
      → execute_secondary_fee_transfers spl ctx ≡ ok ctx'
      → w' ≡ record { global_config = ctx'.global_config; round = ctx'.round; ledger = ctx'.ledger }
      → Step spl w w'
  opening :
      {w w' : World Ledger} (now : ℤ) (ctx ctx' : FinalizeOpeningSide)
      → w.round ≡ ctx.round
      → finalize_opening_side now ctx ≡ ok ctx'
      → w' ≡ record w { round = ctx'.round }
      → Step spl w w'
  close :
      {w w' : World Ledger} (now : ℤ) (authority : Pubkey) (s : SettlementAccounts)
      → close_round now (settlement_of w authority) ≡ ok s
      → w' ≡ settled w s
      → Step spl w w'
  resolve :
      {w w' : World Ledger} (now : ℤ) (authority : Pubkey) (args : ResolveRoundArgs)
      (s : SettlementAccounts)
      → resolve_round now (settlement_of w authority) args ≡ ok s
      → w' ≡ settled w s
      → Step spl w w'
  cancel :
      {w w' : World Ledger} (authority : Pubkey) (args : ResolveRoundArgs) (s : SettlementAccounts)
      → void_round (settlement_of w authority) args ≡ ok s
      → w' ≡ settled w s
      → Step spl w w'
  mint :
      {w w' : World Ledger} (admin usdc_mint : Pubkey) (c : GlobalConfig)
      → set_cash_mint w.global_config.value admin usdc_mint ≡ ok c
      → w' ≡ configured w c
      → Step spl w w'
  withdraw :
      {w w' : World Ledger} (admin : Pubkey) (c : GlobalConfig)
      → withdraw_protocol_fees w.global_config.value admin ≡ ok c
      → w' ≡ configured w c
      → Step spl w w'

-- Any number of instructions, one after another.
pub data Reach {Ledger : Type 0} (spl : Spl Ledger) (w : World Ledger) : World Ledger → Type 0 where
  here : Reach spl w w
  next : {v v' : World Ledger} → Reach spl w v → Step spl v v' → Reach spl w v'
