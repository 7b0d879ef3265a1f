-- ===== src/Program/Tests/Trading.antt =====
-- Purchases and resales on the data, and the properties of trading at them.
use basingamarket.Base.{ℕ, ◌+◌, ◌≡◌, refl, true, arith, ok, is_ok, value_of, value_of-eq}
use basingamarket.Base.Int.{pos}
use basingamarket.Program.Curve.{quote_buy, apply_buy}
use basingamarket.Program.FreshBuy.{FreshBuyExecution, execute_fresh_buy, pay, require_accounts}
use basingamarket.Program.FreshBuy.Instructions.{
  BuyFreshFromVault, BuyFreshFromVaultArgs, buy_fresh_from_vault,
}
use basingamarket.Program.FreshBuy.Balances.{HasPaid, IsApart, execute_fresh_buy_balances}
use basingamarket.Program.Guards.{
  require_settlement_actor, require_not_paused, require_live_trading,
}
use basingamarket.Program.Lot.{init_lot}
use basingamarket.Program.Math.{fee_amount, mul_div, checked_add, checked_sub}
use basingamarket.Program.Settlement.Outcome.{gross_vault}
use basingamarket.Program.State.{Side}
use basingamarket.Program.Tests.Data.{
  Balances, toy, toy-IsSpl, config_account, round_account, blank_lot, balances,
}
use basingamarket.Program.Token.{require_token_account, transfer_checked}

-- A purchase of 20 dollars on the side up by the buyer.
abbrev pub purchase : FreshBuyExecution Balances
purchase = record {
  global_config = config_account;
  round = round_account;
  position_lot = blank_lot;
  ledger = balances;
  usdc_mint = 9;
  source_usdc_account = 11;
  round_vault = 12;
  fee_vault = 13;
  source_authority = 1;
  position_owner = 1;
  lot_id = 1;
  side = Side.up;
  usdc_in = 20000000;
  min_tickets_out = 1;
}

pub purchase_goes_through : is_ok (execute_fresh_buy toy (pos 120) purchase) ≡ true
unfolding execute_fresh_buy require_not_paused require_live_trading fee_amount checked_sub
    checked_add quote_buy apply_buy require_accounts require_token_account pay transfer_checked
    init_lot mul_div
purchase_goes_through = refl

-- Its accounts afterwards.
abbrev pub purchased : FreshBuyExecution Balances
purchased = value_of (execute_fresh_buy toy (pos 120) purchase) purchase_goes_through

pub purchased-eq : execute_fresh_buy toy (pos 120) purchase ≡ ok purchased
purchased-eq = value_of-eq (execute_fresh_buy toy (pos 120) purchase) purchase_goes_through

purchase-IsApart : IsApart toy toy-IsSpl purchase
purchase-IsApart = omega arith

execute_fresh_buy_balances_example :
    (net : ℕ) × (fee : ℕ) × (net + fee ≡ 20000000)
    × HasPaid toy toy-IsSpl purchase purchased.ledger net fee
    × (gross_vault purchased.round.value ≡ 0 + net)
    × (purchased.global_config.value.protocol_fee_accrued_usdc ≡ 0 + fee)
execute_fresh_buy_balances_example =
    execute_fresh_buy_balances toy toy-IsSpl (pos 120) purchase purchase-IsApart purchased-eq

-- A purchase for the buyer out of the cashier's vault.
abbrev vault_purchase : BuyFreshFromVault Balances
vault_purchase = record {
  global_config = config_account;
  round = round_account;
  position_lot = blank_lot;
  usdc_mint = 9;
  cash_vault = 15;
  round_vault = 12;
  fee_vault = 13;
  cashier = 5;
  ledger = balances;
}

abbrev vault_purchase_args : BuyFreshFromVaultArgs
vault_purchase_args = record {
  lot_id = 1;
  side = Side.down;
  position_owner = 1;
  usdc_in = 20000000;
  min_tickets_out = 1;
}

vault_purchase_goes_through :
    is_ok (buy_fresh_from_vault toy (pos 120) vault_purchase vault_purchase_args) ≡ true
unfolding buy_fresh_from_vault require_settlement_actor execute_fresh_buy require_not_paused
    require_live_trading fee_amount checked_sub checked_add quote_buy apply_buy require_accounts
    require_token_account pay transfer_checked init_lot mul_div
vault_purchase_goes_through = refl
