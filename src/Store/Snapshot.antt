-- ===== src/Store/Snapshot.antt =====
-- The snapshot of the cash ledgers (crates/db/src/cash_snapshot.rs) and the tickets that are rebuilt from
-- it (`rebuild_cash_ticket_projection_from_snapshot` of crates/db/src/memory.rs). The file and its JSON
-- are left out.
pub mod Rebuild
pub mod RoundTrip
pub mod Kept
use basingamarket.Base.{ℕ, List}
use basingamarket.Store.Key.{text_key, nat_key}
use basingamarket.Store.Map.{values, collect}
use basingamarket.Store.Rows.Events.{PayoutClaimRow}
use basingamarket.Store.Rows.Cash.{
  CashBalanceRow, BusdcMintRow, CashTradeReservationRow, CashTradeRow, CashBidRow, CashResaleRow,
  CashDepositRow, SolDepositQuoteRow, SolDepositRow, TransferDepositQuoteRow, TransferDepositRow,
  CashWithdrawalQuoteRow, CashWithdrawalRow,
}
use basingamarket.Store.State.{ProjectionState, Outcome}
use basingamarket.Store.Snapshot.Rebuild.{rebuild_cash_ticket_projection_from_snapshot}

pub record CashProjectionSnapshot : Type 0 where
  pub version : ℕ
  pub cash_balances : List CashBalanceRow
  pub busdc_mints : List BusdcMintRow
  pub cash_trade_reservations : List CashTradeReservationRow
  pub cash_trades : List CashTradeRow
  pub cash_bids : List CashBidRow
  pub cash_resales : List CashResaleRow
  pub payout_claims : List PayoutClaimRow
  pub cash_deposits : List CashDepositRow
  pub sol_deposit_quotes : List SolDepositQuoteRow
  pub sol_deposits : List SolDepositRow
  pub transfer_deposit_quotes : List TransferDepositQuoteRow
  pub transfer_deposits : List TransferDepositRow
  pub cash_withdrawal_quotes : List CashWithdrawalQuoteRow
  pub cash_withdrawals : List CashWithdrawalRow

unfoldable pub cash_projection_snapshot : ProjectionState → CashProjectionSnapshot
cash_projection_snapshot state = record {
  version = 1;
  cash_balances = values state.cash_balances;
  busdc_mints = values state.busdc_mints;
  cash_trade_reservations = values state.cash_trade_reservations;
  cash_trades = values state.cash_trades;
  cash_bids = values state.cash_bids;
  cash_resales = values state.cash_resales;
  payout_claims = values state.payout_claims;
  cash_deposits = values state.cash_deposits;
  sol_deposit_quotes = values state.sol_deposit_quotes;
  sol_deposits = values state.sol_deposits;
  transfer_deposit_quotes = values state.transfer_deposit_quotes;
  transfer_deposits = values state.transfer_deposits;
  cash_withdrawal_quotes = values state.cash_withdrawal_quotes;
  cash_withdrawals = values state.cash_withdrawals;
}

unfoldable pub replace_ledgers : CashProjectionSnapshot → ProjectionState → ProjectionState
replace_ledgers snapshot state = record state {
  cash_balances = collect (λ row. row.wallet_address) snapshot.cash_balances;
  busdc_mints = collect (λ row. row.mint_id) snapshot.busdc_mints;
  cash_trade_reservations = collect (λ row. row.trade_id) snapshot.cash_trade_reservations;
  cash_trades = collect (λ row. row.signature) snapshot.cash_trades;
  cash_bids = collect (λ row. row.bid_id) snapshot.cash_bids;
  cash_resales = collect (λ row. row.signature) snapshot.cash_resales;
  payout_claims = collect (λ row. row.ticket_id) snapshot.payout_claims;
  cash_deposits = collect (λ row. row.signature) snapshot.cash_deposits;
  sol_deposit_quotes = collect (λ row. row.quote_id) snapshot.sol_deposit_quotes;
  sol_deposits = collect (λ row. row.signature) snapshot.sol_deposits;
  transfer_deposit_quotes = collect (λ row. row.quote_id) snapshot.transfer_deposit_quotes;
  transfer_deposits = collect (λ row. row.signature) snapshot.transfer_deposits;
  cash_withdrawal_quotes = collect (λ row. row.quote_id) snapshot.cash_withdrawal_quotes;
  cash_withdrawals = collect (λ row. row.vault_signature) snapshot.cash_withdrawals;
}

unfoldable pub replace_cash_projection_snapshot :
    CashProjectionSnapshot → ProjectionState → Outcome (Unit {0})
replace_cash_projection_snapshot snapshot state =
    rebuild_cash_ticket_projection_from_snapshot (replace_ledgers snapshot state)
