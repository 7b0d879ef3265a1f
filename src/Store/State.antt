-- ===== src/Store/State.antt =====
-- `ProjectionState` of crates/db/src/memory.rs. The raw events that the engine stores and replays stay
-- with the engine. An operation is a function from the state to the state that it leaves behind, also
-- where it fails, and its result.
use basingamarket.Base.{ℕ, List, Option}
use basingamarket.Store.Key.{Text}
use basingamarket.Store.Map.{BTreeMap}
use basingamarket.Store.Rows.Events.{
  MarketRow, OutcomeRow, TicketRow, TicketTransferRow, PositionHistoryRow, CanvasObjectRow,
  PayoutClaimRow, ShareCardRow,
}
use basingamarket.Store.Rows.Cash.{
  ProfileRow, CashBalanceRow, BusdcMintRow, CashTradeReservationRow, CashTradeRow, CashBidRow,
  CashResaleRow, CashDepositRow, SolDepositQuoteRow, SolDepositRow, TransferDepositQuoteRow,
  TransferDepositRow, CashWithdrawalQuoteRow, CashWithdrawalRow,
}
use basingamarket.Store.Rows.Error.{DbResult}

pub record ProjectionState : Type 0 where
  pub markets : BTreeMap ℕ MarketRow
  pub outcomes : BTreeMap (ℕ × ℕ) OutcomeRow
  pub tickets : BTreeMap ℕ TicketRow
  pub transfers : List TicketTransferRow
  pub positions : List PositionHistoryRow
  pub canvas_objects : BTreeMap (ℕ × ℕ) CanvasObjectRow
  pub payout_claims : BTreeMap ℕ PayoutClaimRow
  pub profiles : BTreeMap Text ProfileRow
  pub cash_balances : BTreeMap Text CashBalanceRow
  pub busdc_mints : BTreeMap Text BusdcMintRow
  pub cash_trade_reservations : BTreeMap Text CashTradeReservationRow
  pub cash_trades : BTreeMap Text CashTradeRow
  pub cash_bids : BTreeMap Text CashBidRow
  pub cash_resales : BTreeMap Text CashResaleRow
  pub cash_deposits : BTreeMap Text CashDepositRow
  pub sol_deposit_quotes : BTreeMap Text SolDepositQuoteRow
  pub sol_deposits : BTreeMap Text SolDepositRow
  pub transfer_deposit_quotes : BTreeMap Text TransferDepositQuoteRow
  pub transfer_deposits : BTreeMap Text TransferDepositRow
  pub cash_withdrawal_quotes : BTreeMap Text CashWithdrawalQuoteRow
  pub cash_withdrawals : BTreeMap Text CashWithdrawalRow
  pub share_cards : BTreeMap ℕ ShareCardRow
  pub indexer_cursor : Option ℕ

-- What an operation on the locked state does.
abbrev pub Outcome {ℓ} : Type ℓ → Type ℓ
Outcome A = ProjectionState × DbResult A
