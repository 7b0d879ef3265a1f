-- ===== src/Store/Rows/Error.antt =====
-- `DbError` of crates/db/src/rows.rs: the three missing rows, and the messages that the store gives to
-- `DbError::Projection`. Errors of files, JSON and the database do not arise in it.
use basingamarket.Base.{ℕ, Result, List}

pub data Message : Type 0 where
  busdc_mint_already_exists busdc_mint_limit_exceeded : Message
  cash_balance_overflow cash_balance_insufficient cash_balance_underflow : Message
  cash_trade_reservation_already_exists cash_trade_reservation_not_found : Message
  cash_trade_reservation_mismatch cash_trade_reservation_released : Message
  cash_trade_reservation_already_completed cash_trade_entry_overflow : Message
  invalid_cash_trade_side : Message
  cash_bid_already_exists cash_bid_not_found cash_bid_wallet_mismatch : Message
  cash_bid_is_not_active cash_bid_fill_mismatch : Message
  sol_deposit_quote_not_found sol_deposit_quote_already_used : Message
  transfer_deposit_quote_not_found transfer_deposit_quote_already_used : Message
  cash_withdrawal_quote_not_found cash_withdrawal_quote_already_used : Message
  seller_does_not_own_ticket ticket_is_already_claimed ticket_amount_underflow : Message
  outcome_not_found : (outcome_id : ℕ) → Message
  outcome_total_stake_overflow outcome_reward_share_overflow : Message
  entry_price_overflow entry_total_overflow prorated_amount_overflow : Message
  settlement_entry_overflow : Message
  unsupported_side : (side : List ℕ) → Message

pub data DbError : Type 0 where
  market_not_found : (market_id : ℕ) → DbError
  ticket_not_found : (ticket_id : ℕ) → DbError
  share_card_not_found : (id : ℕ) → DbError
  projection : (message : Message) → DbError

abbrev pub DbResult {ℓ} : Type ℓ → Type ℓ
DbResult A = Result DbError A
