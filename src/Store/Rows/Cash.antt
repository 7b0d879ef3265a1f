-- ===== src/Store/Rows/Cash.antt =====
-- The rows of money: balances, mints, purchases, bids, resales, deposits and withdrawals
-- (crates/db/src/rows.rs and withdrawals.rs).
use basingamarket.Base.{ℕ, Bool, Option}
use basingamarket.Store.Key.{Text}
use basingamarket.Store.Rows.Events.{Time, TicketRow}

pub record ProfileRow : Type 0 where
  pub wallet_address : Text
  pub display_name : Option Text
  pub avatar_url : Option Text
  pub updated_at : Time

pub record CashBalanceRow : Type 0 where
  pub wallet_address : Text
  pub cash_balance : ℕ
  pub updated_at : Time

pub record BusdcMintRow : Type 0 where
  pub mint_id : Text
  pub wallet_address : Text
  pub mint_day : Text
  pub amount : ℕ
  pub created_at : Time

pub record CashTradeReservationRow : Type 0 where
  pub trade_id : Text
  pub wallet_address : Text
  pub amount : ℕ
  pub released : Bool
  pub completed_signature : Option Text
  pub created_at : Time
  pub updated_at : Time

pub record CashTradeRow : Type 0 where
  pub trade_id : Text
  pub wallet_address : Text
  pub signature : Text
  pub mint : Text
  pub vault_token_account : Text
  pub market_id : ℕ
  pub round_id : ℕ
  pub position_lot : Text
  pub lot_id : ℕ
  pub side : Text
  pub usdc_in : ℕ
  pub fee_usdc : ℕ
  pub net_usdc : ℕ
  pub tickets_out : ℕ
  pub created_at : Time

pub record CashBidRow : Type 0 where
  pub bid_id : Text
  pub market_id : ℕ
  pub round_id : ℕ
  pub side : Text
  pub buyer_wallet : Text
  pub price_per_ticket : ℕ
  pub max_usdc : ℕ
  pub remaining_usdc : ℕ
  pub status : Text
  pub created_at : Time
  pub updated_at : Time

pub record CashResaleRow : Type 0 where
  pub sale_id : Text
  pub signature : Text
  pub bid_id : Option Text
  pub market_id : ℕ
  pub round_id : ℕ
  pub seller_wallet : Text
  pub buyer_wallet : Text
  pub source_lot_id : ℕ
  pub buyer_lot_id : Option ℕ
  pub side : Text
  pub tickets_sold : ℕ
  pub gross_usdc : ℕ
  pub resale_fee : ℕ
  pub early_flip_fee : ℕ
  pub seller_receives : ℕ
  pub created_at : Time

pub record CashDepositRow : Type 0 where
  pub wallet_address : Text
  pub signature : Text
  pub mint : Text
  pub vault_token_account : Text
  pub amount : ℕ
  pub slot : ℕ
  pub created_at : Time

pub record SolDepositQuoteRow : Type 0 where
  pub quote_id : Text
  pub wallet_address : Text
  pub cash_amount : ℕ
  pub lamports : ℕ
  pub price : ℕ
  pub treasury : Text
  pub expires_at : Time
  pub used_signature : Option Text
  pub created_at : Time

pub record SolDepositRow : Type 0 where
  pub wallet_address : Text
  pub signature : Text
  pub quote_id : Text
  pub treasury : Text
  pub lamports : ℕ
  pub cash_amount : ℕ
  pub price : ℕ
  pub slot : ℕ
  pub created_at : Time

pub record TransferDepositQuoteRow : Type 0 where
  pub quote_id : Text
  pub wallet_address : Text
  pub asset : Text
  pub cash_amount : ℕ
  pub transfer_amount : ℕ
  pub price : Option ℕ
  pub destination : Text
  pub mint : Option Text
  pub reference : Text
  pub expires_at : Time
  pub used_signature : Option Text
  pub created_at : Time

pub record TransferDepositRow : Type 0 where
  pub wallet_address : Text
  pub signature : Text
  pub quote_id : Text
  pub asset : Text
  pub destination : Text
  pub transfer_amount : ℕ
  pub cash_amount : ℕ
  pub price : Option ℕ
  pub slot : ℕ
  pub created_at : Time

pub record CashWithdrawalQuoteRow : Type 0 where
  pub quote_id : Text
  pub wallet_address : Text
  pub destination_wallet : Option Text
  pub destination_token_account : Text
  pub cash_amount : ℕ
  pub message : Text
  pub expires_at : Time
  pub used_user_signature : Option Text
  pub created_at : Time

pub record CashWithdrawalRow : Type 0 where
  pub wallet_address : Text
  pub destination_wallet : Option Text
  pub quote_id : Text
  pub user_signature : Text
  pub vault_signature : Text
  pub mint : Text
  pub vault_token_account : Text
  pub destination_token_account : Text
  pub amount : ℕ
  pub created_at : Time

pub record TicketClaimResult : Type 0 where
  pub ticket : TicketRow
  pub cash_balance : CashBalanceRow
  pub amount : ℕ
  pub credited : Bool
