-- ===== src/Store/Tests/Data.antt =====
-- A small store: two wallets, a deposit, a purchase and a resale.
use basingamarket.Base.{ℕ, false, [], ◌∷◌, some, none, if◌then◌else◌}
use basingamarket.Base.Int.{pos, leb_ℤ}
use basingamarket.Store.Key.{Text}
use basingamarket.Store.Rows.Events.{Time, Dates, EventMeta}
use basingamarket.Store.Rows.Cash.{
  CashDepositRow, CashTradeReservationRow, CashTradeRow, CashBidRow, CashResaleRow,
}
use basingamarket.Store.State.{ProjectionState}
use basingamarket.Store.Prices.{up_text, active_text}

abbrev pub empty : ProjectionState
empty = record {
  markets = [];
  outcomes = [];
  tickets = [];
  transfers = [];
  positions = [];
  canvas_objects = [];
  payout_claims = [];
  profiles = [];
  cash_balances = [];
  busdc_mints = [];
  cash_trade_reservations = [];
  cash_trades = [];
  cash_bids = [];
  cash_resales = [];
  cash_deposits = [];
  sol_deposit_quotes = [];
  sol_deposits = [];
  transfer_deposit_quotes = [];
  transfer_deposits = [];
  cash_withdrawal_quotes = [];
  cash_withdrawals = [];
  share_cards = [];
  indexer_cursor = none;
}

abbrev pub alice : Text
alice = 65 ∷ []

abbrev pub bob : Text
bob = 66 ∷ []

abbrev pub noon : Time
noon = pos 1000

-- Seconds up to the year 262142 are dates.
abbrev pub dates : Dates
dates seconds nanos = if leb_ℤ seconds (pos 8210266876799) then some seconds else none

abbrev pub meta_at : ℕ → EventMeta
meta_at at = record {
  cluster = 68 ∷ [];
  program_id = 80 ∷ [];
  slot = at;
  block_hash = 72 ∷ [];
  signature = 83 ∷ [];
  instruction_index = 0;
}

abbrev pub deposit_of : Text → Text → ℕ → CashDepositRow
deposit_of wallet sign paid = record {
  wallet_address = wallet;
  signature = sign;
  mint = 77 ∷ [];
  vault_token_account = 86 ∷ [];
  amount = paid;
  slot = 5;
  created_at = noon;
}

abbrev pub reservation : CashTradeReservationRow
reservation = record {
  trade_id = 1 ∷ [];
  wallet_address = alice;
  amount = 1000000;
  released = false;
  completed_signature = none;
  created_at = noon;
  updated_at = noon;
}

abbrev pub purchase : CashTradeRow
purchase = record {
  trade_id = 1 ∷ [];
  wallet_address = alice;
  signature = 2 ∷ [];
  mint = 77 ∷ [];
  vault_token_account = 86 ∷ [];
  market_id = 1;
  round_id = 7;
  position_lot = 80 ∷ [];
  lot_id = 42;
  side = up_text;
  usdc_in = 1000000;
  fee_usdc = 5000;
  net_usdc = 995000;
  tickets_out = 1900000;
  created_at = noon;
}

abbrev pub bid_of_bob : CashBidRow
bid_of_bob = record {
  bid_id = 3 ∷ [];
  market_id = 1;
  round_id = 7;
  side = up_text;
  buyer_wallet = bob;
  price_per_ticket = 600000;
  max_usdc = 600000;
  remaining_usdc = 600000;
  status = active_text;
  created_at = noon;
  updated_at = noon;
}

-- Bob's bid buys a part of Alice's ticket, for half a dollar less fees.
abbrev pub sale : CashResaleRow
sale = record {
  sale_id = 4 ∷ [];
  signature = 5 ∷ [];
  bid_id = some (3 ∷ []);
  market_id = 1;
  round_id = 7;
  seller_wallet = alice;
  buyer_wallet = bob;
  source_lot_id = 42;
  buyer_lot_id = some 43;
  side = up_text;
  tickets_sold = 900000;
  gross_usdc = 500000;
  resale_fee = 2500;
  early_flip_fee = 10000;
  seller_receives = 487500;
  created_at = noon;
}
