-- ===== src/Store/Snapshot/Kept.antt =====
-- The ledgers stay well kept: each row that is written stands under its own key.
pub mod Deposits
pub mod Trades
pub mod Resales
pub mod Always
use basingamarket.Base.{ℕ, ◌≡◌, refl, some}
use basingamarket.Store.Key.{Text, text_key, nat_key}
use basingamarket.Store.Map.{get, insert}
use basingamarket.Store.Map.Collect.{insert-Kept, get-Keyed}
use basingamarket.Store.Rows.Cash.{CashBalanceRow, CashTradeReservationRow, CashBidRow}
use basingamarket.Store.Rows.Events.{TicketRow}
use basingamarket.Store.State.{ProjectionState}
use basingamarket.Store.Balances.{upsert_cash_balance}
use basingamarket.Store.Canvas.{insert_canvas_object}
use basingamarket.Store.Tickets.{set_ticket, put_ticket}
use basingamarket.Store.Reservations.{put_reservation}
use basingamarket.Store.Bids.{put_bid}
use basingamarket.Store.Snapshot.RoundTrip.{
  Ledger, balance_ledger, reservation_ledger, bid_ledger, IsKept, WellKept,
}

pub upsert_cash_balance-WellKept :
    (row : CashBalanceRow) (state : ProjectionState)
    → WellKept state
    → WellKept (upsert_cash_balance row state)
unfolding upsert_cash_balance IsKept
upsert_cash_balance-WellKept row state kept balance_ledger =
    insert-Kept (λ row. row.wallet_address) row.wallet_address row state.cash_balances refl
      (kept balance_ledger)
upsert_cash_balance-WellKept row state kept other = kept other

pub put_reservation-WellKept :
    (trade_id : Text) (row : CashTradeReservationRow) (state : ProjectionState)
    → trade_id ≡ row.trade_id
    → WellKept state
    → WellKept (put_reservation trade_id row state)
unfolding IsKept
put_reservation-WellKept trade_id row state own kept reservation_ledger =
    insert-Kept (λ row. row.trade_id) trade_id row state.cash_trade_reservations own
      (kept reservation_ledger)
put_reservation-WellKept trade_id row state own kept other = kept other

pub put_bid-WellKept :
    (bid_id : Text) (row : CashBidRow) (state : ProjectionState)
    → bid_id ≡ row.bid_id
    → WellKept state
    → WellKept (put_bid bid_id row state)
unfolding IsKept
put_bid-WellKept bid_id row state own kept bid_ledger =
    insert-Kept (λ row. row.bid_id) bid_id row state.cash_bids own (kept bid_ledger)
put_bid-WellKept bid_id row state own kept other = kept other

-- A reservation and a bid that are found stand under their own keys.
pub reservation-key :
    (trade_id : Text) (row : CashTradeReservationRow) (state : ProjectionState)
    → WellKept state
    → get trade_id state.cash_trade_reservations ≡ some row
    → trade_id ≡ row.trade_id
unfolding IsKept
reservation-key trade_id row state kept found =
    get-Keyed (λ row. row.trade_id) trade_id row state.cash_trade_reservations
      (kept reservation_ledger).1 found

pub bid-key :
    (bid_id : Text) (row : CashBidRow) (state : ProjectionState)
    → WellKept state
    → get bid_id state.cash_bids ≡ some row
    → bid_id ≡ row.bid_id
unfolding IsKept
bid-key bid_id row state kept found =
    get-Keyed (λ row. row.bid_id) bid_id row state.cash_bids (kept bid_ledger).1 found

-- Tickets and the canvas are no ledgers.
pub set_ticket-WellKept :
    (id : ℕ) (row : TicketRow) (state : ProjectionState)
    → WellKept state
    → WellKept (set_ticket id row state)
unfolding IsKept
set_ticket-WellKept id row state kept balance_ledger = kept balance_ledger
set_ticket-WellKept id row state kept other = kept other

pub add_bought-WellKept :
    (row : TicketRow) (state : ProjectionState)
    → WellKept state
    → WellKept (put_ticket row (insert_canvas_object row state))
unfolding IsKept insert_canvas_object
add_bought-WellKept row state kept balance_ledger = kept balance_ledger
add_bought-WellKept row state kept other = kept other
