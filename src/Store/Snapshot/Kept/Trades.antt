-- ===== src/Store/Snapshot/Kept/Trades.antt =====
-- Reservations, trades and bids keep the ledgers.
use basingamarket.Base.{
  Option, some, none, true, ok, err, ◌≡◌, refl, arith, not, bytes_eq, or_return-Leaves, Leaves,
  leaves, if-keeps,
}
use basingamarket.Store.Key.{Text, text_key, nat_key}
use basingamarket.Store.Map.{get}
use basingamarket.Store.Map.Collect.{insert-Kept}
use basingamarket.Store.Rows.Events.{Time}
use basingamarket.Store.Rows.Error.{
  DbResult, projection, cash_bid_wallet_mismatch, cash_bid_is_not_active,
}
use basingamarket.Store.Balances.{credited, upsert_cash_balance}
use basingamarket.Store.Prices.{active_text}
use basingamarket.Store.Rows.Cash.{CashTradeReservationRow, CashTradeRow, CashBidRow}
use basingamarket.Store.State.{ProjectionState, Outcome}
use basingamarket.Store.Reservations.{
  reserve_cash_trade, release_found, release_cash_trade_reservation, insert_ticket_for_cash_trade,
  spend_reservation, reservation_for, with_result, record_new_trade, trade_once, record_cash_trade,
  new_ticket_for_trade,
}
use basingamarket.Store.Bids.{
  put_bid, insert_cash_bid, cancelled_bid, cancel_found, cancel_cash_bid,
}
use basingamarket.Store.Snapshot.RoundTrip.{reservation_ledger, trade_ledger, IsKept, WellKept}
use basingamarket.Store.Snapshot.Kept.{
  upsert_cash_balance-WellKept, put_reservation-WellKept, put_bid-WellKept, reservation-key,
  bid-key, add_bought-WellKept,
}

pub reserve_cash_trade-WellKept :
    (row : CashTradeReservationRow) (state : ProjectionState)
    → WellKept state
    → Leaves WellKept (reserve_cash_trade row state)
unfolding reserve_cash_trade
reserve_cash_trade-WellKept row state kept = if-keeps (Leaves WellKept) _ (leaves WellKept _ kept) (
    or_return-Leaves WellKept _ state _ kept (λ balance. leaves WellKept _ (
      put_reservation-WellKept row.trade_id row _ refl
        (upsert_cash_balance-WellKept balance state kept))))

release_found-WellKept :
    (now : Time) (trade_id : Text) (found : Option CashTradeReservationRow)
    (state : ProjectionState)
    → get trade_id state.cash_trade_reservations ≡ found
    → WellKept state
    → Leaves WellKept (release_found now trade_id found state)
unfolding release_found
release_found-WellKept now trade_id none state at kept = leaves WellKept _ kept
release_found-WellKept now trade_id (some row) state at kept =
    if-keeps (Leaves WellKept) _ (leaves WellKept _ kept) (
      or_return-Leaves WellKept _ state _ kept (λ balance. leaves WellKept _ (
        put_reservation-WellKept trade_id (record row { released = true; updated_at = now }) _
          (reservation-key trade_id row state kept at)
          (upsert_cash_balance-WellKept balance state kept))))

pub release_cash_trade_reservation-WellKept :
    (now : Time) (trade_id : Text) (state : ProjectionState)
    → WellKept state
    → Leaves WellKept (release_cash_trade_reservation now trade_id state)
unfolding release_cash_trade_reservation
release_cash_trade_reservation-WellKept now trade_id state kept =
    release_found-WellKept now trade_id _ state refl kept

insert_ticket_for_cash_trade-WellKept :
    (row : CashTradeRow) (state : ProjectionState)
    → WellKept state
    → Leaves WellKept (insert_ticket_for_cash_trade row state)
unfolding insert_ticket_for_cash_trade
insert_ticket_for_cash_trade-WellKept row state kept =
    if-keeps (Leaves WellKept) _ (leaves WellKept _ kept) (
      or_return-Leaves WellKept (new_ticket_for_trade row) state _ kept
        (λ ticket. leaves WellKept _ (add_bought-WellKept ticket state kept)))

spend_reservation-WellKept :
    (row : CashTradeRow) (reservation : CashTradeReservationRow) (state : ProjectionState)
    → row.trade_id ≡ reservation.trade_id
    → WellKept state
    → WellKept (spend_reservation row reservation state)
unfolding IsKept
spend_reservation-WellKept row reservation state own kept reservation_ledger =
    insert-Kept (λ row. row.trade_id) row.trade_id _ state.cash_trade_reservations own
      (kept reservation_ledger)
spend_reservation-WellKept row reservation state own kept trade_ledger =
    insert-Kept (λ row. row.signature) row.signature row state.cash_trades refl (kept trade_ledger)
spend_reservation-WellKept row reservation state own kept other = kept other

with_result-WellKept :
    {A B : Type 0} (outcome : Outcome A) (value : B)
    → Leaves WellKept outcome
    → Leaves WellKept (with_result outcome value)
unfolding Leaves
with_result-WellKept (state, ok a) value kept = kept
with_result-WellKept (state, err e) value kept = kept

-- The reservation that a trade may spend is the one that was found.
spent-key :
    (row : CashTradeRow) (found : Option CashTradeReservationRow)
    (reservation : CashTradeReservationRow) (state : ProjectionState)
    → get row.trade_id state.cash_trade_reservations ≡ found
    → reservation_for row found ≡ ok reservation
    → WellKept state
    → row.trade_id ≡ reservation.trade_id
unfolding reservation_for
spent-key row none reservation state at fits kept = cc
spent-key row (some known) reservation state at fits kept =
    ground (arith, reservation-key row.trade_id known state kept at, fits)

record_new_trade-WellKept :
    (row : CashTradeRow) (fitting : DbResult CashTradeReservationRow) (state : ProjectionState)
    → reservation_for row (get row.trade_id state.cash_trade_reservations) ≡ fitting
    → WellKept state
    → Leaves WellKept (record_new_trade row fitting state)
unfolding record_new_trade
record_new_trade-WellKept row (err e) state fits kept = leaves WellKept _ kept
record_new_trade-WellKept row (ok reservation) state fits kept = with_result-WellKept _ _ (
    insert_ticket_for_cash_trade-WellKept row _ (
      spend_reservation-WellKept row reservation state
        (spent-key row _ reservation state refl fits kept) kept))

trade_once-WellKept :
    (row : CashTradeRow) (known : Option CashTradeRow) (state : ProjectionState)
    → WellKept state
    → Leaves WellKept (trade_once row known state)
unfolding trade_once
trade_once-WellKept row (some existing) state kept = leaves WellKept _ kept
trade_once-WellKept row none state kept = record_new_trade-WellKept row _ state refl kept

pub record_cash_trade-WellKept :
    (row : CashTradeRow) (state : ProjectionState)
    → WellKept state
    → Leaves WellKept (record_cash_trade row state)
unfolding record_cash_trade
record_cash_trade-WellKept row state kept = trade_once-WellKept row _ state kept

pub insert_cash_bid-WellKept :
    (row : CashBidRow) (state : ProjectionState)
    → WellKept state
    → Leaves WellKept (insert_cash_bid row state)
unfolding insert_cash_bid
insert_cash_bid-WellKept row state kept = if-keeps (Leaves WellKept) _ (leaves WellKept _ kept) (
    or_return-Leaves WellKept _ state _ kept (λ balance.
      leaves WellKept _
        (put_bid-WellKept row.bid_id row _ refl (upsert_cash_balance-WellKept balance state kept))))

cancel_found-WellKept :
    (now : Time) (bid_id wallet : Text) (found : Option CashBidRow) (state : ProjectionState)
    → get bid_id state.cash_bids ≡ found
    → WellKept state
    → Leaves WellKept (cancel_found now bid_id wallet found state)
unfolding cancel_found
cancel_found-WellKept now bid_id wallet none state at kept = leaves WellKept _ kept
cancel_found-WellKept now bid_id wallet (some bid) state at kept =
    let left =
      put_bid-WellKept bid_id (cancelled_bid now bid) state (bid-key bid_id bid state kept at)
        kept in
    if-keeps (Leaves WellKept) (not (bytes_eq bid.buyer_wallet wallet))
      (leaves WellKept (state, err (projection cash_bid_wallet_mismatch)) kept)
      (if-keeps (Leaves WellKept) (not (bytes_eq bid.status active_text))
        (leaves WellKept (state, err (projection cash_bid_is_not_active)) kept)
        (or_return-Leaves WellKept
          (credited wallet bid.remaining_usdc now (put_bid bid_id (cancelled_bid now bid) state))
          (put_bid bid_id (cancelled_bid now bid) state)
          (λ balance. (
            upsert_cash_balance balance (put_bid bid_id (cancelled_bid now bid) state),
            ok balance,
          ))
          left (λ balance. leaves WellKept _ (upsert_cash_balance-WellKept balance _ left))))

pub cancel_cash_bid-WellKept :
    (now : Time) (bid_id wallet : Text) (state : ProjectionState)
    → WellKept state
    → Leaves WellKept (cancel_cash_bid now bid_id wallet state)
unfolding cancel_cash_bid
cancel_cash_bid-WellKept now bid_id wallet state kept =
    cancel_found-WellKept now bid_id wallet _ state refl kept
