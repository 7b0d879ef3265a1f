-- ===== src/Store/Ledger/Once/Trades.antt =====
-- Trades and resales are recorded once.
use basingamarket.Base.{
  Bool, false, ◌≡◌, refl, Option, some, none, ok, err, or_return, ap, sym, ◌∙◌, arith,
}
use basingamarket.Store.Key.{text_key, nat_key}
use basingamarket.Store.Map.{get, insert}
use basingamarket.Store.Map.Laws.{get-insert}
use basingamarket.Store.Rows.Error.{DbResult}
use basingamarket.Store.Rows.Cash.{
  CashBalanceRow, CashTradeRow, CashResaleRow, CashTradeReservationRow,
}
use basingamarket.Store.State.{ProjectionState, Outcome}
use basingamarket.Store.Balances.{credited, upsert_cash_balance}
use basingamarket.Store.Canvas.{insert_canvas_object}
use basingamarket.Store.Reservations.{
  reservation_for, insert_ticket_for_cash_trade, spend_reservation, record_new_trade, trade_once,
  record_cash_trade,
}
use basingamarket.Store.Resales.{
  pay_resale, then_do, apply_cash_resale_to_tickets, finish_resale, record_new_resale, resale_once,
  record_cash_resale,
}
use basingamarket.Store.Ledger.Posts.Trades.{with_result-ok}
use basingamarket.Store.Ledger.Posts.Resales.{then_do-ok}
use basingamarket.Store.Ledger.Once.{Known}

ticket_trades :
    (row : CashTradeRow) (state : ProjectionState)
    → (insert_ticket_for_cash_trade row state).0.cash_trades ≡ state.cash_trades
unfolding insert_ticket_for_cash_trade insert_canvas_object
ticket_trades row state = ground arith

record_new_trade-Known :
    (row : CashTradeRow) (found : DbResult CashTradeReservationRow) (state after : ProjectionState)
    (reply : CashBalanceRow × Bool)
    → record_new_trade row found state ≡ (after, ok reply)
    → Known (get row.signature after.cash_trades)
unfolding record_new_trade
record_new_trade-Known row (err e) state after reply run = cc
record_new_trade-Known row (ok reservation) state after reply run =
    let spent = spend_reservation row reservation state in
    let same = with_result-ok (insert_ticket_for_cash_trade row spent) _ run in
    let there = get-insert row.signature row state.cash_trades in
    (
      row,
      ap (λ left. get row.signature left.cash_trades) (sym same)
          ∙ ap (λ trades. get row.signature trades) (ticket_trades row spent)
          ∙ there,
    )

trade_once-Known :
    (row : CashTradeRow) (found : Option CashTradeRow) (state after : ProjectionState)
    (reply : CashBalanceRow × Bool)
    → get row.signature state.cash_trades ≡ found
    → trade_once row found state ≡ (after, ok reply)
    → Known (get row.signature after.cash_trades)
unfolding trade_once
trade_once-Known row (some existing) state after reply at run = (existing, cc)
trade_once-Known row none state after reply at run =
    record_new_trade-Known row
      (reservation_for row (get row.trade_id state.cash_trade_reservations)) state after reply run

trade_once_again :
    (row : CashTradeRow) (state : ProjectionState) (found : Option CashTradeRow)
    → Known found
    → (balance : CashBalanceRow) × (trade_once row found state ≡ (state, ok (balance, false)))
unfolding trade_once
trade_once_again row state none (existing, h) = cc
trade_once_again row state (some existing) known = (_, refl)

pub record_cash_trade_again :
    (row : CashTradeRow) (state after : ProjectionState) (reply : CashBalanceRow × Bool)
    → record_cash_trade row state ≡ (after, ok reply)
    → (balance : CashBalanceRow) × (record_cash_trade row after ≡ (after, ok (balance, false)))
unfolding record_cash_trade
record_cash_trade_again row state after reply run =
    trade_once_again row after (get row.signature after.cash_trades)
      (trade_once-Known row (get row.signature state.cash_trades) state after reply refl run)

finished-Known :
    (row : CashResaleRow) (first : Outcome (Unit {0})) (after : ProjectionState)
    (reply : CashBalanceRow × CashBalanceRow × Bool)
    → then_do first (finish_resale row) ≡ (after, ok reply)
    → Known (get row.signature after.cash_resales)
unfolding finish_resale
finished-Known row (state, err e) after reply run = cc
finished-Known row (state, ok unit) after reply run =
    let same : record state { cash_resales = insert row.signature row state.cash_resales } ≡ after =
      ap (λ o. o.0) run in
    (
      row,
      ap (λ left. get row.signature left.cash_resales) (sym same)
          ∙ get-insert row.signature row state.cash_resales,
    )

sold-Known :
    (row : CashResaleRow) (paid : ProjectionState) (r : DbResult CashBalanceRow)
    {after : ProjectionState} {reply : CashBalanceRow × CashBalanceRow × Bool}
    → or_return r paid (λ balance.
      then_do
        (apply_cash_resale_to_tickets row (upsert_cash_balance balance paid))
        (λ applied. finish_resale row applied))
      ≡ (after, ok reply)
    → Known (get row.signature after.cash_resales)
sold-Known row paid (err e) run = cc
sold-Known row paid (ok balance) run =
    finished-Known row (apply_cash_resale_to_tickets row (upsert_cash_balance balance paid)) _ _ run

resale_once-Known :
    (row : CashResaleRow) (found : Option CashResaleRow) (state after : ProjectionState)
    (reply : CashBalanceRow × CashBalanceRow × Bool)
    → get row.signature state.cash_resales ≡ found
    → resale_once row found state ≡ (after, ok reply)
    → Known (get row.signature after.cash_resales)
unfolding resale_once record_new_resale
resale_once-Known row (some existing) state after reply at run = (existing, cc)
resale_once-Known row none state after reply at run =
    sold-Known row (pay_resale row state).0 _
      (then_do-ok (pay_resale row state)
        (λ left.
          or_return (credited row.seller_wallet row.seller_receives row.created_at left) left
            (λ balance.
              then_do (apply_cash_resale_to_tickets row (upsert_cash_balance balance left))
                (λ applied. finish_resale row applied)))
        run).1

resale_once_again :
    (row : CashResaleRow) (state : ProjectionState) (found : Option CashResaleRow)
    → Known found
    → (seller : CashBalanceRow) × (buyer : CashBalanceRow) × (resale_once row found state
        ≡ (state, ok (seller, buyer, false)))
unfolding resale_once
resale_once_again row state none (existing, h) = cc
resale_once_again row state (some existing) known = (_, _, refl)

pub record_cash_resale_again :
    (row : CashResaleRow) (state after : ProjectionState)
    (reply : CashBalanceRow × CashBalanceRow × Bool)
    → record_cash_resale row state ≡ (after, ok reply)
    → (seller : CashBalanceRow) × (buyer : CashBalanceRow) × (record_cash_resale row after
        ≡ (after, ok (seller, buyer, false)))
unfolding record_cash_resale
record_cash_resale_again row state after reply run =
    resale_once_again row after (get row.signature after.cash_resales)
      (resale_once-Known row (get row.signature state.cash_resales) state after reply refl run)
