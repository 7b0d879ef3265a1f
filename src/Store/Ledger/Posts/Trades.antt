-- ===== src/Store/Ledger/Posts/Trades.antt =====
-- The entries of reservations and of the trades that spend them.
use basingamarket.Base.{
  ℕ, Bool, true, ◌≡◌, refl, Option, some, none, if◌then◌else◌, arith, ok, err, not, ◌||◌, ap,
  Bool-cases, then_of, else_of, inl, inr,
}
use basingamarket.Store.Key.{Text, text_key, nat_key, text_eq_sound}
use basingamarket.Store.Map.{get, contains_key}
use basingamarket.Store.Map.Laws.{total-insert}
use basingamarket.Store.Rows.Events.{Time}
use basingamarket.Store.Rows.Error.{DbResult}
use basingamarket.Store.Rows.Cash.{CashBalanceRow, CashTradeReservationRow, CashTradeRow}
use basingamarket.Store.State.{ProjectionState, Outcome}
use basingamarket.Store.Balances.{upsert_cash_balance, credited, debited}
use basingamarket.Store.Canvas.{is_some, insert_canvas_object}
use basingamarket.Store.Reservations.{
  put_reservation, reserve_cash_trade, reservation_for, insert_ticket_for_cash_trade,
  spend_reservation, with_result, record_new_trade, trade_once, record_cash_trade, release_found,
  release_cash_trade_reservation,
}
use mathlib.Core.Path.{subst}
use basingamarket.Store.Ledger.{
  unless_known, Entry, debit, nothing, holdings, Posts, reserved_for, is_open,
}
use basingamarket.Store.Ledger.Holdings.{
  or_return-Posts, unchanged-Posts, past_error, holdings-debited, holdings-credited, SameCash,
  SameCash-Posts, contains-none,
}

-- What a reservation holds once it is made: its amount, if it is made open.
abbrev pub opening_amount : CashTradeReservationRow → ℕ
opening_amount row = if is_open row then row.amount else 0

abbrev pub reserve_entry : CashTradeReservationRow → Entry
reserve_entry row = record {
  payer = row.wallet_address;
  paid = row.amount;
  payee = row.wallet_address;
  received = opening_amount row;
}

reserved-Posts :
    (row : CashTradeReservationRow) (state : ProjectionState) (balance : CashBalanceRow)
    → get row.trade_id state.cash_trade_reservations ≡ none
    → debited row.wallet_address row.amount row.updated_at state ≡ ok balance
    → Posts
        (reserve_entry row)
        state
        (put_reservation row.trade_id row (upsert_cash_balance balance state))
unfolding Posts holdings upsert_cash_balance reserved_for
reserved-Posts row state balance new paid wallet = ground (
  arith,
  holdings-debited row.wallet_address row.amount row.updated_at state balance paid wallet,
  total-insert (reserved_for wallet) row.trade_id row state.cash_trade_reservations,
  new,
)

pub reserve_cash_trade-Posts :
    (row : CashTradeReservationRow) (state after : ProjectionState) (reply : CashBalanceRow)
    → reserve_cash_trade row state ≡ (after, ok reply)
    → Posts (reserve_entry row) state after
unfolding reserve_cash_trade
reserve_cash_trade-Posts row state after reply run =
    let new = past_error (contains_key row.trade_id state.cash_trade_reservations) _ _ run in
    or_return-Posts (reserve_entry row) state state
      (debited row.wallet_address row.amount row.updated_at state)
      (λ balance. put_reservation row.trade_id row (upsert_cash_balance balance state))
      (λ balance. balance)
      (λ balance.
        reserved-Posts row state balance
          (contains-none (get row.trade_id state.cash_trade_reservations) new.0))
      new.1

-- Releasing moves the amount from the reservation back to the balance.
released-Posts :
    (now : Time) (trade_id : Text) (row : CashTradeReservationRow) (state : ProjectionState)
    (balance : CashBalanceRow)
    → get trade_id state.cash_trade_reservations ≡ some row
    → is_open row ≡ true
    → credited row.wallet_address row.amount now state ≡ ok balance
    → Posts nothing state (
        put_reservation trade_id
          (record row { released = true; updated_at = now })
          (upsert_cash_balance balance state))
unfolding Posts holdings upsert_cash_balance reserved_for
released-Posts now trade_id row state balance found opened paid wallet = ground (
  arith,
  holdings-credited row.wallet_address row.amount now state balance paid wallet,
  total-insert (reserved_for wallet) trade_id (record row { released = true; updated_at = now })
      state.cash_trade_reservations,
  found,
  opened,
)

release_found-Posts :
    (now : Time) (trade_id : Text) (found : Option CashTradeReservationRow)
    (state after : ProjectionState) (reply : Option CashBalanceRow)
    → get trade_id state.cash_trade_reservations ≡ found
    → release_found now trade_id found state ≡ (after, ok reply)
    → Posts nothing state after
unfolding release_found
release_found-Posts now trade_id none state after reply at run = unchanged-Posts run
release_found-Posts now trade_id (some row) state after reply at run =
    let closed = row.released || is_some row.completed_signature in
    elim (Bool-cases closed) [
      | inl shut ↦ unchanged-Posts (then_of closed _ shut run)
      | inr opened ↦
          or_return-Posts nothing state state (credited row.wallet_address row.amount now state)
            (λ balance.
              put_reservation trade_id (record row { released = true; updated_at = now })
                (upsert_cash_balance balance state))
            some (λ balance. released-Posts now trade_id row state balance at (ap not opened))
            (else_of closed _ opened run)
    ]

pub release_cash_trade_reservation-Posts :
    (now : Time) (trade_id : Text) (state after : ProjectionState) (reply : Option CashBalanceRow)
    → release_cash_trade_reservation now trade_id state ≡ (after, ok reply)
    → Posts nothing state after
unfolding release_cash_trade_reservation
release_cash_trade_reservation-Posts now trade_id state after reply run =
    release_found-Posts now trade_id (get trade_id state.cash_trade_reservations) state after reply
      refl run

-- A trade spends an open reservation of its wallet and price.
reservation_for-ok :
    (row : CashTradeRow) (found : Option CashTradeReservationRow)
    (reservation : CashTradeReservationRow)
    → reservation_for row found ≡ ok reservation
    → (found ≡ some reservation)
      × (reservation.wallet_address ≡ row.wallet_address)
      × (reservation.amount ≡ row.usdc_in)
      × (is_open reservation ≡ true)
unfolding reservation_for
reservation_for-ok row none reservation h = cc
reservation_for-ok row (some found) reservation h =
    ground (arith, text_eq_sound found.wallet_address row.wallet_address)

pub insert_ticket_for_cash_trade-SameCash :
    (row : CashTradeRow) (state : ProjectionState)
    → SameCash state (insert_ticket_for_cash_trade row state).0
unfolding insert_ticket_for_cash_trade insert_canvas_object
insert_ticket_for_cash_trade-SameCash row state = ground arith

spent-Posts :
    (row : CashTradeRow) (reservation : CashTradeReservationRow) (state : ProjectionState)
    → reservation_for row (get row.trade_id state.cash_trade_reservations) ≡ ok reservation
    → Posts (debit row.wallet_address row.usdc_in) state (spend_reservation row reservation state)
unfolding Posts holdings reserved_for
spent-Posts row reservation state found wallet =
    let facts =
      reservation_for-ok row (get row.trade_id state.cash_trade_reservations) reservation found in
    ground (
      arith,
      facts,
      total-insert (reserved_for wallet) row.trade_id
          (record reservation {
            completed_signature = some row.signature;
            updated_at = row.created_at;
          })
          state.cash_trade_reservations,
    )

pub with_result-ok :
    {A B : Type 0} (outcome : Outcome A) (value : B) {after : ProjectionState} {reply : B}
    → with_result outcome value ≡ (after, ok reply)
    → outcome.0 ≡ after
with_result-ok (state, ok a) value run = cc
with_result-ok (state, err e) value run = cc

record_new_trade-Posts :
    (row : CashTradeRow) (state after : ProjectionState) (reply : CashBalanceRow × Bool)
    (found : DbResult CashTradeReservationRow)
    → reservation_for row (get row.trade_id state.cash_trade_reservations) ≡ found
    → record_new_trade row found state ≡ (after, ok reply)
    → Posts (debit row.wallet_address row.usdc_in) state after
unfolding record_new_trade
record_new_trade-Posts row state after reply (err e) at run = cc
record_new_trade-Posts row state after reply (ok reservation) at run =
    let spent = spend_reservation row reservation state in
    subst (Posts (debit row.wallet_address row.usdc_in) state)
      (with_result-ok (insert_ticket_for_cash_trade row spent) _ run)
      (SameCash-Posts (debit row.wallet_address row.usdc_in) state spent
        (insert_ticket_for_cash_trade row spent).0 (insert_ticket_for_cash_trade-SameCash row spent)
        (spent-Posts row reservation state at))

trade_once-Posts :
    (row : CashTradeRow) (known : Option CashTradeRow) (state after : ProjectionState)
    (reply : CashBalanceRow × Bool)
    → trade_once row known state ≡ (after, ok reply)
    → Posts (unless_known known (debit row.wallet_address row.usdc_in)) state after
unfolding trade_once
trade_once-Posts row (some existing) state after reply run = unchanged-Posts run
trade_once-Posts row none state after reply run =
    record_new_trade-Posts row state after reply _ refl run

pub record_cash_trade-Posts :
    (row : CashTradeRow) (state after : ProjectionState) (reply : CashBalanceRow × Bool)
    → record_cash_trade row state ≡ (after, ok reply)
    → Posts
        (unless_known (get row.signature state.cash_trades) (debit row.wallet_address row.usdc_in))
        state
        after
unfolding record_cash_trade
record_cash_trade-Posts row state after reply run =
    trade_once-Posts row (get row.signature state.cash_trades) state after reply run
