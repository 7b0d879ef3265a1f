-- ===== src/Store/Reservations.antt =====
-- Purchases from a cash balance (crates/db/src/memory.rs): the price is reserved, and then either
-- released or spent by the trade, which makes a ticket.
use basingamarket.Base.{
  ℕ, Bool, true, false, List, [], ◌∷◌, Option, some, none, ok, err, or_return, bytes_eq, ◌==◌, not,
  ◌||◌, ◌&&◌, if◌then◌else◌, ◌>>=◌, leb, ◌+◌,
}
use basingamarket.Base.Words.{u128_max}
use basingamarket.Store.Key.{Text, text_key, nat_key}
use basingamarket.Store.Map.{get, insert, values, contains_key}
use basingamarket.Store.Rows.Events.{Time, TicketRow, TicketStatus}
use basingamarket.Store.Rows.Cash.{CashBalanceRow, CashTradeReservationRow, CashTradeRow}
use basingamarket.Store.Rows.Error.{
  DbResult, projection, cash_trade_reservation_already_exists, cash_trade_reservation_not_found,
  cash_trade_reservation_mismatch, cash_trade_reservation_released,
  cash_trade_reservation_already_completed, cash_trade_entry_overflow,
}
use basingamarket.Store.State.{ProjectionState, Outcome}
use basingamarket.Store.Balances.{
  balance_or_zero, credited, debited, get_cash_balance, upsert_cash_balance,
}
use basingamarket.Store.Canvas.{is_some, insert_canvas_object}
use basingamarket.Store.Prices.{side_to_outcome_id, mul_then_div, scale, up_text}
use basingamarket.Store.Tickets.{put_ticket}

abbrev pub put_reservation : Text → CashTradeReservationRow → ProjectionState → ProjectionState
put_reservation trade_id row state = record state {
  cash_trade_reservations = insert trade_id row state.cash_trade_reservations;
}

unfoldable pub reserve_cash_trade :
    CashTradeReservationRow → ProjectionState → Outcome CashBalanceRow
reserve_cash_trade row state =
    if contains_key row.trade_id state.cash_trade_reservations
    then (state, err (projection cash_trade_reservation_already_exists))
    else or_return (debited row.wallet_address row.amount row.updated_at state) state (λ balance.
      (put_reservation row.trade_id row (upsert_cash_balance balance state), ok balance))

unfoldable pub release_found :
    Time → Text → Option CashTradeReservationRow → ProjectionState → Outcome (Option CashBalanceRow)
release_found now trade_id none state = (state, ok none)
release_found now trade_id (some row) state =
    if row.released || is_some row.completed_signature
    then (state, ok (get_cash_balance row.wallet_address state))
    else or_return (credited row.wallet_address row.amount now state) state (λ balance. (
      put_reservation trade_id (record row { released = true; updated_at = now })
          (upsert_cash_balance balance state),
      ok (some balance),
    ))

unfoldable pub release_cash_trade_reservation :
    Time → Text → ProjectionState → Outcome (Option CashBalanceRow)
release_cash_trade_reservation now trade_id state =
    release_found now trade_id (get trade_id state.cash_trade_reservations) state

abbrev pub entry_odds_of : CashTradeRow → DbResult ℕ
entry_odds_of row =
    if row.tickets_out == 0
    then ok 0
    else mul_then_div row.net_usdc scale row.tickets_out cash_trade_entry_overflow

abbrev pub ticket_of_trade : CashTradeRow → ℕ → ℕ → TicketRow
ticket_of_trade row outcome odds = record {
  ticket_id = row.lot_id;
  market_id = row.market_id;
  round_id = row.round_id;
  outcome_id = outcome;
  original_caller = row.wallet_address;
  current_owner = row.wallet_address;
  stake_amount = row.tickets_out;
  reward_shares = row.tickets_out;
  entry_odds = odds;
  cost_basis_usdc = row.usdc_in;
  settlement_value_usdc = none;
  listed_price = none;
  status = TicketStatus.active;
  claimed = false;
  confidence = 75;
  mood = if bytes_eq row.side up_text then 1 else 2;
  created_slot = 0;
  created_at = row.created_at;
  updated_at = row.created_at;
}

unfoldable pub new_ticket_for_trade : CashTradeRow → DbResult TicketRow
new_ticket_for_trade row = do
  outcome ← side_to_outcome_id row.side
  odds ← entry_odds_of row
  ok (ticket_of_trade row outcome odds)

-- A lot that has a ticket already is left alone.
unfoldable pub insert_ticket_for_cash_trade : CashTradeRow → ProjectionState → Outcome (Unit {0})
insert_ticket_for_cash_trade row state =
    if contains_key row.lot_id state.tickets
    then (state, ok tt)
    else or_return (new_ticket_for_trade row) state
        (λ ticket. (put_ticket ticket (insert_canvas_object ticket state), ok tt))

-- The reservation that a trade may spend.
unfoldable pub reservation_for :
    CashTradeRow → Option CashTradeReservationRow → DbResult CashTradeReservationRow
reservation_for row none = err (projection cash_trade_reservation_not_found)
reservation_for row (some reservation) =
    if not (bytes_eq reservation.wallet_address row.wallet_address)
      || not (reservation.amount == row.usdc_in)
    then err (projection cash_trade_reservation_mismatch)
    else if reservation.released
    then err (projection cash_trade_reservation_released)
    else if is_some reservation.completed_signature
    then err (projection cash_trade_reservation_already_completed)
    else ok reservation

-- The reservation is spent and the trade inserted before the ticket, which may fail.
abbrev pub spend_reservation :
    CashTradeRow → CashTradeReservationRow → ProjectionState → ProjectionState
spend_reservation row reservation state = record state {
  cash_trade_reservations =
      insert row.trade_id
        (record reservation {
          completed_signature = some row.signature;
          updated_at = row.created_at;
        })
        state.cash_trade_reservations;
  cash_trades = insert row.signature row state.cash_trades;
}

abbrev pub with_result : {A B : Type 0} → Outcome A → B → Outcome B
with_result (state, ok a) value = (state, ok value)
with_result (state, err e) value = (state, err e)

unfoldable pub record_new_trade :
    CashTradeRow
    → DbResult CashTradeReservationRow
    → ProjectionState
    → Outcome (CashBalanceRow × Bool)
record_new_trade row (err e) state = (state, err e)
record_new_trade row (ok reservation) state =
    with_result (insert_ticket_for_cash_trade row (spend_reservation row reservation state))
      (balance_or_zero row.wallet_address row.created_at state, true)

unfoldable pub trade_once :
    CashTradeRow → Option CashTradeRow → ProjectionState → Outcome (CashBalanceRow × Bool)
trade_once row (some existing) state =
    (state, ok (balance_or_zero existing.wallet_address existing.created_at state, false))
trade_once row none state =
    record_new_trade row (reservation_for row (get row.trade_id state.cash_trade_reservations))
      state

unfoldable pub record_cash_trade : CashTradeRow → ProjectionState → Outcome (CashBalanceRow × Bool)
record_cash_trade row state = trade_once row (get row.signature state.cash_trades) state

-- `total.saturating_add(row.net_usdc)`
abbrev pub u128_saturating_add : ℕ → ℕ → ℕ
u128_saturating_add a b = if leb (a + b) u128_max then a + b else u128_max

unfoldable pub side_volume_from : ℕ → ℕ → Text → ℕ → List CashTradeRow → ℕ
side_volume_from market_id round_id side total [] = total
side_volume_from market_id round_id side total (row ∷ rows) =
    side_volume_from market_id round_id side
      (if row.market_id == market_id && row.round_id == round_id && bytes_eq row.side side
        then u128_saturating_add total row.net_usdc
        else total)
      rows

unfoldable pub cash_trade_side_volume : ℕ → ℕ → Text → ProjectionState → ℕ
cash_trade_side_volume market_id round_id side state =
    side_volume_from market_id round_id side 0 (values state.cash_trades)

unfoldable pub trade_of_lot : ℕ → List CashTradeRow → Option CashTradeRow
trade_of_lot lot_id [] = none
trade_of_lot lot_id (row ∷ rows) =
    let rest = trade_of_lot lot_id rows in if row.lot_id == lot_id then some row else rest

unfoldable pub cash_trade_for_lot : ℕ → ProjectionState → Option CashTradeRow
cash_trade_for_lot lot_id state = trade_of_lot lot_id (values state.cash_trades)
