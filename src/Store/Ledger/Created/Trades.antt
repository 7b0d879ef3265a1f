-- ===== src/Store/Ledger/Created/Trades.antt =====
-- What reservations, trades and bids leave in the store.
use basingamarket.Base.{
  ℕ, Bool, true, false, ◌≡◌, refl, Option, some, none, ◌+◌, ◌-◌, ◌≤◌, if◌then◌else◌, arith, ok, err,
  bytes_eq, not, ◌||◌, ap,
}
use basingamarket.Store.Key.{Text, text_key, nat_key}
use basingamarket.Store.Map.{get, contains_key}
use basingamarket.Store.Map.Laws.{total-insert}
use basingamarket.Store.Rows.Events.{Time}
use basingamarket.Store.Rows.Error.{DbResult}
use basingamarket.Store.Rows.Cash.{
  CashBalanceRow, CashTradeReservationRow, CashTradeRow, CashBidRow,
}
use basingamarket.Store.State.{ProjectionState, Outcome}
use basingamarket.Store.Balances.{upsert_cash_balance, credited, debited, balance_or_zero}
use basingamarket.Store.Canvas.{is_some}
use basingamarket.Store.Prices.{active_text}
use basingamarket.Store.Reservations.{
  put_reservation, reserve_cash_trade, release_found, release_cash_trade_reservation,
  insert_ticket_for_cash_trade, spend_reservation, with_result, record_new_trade, trade_once,
  record_cash_trade,
}
use basingamarket.Store.Bids.{
  put_bid, insert_cash_bid, cancelled_bid, cancel_found, cancel_cash_bid,
}
use basingamarket.Store.Ledger.Posts.Trades.{insert_ticket_for_cash_trade-SameCash}
use basingamarket.Store.Ledger.Created.{
  held, held-credited, held-debited, or_return-held, guarded-held, open_amount, bid_amount,
  SameCash-held,
}

reserved-held :
    (row : CashTradeReservationRow) (state : ProjectionState) (balance : CashBalanceRow)
    → debited row.wallet_address row.amount row.updated_at state ≡ ok balance
    → held (put_reservation row.trade_id row (upsert_cash_balance balance state)) ≤ held state
unfolding held upsert_cash_balance
reserved-held row state balance h = ground (
  arith,
  held-debited row.wallet_address row.amount row.updated_at state balance h,
  total-insert open_amount row.trade_id row state.cash_trade_reservations,
)

pub reserve_cash_trade-held :
    (row : CashTradeReservationRow) (state : ProjectionState)
    → held (reserve_cash_trade row state).0 ≤ held state
unfolding reserve_cash_trade
reserve_cash_trade-held row state =
    guarded-held (held state) (contains_key row.trade_id state.cash_trade_reservations) state _ _
      (omega arith)
      (λ fresh.
        or_return-held (held state) state
          (debited row.wallet_address row.amount row.updated_at state)
          (λ balance.
            (put_reservation row.trade_id row (upsert_cash_balance balance state), ok balance))
          (omega arith) (reserved-held row state))

released-held :
    (now : Time) (trade_id : Text) (row : CashTradeReservationRow) (state : ProjectionState)
    (balance : CashBalanceRow)
    → get trade_id state.cash_trade_reservations ≡ some row
    → (row.released || is_some row.completed_signature) ≡ false
    → credited row.wallet_address row.amount now state ≡ ok balance
    → held (
        put_reservation trade_id
          (record row { released = true; updated_at = now })
          (upsert_cash_balance balance state))
      ≤ held state
unfolding held upsert_cash_balance
released-held now trade_id row state balance found opened h = ground (
  arith,
  held-credited row.wallet_address row.amount now state balance h,
  total-insert open_amount trade_id (record row { released = true; updated_at = now })
      state.cash_trade_reservations,
  found,
  opened,
)

-- A test that answers without a change.
answered-held :
    {A : Type 0} (bound : ℕ) (b : Bool) (left : ProjectionState) (value : A) (rest : Outcome A)
    → held left ≤ bound
    → (b ≡ false → held rest.0 ≤ bound)
    → held (if b then (left, ok value) else rest).0 ≤ bound
answered-held bound true left value rest below holds = below
answered-held bound false left value rest below holds = holds refl

release_found-held :
    (now : Time) (trade_id : Text) (found : Option CashTradeReservationRow)
    (state : ProjectionState)
    → get trade_id state.cash_trade_reservations ≡ found
    → held (release_found now trade_id found state).0 ≤ held state
unfolding release_found
release_found-held now trade_id none state at = omega arith
release_found-held now trade_id (some row) state at =
    answered-held (held state) (row.released || is_some row.completed_signature) state _ _
      (omega arith)
      (λ opened.
        or_return-held (held state) state (credited row.wallet_address row.amount now state)
          (λ balance. (
            put_reservation trade_id (record row { released = true; updated_at = now })
                (upsert_cash_balance balance state),
            ok (some balance),
          ))
          (omega arith) (λ balance. released-held now trade_id row state balance at opened))

pub release_cash_trade_reservation-held :
    (now : Time) (trade_id : Text) (state : ProjectionState)
    → held (release_cash_trade_reservation now trade_id state).0 ≤ held state
unfolding release_cash_trade_reservation
release_cash_trade_reservation-held now trade_id state =
    release_found-held now trade_id (get trade_id state.cash_trade_reservations) state refl

spent-held :
    (row : CashTradeRow) (reservation : CashTradeReservationRow) (state : ProjectionState)
    → held (spend_reservation row reservation state) ≤ held state
unfolding held
spent-held row reservation state = ground (
  arith,
  total-insert open_amount row.trade_id
      (record reservation { completed_signature = some row.signature; updated_at = row.created_at })
      state.cash_trade_reservations,
)

with_result-state :
    {A B : Type 0} (outcome : Outcome A) (value : B) → (with_result outcome value).0 ≡ outcome.0
with_result-state (state, ok a) value = refl
with_result-state (state, err e) value = refl

record_new_trade-held :
    (row : CashTradeRow) (found : DbResult CashTradeReservationRow) (state : ProjectionState)
    → held (record_new_trade row found state).0 ≤ held state
unfolding record_new_trade
record_new_trade-held row (err e) state = omega arith
record_new_trade-held row (ok reservation) state =
    let spent = spend_reservation row reservation state in
    let last = insert_ticket_for_cash_trade row spent in
    let reply : CashBalanceRow × Bool =
      (balance_or_zero row.wallet_address row.created_at state, true) in
    ground (
      arith,
      spent-held row reservation state,
      SameCash-held spent last.0 (insert_ticket_for_cash_trade-SameCash row spent),
      ap held (with_result-state last reply),
    )

trade_once-held :
    (row : CashTradeRow) (known : Option CashTradeRow) (state : ProjectionState)
    → held (trade_once row known state).0 ≤ held state
unfolding trade_once
trade_once-held row (some existing) state = omega arith
trade_once-held row none state = record_new_trade-held row _ state

pub record_cash_trade-held :
    (row : CashTradeRow) (state : ProjectionState)
    → held (record_cash_trade row state).0 ≤ held state
unfolding record_cash_trade
record_cash_trade-held row state = trade_once-held row (get row.signature state.cash_trades) state

-- A bid adds no more than what it says is left above its price.
bid-held :
    (row : CashBidRow) (state : ProjectionState) (balance : CashBalanceRow)
    → debited row.buyer_wallet row.max_usdc row.updated_at state ≡ ok balance
    → held (put_bid row.bid_id row (upsert_cash_balance balance state))
      ≤ held state + (row.remaining_usdc - row.max_usdc)
unfolding held upsert_cash_balance
bid-held row state balance h = ground (
  arith,
  held-debited row.buyer_wallet row.max_usdc row.updated_at state balance h,
  total-insert bid_amount row.bid_id row state.cash_bids,
)

pub insert_cash_bid-held :
    (row : CashBidRow) (state : ProjectionState)
    → held (insert_cash_bid row state).0 ≤ held state + (row.remaining_usdc - row.max_usdc)
unfolding insert_cash_bid
insert_cash_bid-held row state =
    guarded-held (held state + (row.remaining_usdc - row.max_usdc))
      (contains_key row.bid_id state.cash_bids) state _ _ (omega arith)
      (λ fresh.
        or_return-held (held state + (row.remaining_usdc - row.max_usdc)) state
          (debited row.buyer_wallet row.max_usdc row.updated_at state)
          (λ balance. (put_bid row.bid_id row (upsert_cash_balance balance state), ok balance))
          (omega arith) (bid-held row state))

cancelled-held :
    (now : Time) (bid_id : Text) (bid : CashBidRow) (state : ProjectionState)
    → get bid_id state.cash_bids ≡ some bid
    → held (put_bid bid_id (cancelled_bid now bid) state) + bid.remaining_usdc ≡ held state
unfolding held
cancelled-held now bid_id bid state found =
    ground (arith, total-insert bid_amount bid_id (cancelled_bid now bid) state.cash_bids, found)

cancel_found-held :
    (now : Time) (bid_id wallet : Text) (found : Option CashBidRow) (state : ProjectionState)
    → get bid_id state.cash_bids ≡ found
    → held (cancel_found now bid_id wallet found state).0 ≤ held state
unfolding cancel_found
cancel_found-held now bid_id wallet none state at = omega arith
cancel_found-held now bid_id wallet (some bid) state at =
    let left = put_bid bid_id (cancelled_bid now bid) state in
    let freed = cancelled-held now bid_id bid state at in
    guarded-held (held state) (not (bytes_eq bid.buyer_wallet wallet)) state _ _ (omega arith)
      (λ owned.
        guarded-held (held state) (not (bytes_eq bid.status active_text)) state _ _ (omega arith)
          (λ running.
            or_return-held (held state) left (credited wallet bid.remaining_usdc now left)
              (λ balance. (upsert_cash_balance balance left, ok balance)) (ground (arith, freed))
              (λ balance h.
                ground (arith, freed, held-credited wallet bid.remaining_usdc now left balance h))))

pub cancel_cash_bid-held :
    (now : Time) (bid_id wallet : Text) (state : ProjectionState)
    → held (cancel_cash_bid now bid_id wallet state).0 ≤ held state
unfolding cancel_cash_bid
cancel_cash_bid-held now bid_id wallet state =
    cancel_found-held now bid_id wallet (get bid_id state.cash_bids) state refl
