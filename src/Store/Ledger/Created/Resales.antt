-- ===== src/Store/Ledger/Created/Resales.antt =====
-- What a resale leaves in the store.
use basingamarket.Base.{
  ℕ, Bool, true, false, ◌≡◌, refl, Option, some, none, ◌+◌, ◌-◌, ◌≤◌, if◌then◌else◌, arith, ok, err,
  or_return, bytes_eq, not, ◌||◌, ltb,
}
use basingamarket.Store.Key.{Text, text_key, nat_key}
use basingamarket.Store.Map.{get, insert}
use basingamarket.Store.Map.Laws.{total-insert}
use basingamarket.Store.Rows.Error.{DbResult, DbError}
use basingamarket.Store.Rows.Cash.{CashBalanceRow, CashBidRow, CashResaleRow}
use basingamarket.Store.State.{ProjectionState, Outcome}
use basingamarket.Store.Balances.{upsert_cash_balance, credited, debited}
use basingamarket.Store.Resales.{
  filled_by, fill_bid, pay_from, pay_resale, then_do, apply_cash_resale_to_tickets, finish_resale,
  record_new_resale, resale_once, record_cash_resale,
}
use basingamarket.Store.Ledger.Posts.Resales.{apply_cash_resale_to_tickets-SameCash}
use basingamarket.Store.Ledger.Created.{
  held, held-credited, held-debited, or_return-held, bid_amount, SameCash-held,
}

filled-held :
    (row : CashResaleRow) (bid_id : Text) (bid : CashBidRow) (state : ProjectionState)
    → get bid_id state.cash_bids ≡ some bid
    → (not (bytes_eq bid.buyer_wallet row.buyer_wallet) || ltb bid.remaining_usdc row.gross_usdc)
      ≡ false
    → held (record state { cash_bids = insert bid_id (filled_by row bid) state.cash_bids })
        + row.gross_usdc
      ≡ held state
unfolding held
filled-held row bid_id bid state found fits =
    ground (arith, total-insert bid_amount bid_id (filled_by row bid) state.cash_bids, found, fits)

-- Either the payment fails and changes nothing, or it takes the price out of the store.
abbrev Pays : CashResaleRow → ProjectionState → Outcome (Unit {0}) → Type 0
Pays row state (paid, err e) = held paid ≤ held state
Pays row state (paid, ok unit) = held paid + row.gross_usdc ≡ held state

guarded-Pays :
    (row : CashResaleRow) (state : ProjectionState) (b : Bool) (e : DbError)
    (rest : Outcome (Unit {0}))
    → (b ≡ false → Pays row state rest)
    → Pays row state (if b then (state, err e) else rest)
guarded-Pays row state true e rest holds = omega arith
guarded-Pays row state false e rest holds = holds refl

fill_bid-Pays :
    (row : CashResaleRow) (bid_id : Text) (found : Option CashBidRow) (state : ProjectionState)
    → get bid_id state.cash_bids ≡ found
    → Pays row state (fill_bid row bid_id found state)
unfolding fill_bid
fill_bid-Pays row bid_id none state at = omega arith
fill_bid-Pays row bid_id (some bid) state at =
    guarded-Pays row state
      (not (bytes_eq bid.buyer_wallet row.buyer_wallet) || ltb bid.remaining_usdc row.gross_usdc) _
      _ (filled-held row bid_id bid state at)

debit-Pays :
    (row : CashResaleRow) (state : ProjectionState) (r : DbResult CashBalanceRow)
    → debited row.buyer_wallet row.gross_usdc row.created_at state ≡ r
    → Pays row state (or_return r state (λ balance. (upsert_cash_balance balance state, ok tt)))
debit-Pays row state (err e) h = omega arith
debit-Pays row state (ok balance) h =
    held-debited row.buyer_wallet row.gross_usdc row.created_at state balance h

pay_from-Pays :
    (row : CashResaleRow) (bid : Option Text) (state : ProjectionState)
    → Pays row state (pay_from row bid state)
unfolding pay_from
pay_from-Pays row (some bid_id) state =
    fill_bid-Pays row bid_id (get bid_id state.cash_bids) state refl
pay_from-Pays row none state = debit-Pays row state _ refl

finished-held :
    (row : CashResaleRow) (bound : ℕ) (applied : Outcome (Unit {0}))
    → held applied.0 ≤ bound
    → held (then_do applied (finish_resale row)).0 ≤ bound
unfolding finish_resale held
finished-held row bound (state, err e) below = below
finished-held row bound (state, ok unit) below = below

same_below : {a b bound : ℕ} → b ≡ a → a ≤ bound → b ≤ bound
same_below h k = omega arith

-- The seller receives out of what the buyer paid.
sold-held :
    (row : CashResaleRow) (bound : ℕ) (paid : ProjectionState)
    → held paid + row.seller_receives ≤ bound
    → held
        (or_return
          (credited row.seller_wallet row.seller_receives row.created_at paid)
          paid
          (λ balance.
            then_do
              (apply_cash_resale_to_tickets row (upsert_cash_balance balance paid))
              (λ applied. finish_resale row applied))).0
      ≤ bound
sold-held row bound paid below =
    or_return-held bound paid (credited row.seller_wallet row.seller_receives row.created_at paid)
      (λ balance.
        then_do (apply_cash_resale_to_tickets row (upsert_cash_balance balance paid))
          (λ applied. finish_resale row applied))
      (omega arith)
      (λ balance h.
        finished-held row bound
          (apply_cash_resale_to_tickets row (upsert_cash_balance balance paid))
          (same_below
            (SameCash-held (upsert_cash_balance balance paid)
              (apply_cash_resale_to_tickets row (upsert_cash_balance balance paid)).0
              (apply_cash_resale_to_tickets-SameCash row (upsert_cash_balance balance paid)))
            (same_below
              (held-credited row.seller_wallet row.seller_receives row.created_at paid balance h)
              below)))

paid-held :
    (row : CashResaleRow) (state : ProjectionState) (payment : Outcome (Unit {0}))
    → Pays row state payment
    → held
        (then_do payment (λ paid.
          or_return
            (credited row.seller_wallet row.seller_receives row.created_at paid)
            paid
            (λ balance.
              then_do
                (apply_cash_resale_to_tickets row (upsert_cash_balance balance paid))
                (λ applied. finish_resale row applied)))).0
      ≤ held state + (row.seller_receives - row.gross_usdc)
paid-held row state (paid, err e) pays = omega arith
paid-held row state (paid, ok unit) pays = sold-held row _ paid (omega arith)

resale_once-held :
    (row : CashResaleRow) (known : Option CashResaleRow) (state : ProjectionState)
    → held (resale_once row known state).0 ≤ held state + (row.seller_receives - row.gross_usdc)
unfolding resale_once record_new_resale pay_resale
resale_once-held row (some existing) state = omega arith
resale_once-held row none state =
    paid-held row state (pay_resale row state) (pay_from-Pays row row.bid_id state)

pub record_cash_resale-held :
    (row : CashResaleRow) (state : ProjectionState)
    → held (record_cash_resale row state).0 ≤ held state + (row.seller_receives - row.gross_usdc)
unfolding record_cash_resale
record_cash_resale-held row state =
    resale_once-held row (get row.signature state.cash_resales) state
