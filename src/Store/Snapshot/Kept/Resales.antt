-- ===== src/Store/Snapshot/Kept/Resales.antt =====
-- Resales keep the ledgers.
use basingamarket.Base.{
  ℕ, [], ◌∷◌, ◌++◌, Option, some, none, ok, err, ◌≡◌, refl, or_return-Leaves, Leaves, leaves,
  if-keeps,
}
use basingamarket.Store.Key.{Text, text_key, nat_key, pair_key}
use basingamarket.Store.Map.{get, insert}
use basingamarket.Store.Map.Collect.{insert-Kept}
use basingamarket.Store.Rows.Events.{TicketRow, CanvasObjectRow}
use basingamarket.Store.Rows.Error.{DbResult}
use basingamarket.Store.Rows.Cash.{CashBidRow, CashResaleRow}
use basingamarket.Store.State.{ProjectionState, Outcome}
use basingamarket.Store.Canvas.{edit_canvas}
use basingamarket.Store.Resales.{
  filled_by, fill_bid, pay_from, pay_resale, split_bought, split_priced, split_costed, split_ticket,
  move_priced, move_ticket, note_transfer, transfer_of, then_do, hand_over_to, hand_over,
  apply_cash_resale_to_tickets, finish_resale, record_new_resale, resale_once, record_cash_resale,
}
use basingamarket.Store.Snapshot.RoundTrip.{balance_ledger, resale_ledger, IsKept, WellKept}
use basingamarket.Store.Snapshot.Kept.{
  upsert_cash_balance-WellKept, put_bid-WellKept, bid-key, set_ticket-WellKept, add_bought-WellKept,
}

then_do-WellKept :
    {A : Type 0} (first : Outcome (Unit {0})) (rest : ProjectionState → Outcome A)
    → Leaves WellKept first
    → ((state : ProjectionState) → WellKept state → Leaves WellKept (rest state))
    → Leaves WellKept (then_do first rest)
unfolding Leaves
then_do-WellKept (state, ok unit) rest kept later = later state kept
then_do-WellKept (state, err e) rest kept later = kept

fill_bid-WellKept :
    (row : CashResaleRow) (bid_id : Text) (found : Option CashBidRow) (state : ProjectionState)
    → get bid_id state.cash_bids ≡ found
    → WellKept state
    → Leaves WellKept (fill_bid row bid_id found state)
unfolding fill_bid
fill_bid-WellKept row bid_id none state at kept = leaves WellKept _ kept
fill_bid-WellKept row bid_id (some bid) state at kept =
    if-keeps (Leaves WellKept) _ (leaves WellKept _ kept) (
      leaves WellKept _
        (put_bid-WellKept bid_id (filled_by row bid) state (bid-key bid_id bid state kept at) kept))

pay_from-WellKept :
    (row : CashResaleRow) (bid : Option Text) (state : ProjectionState)
    → WellKept state
    → Leaves WellKept (pay_from row bid state)
unfolding pay_from
pay_from-WellKept row (some bid_id) state kept = fill_bid-WellKept row bid_id _ state refl kept
pay_from-WellKept row none state kept =
    or_return-Leaves WellKept _ state _ kept
      (λ balance. leaves WellKept _ (upsert_cash_balance-WellKept balance state kept))

split_bought-WellKept :
    (row : CashResaleRow) (lot : ℕ) (ticket : TicketRow) (odds : DbResult ℕ)
    (state : ProjectionState)
    → WellKept state
    → Leaves WellKept (split_bought row lot ticket odds state)
unfolding split_bought
split_bought-WellKept row lot ticket (err e) state kept = leaves WellKept _ kept
split_bought-WellKept row lot ticket (ok odds) state kept =
    leaves WellKept _ (add_bought-WellKept _ state kept)

split_priced-WellKept :
    (row : CashResaleRow) (lot : ℕ) (ticket : TicketRow) (cost : ℕ) (odds : DbResult ℕ)
    (state : ProjectionState)
    → WellKept state
    → Leaves WellKept (split_priced row lot ticket cost odds state)
unfolding split_priced
split_priced-WellKept row lot ticket cost (err e) state kept =
    leaves WellKept _ (set_ticket-WellKept row.source_lot_id _ state kept)
split_priced-WellKept row lot ticket cost (ok odds) state kept =
    split_bought-WellKept row lot ticket _ _ (set_ticket-WellKept row.source_lot_id _ state kept)

split_costed-WellKept :
    (row : CashResaleRow) (lot : ℕ) (ticket : TicketRow) (cost : DbResult ℕ)
    (state : ProjectionState)
    → WellKept state
    → Leaves WellKept (split_costed row lot ticket cost state)
unfolding split_costed
split_costed-WellKept row lot ticket (err e) state kept = leaves WellKept _ kept
split_costed-WellKept row lot ticket (ok cost) state kept =
    split_priced-WellKept row lot ticket cost _ state kept

move_priced-WellKept :
    (row : CashResaleRow) (ticket : TicketRow) (odds : DbResult ℕ) (state : ProjectionState)
    → WellKept state
    → Leaves WellKept (move_priced row ticket odds state)
unfolding move_priced
move_priced-WellKept row ticket (err e) state kept =
    leaves WellKept _ (set_ticket-WellKept row.source_lot_id _ state kept)
move_priced-WellKept row ticket (ok odds) state kept =
    leaves WellKept _ (set_ticket-WellKept row.source_lot_id _ state kept)

hand_over_to-WellKept :
    (row : CashResaleRow) (lot : Option ℕ) (ticket : TicketRow) (state : ProjectionState)
    → WellKept state
    → Leaves WellKept (hand_over_to row lot ticket state)
unfolding hand_over_to split_ticket move_ticket
hand_over_to-WellKept row (some lot) ticket state kept =
    split_costed-WellKept row lot ticket _ state kept
hand_over_to-WellKept row none ticket state kept = move_priced-WellKept row ticket _ state kept

drawn-WellKept :
    (key : ℕ × ℕ) (edit : CanvasObjectRow → CanvasObjectRow) (found : Option CanvasObjectRow)
    (state : ProjectionState)
    → WellKept state
    → WellKept (elim found [
      | none ↦ state
      | some canvas ↦ record state {
        canvas_objects = insert key (edit canvas) state.canvas_objects;
      }
    ])
unfolding IsKept
drawn-WellKept key edit none state kept ledger = kept ledger
drawn-WellKept key edit (some canvas) state kept balance_ledger = kept balance_ledger
drawn-WellKept key edit (some canvas) state kept other = kept other

edit_canvas-WellKept :
    (key : ℕ × ℕ) (edit : CanvasObjectRow → CanvasObjectRow) (state : ProjectionState)
    → WellKept state
    → WellKept (edit_canvas key edit state)
unfolding edit_canvas
edit_canvas-WellKept key edit state kept =
    drawn-WellKept key edit (get key state.canvas_objects) state kept

noted-WellKept :
    (row : CashResaleRow) (state : ProjectionState)
    → WellKept state
    → WellKept (record state { transfers = state.transfers ++ transfer_of row ∷ [] })
unfolding IsKept
noted-WellKept row state kept balance_ledger = kept balance_ledger
noted-WellKept row state kept other = kept other

note_transfer-WellKept :
    (row : CashResaleRow) (state : ProjectionState)
    → WellKept state
    → WellKept (note_transfer row state)
unfolding note_transfer
note_transfer-WellKept row state kept =
    edit_canvas-WellKept (row.market_id, row.source_lot_id) _ _ (noted-WellKept row state kept)

apply_cash_resale_to_tickets-WellKept :
    (row : CashResaleRow) (state : ProjectionState)
    → WellKept state
    → Leaves WellKept (apply_cash_resale_to_tickets row state)
unfolding apply_cash_resale_to_tickets hand_over
apply_cash_resale_to_tickets-WellKept row state kept =
    or_return-Leaves WellKept _ state _ kept (λ ticket.
      then_do-WellKept (hand_over_to row row.buyer_lot_id ticket state) _
        (hand_over_to-WellKept row row.buyer_lot_id ticket state kept)
        (λ handed after. leaves WellKept _ (note_transfer-WellKept row handed after)))

finish_resale-WellKept :
    (row : CashResaleRow) (state : ProjectionState)
    → WellKept state
    → Leaves WellKept (finish_resale row state)
unfolding finish_resale IsKept Leaves
finish_resale-WellKept row state kept resale_ledger =
    insert-Kept (λ row. row.signature) row.signature row state.cash_resales refl
      (kept resale_ledger)
finish_resale-WellKept row state kept other = kept other

resale_once-WellKept :
    (row : CashResaleRow) (known : Option CashResaleRow) (state : ProjectionState)
    → WellKept state
    → Leaves WellKept (resale_once row known state)
unfolding resale_once record_new_resale pay_resale
resale_once-WellKept row (some existing) state kept = leaves WellKept _ kept
resale_once-WellKept row none state kept =
    then_do-WellKept (pay_from row row.bid_id state) _ (pay_from-WellKept row row.bid_id state kept)
      (λ paid after. or_return-Leaves WellKept _ paid _ after (λ balance.
        then_do-WellKept (apply_cash_resale_to_tickets row _) _
          (apply_cash_resale_to_tickets-WellKept row _
            (upsert_cash_balance-WellKept balance paid after))
          (finish_resale-WellKept row)))

pub record_cash_resale-WellKept :
    (row : CashResaleRow) (state : ProjectionState)
    → WellKept state
    → Leaves WellKept (record_cash_resale row state)
unfolding record_cash_resale
record_cash_resale-WellKept row state kept = resale_once-WellKept row _ state kept
