-- ===== src/Store/Conserved.antt =====
-- A resale moves tickets: it neither makes nor loses any.
use basingamarket.Base.{
  ℕ, Option, some, none, ok, err, ◌≡◌, ◌≢◌, refl, ◌+◌, ◌≤◌, arith, ap, sym, ◌∙◌, or_return,
}
use basingamarket.Store.Key.{nat_key, pair_key}
use basingamarket.Store.Map.{get, insert, total}
use basingamarket.Store.Map.Laws.{total-insert, get-insert_other, measure_of}
use basingamarket.Store.Rows.Events.{TicketRow, TicketStatus}
use basingamarket.Store.Rows.Error.{DbResult}
use basingamarket.Store.Rows.Cash.{CashResaleRow}
use basingamarket.Store.State.{ProjectionState, Outcome}
use basingamarket.Store.Canvas.{edit_canvas, insert_canvas_object}
use basingamarket.Store.Tickets.{set_ticket}
use basingamarket.Store.Resales.{
  resold_ticket, split_ticket, split_costed, split_priced, split_bought, move_priced, move_ticket,
  hand_over, hand_over_to, note_transfer, then_do, apply_cash_resale_to_tickets, kept_ticket,
  bought_ticket, moved_ticket,
}

abbrev pub stake_of : TicketRow → ℕ
stake_of ticket = ticket.stake_amount

unfoldable pub total_stake : ProjectionState → ℕ
total_stake state = total stake_of state.tickets

-- The stake of a ticket that the buyer's new one would replace.
unfoldable pub replaced_stake : Option ℕ → ProjectionState → ℕ
replaced_stake none state = 0
replaced_stake (some lot) state = measure_of stake_of (get lot state.tickets)

resold_ticket-ok :
    (row : CashResaleRow) (state : ProjectionState) (ticket : TicketRow)
    → resold_ticket row state ≡ ok ticket
    → (get row.source_lot_id state.tickets ≡ some ticket) × (row.tickets_sold ≤ ticket.stake_amount)
unfolding resold_ticket
resold_ticket-ok row state ticket h = ground arith

-- The seller's ticket gives what the buyer's gets.
split-stake :
    (row : CashResaleRow) (lot : ℕ) (ticket kept bought : TicketRow) (state : ProjectionState)
    → lot ≢ row.source_lot_id
    → get row.source_lot_id state.tickets ≡ some ticket
    → kept.stake_amount + row.tickets_sold ≡ ticket.stake_amount
    → bought.stake_amount ≡ row.tickets_sold
    → total stake_of (insert lot bought (insert row.source_lot_id kept state.tickets))
        + measure_of stake_of (get lot state.tickets)
      ≡ total stake_of state.tickets
split-stake row lot ticket kept bought state other found fits sold = ground (
  arith,
  total-insert stake_of row.source_lot_id kept state.tickets,
  total-insert stake_of lot bought (insert row.source_lot_id kept state.tickets),
  get-insert_other lot row.source_lot_id kept state.tickets other,
  found,
  fits,
  sold,
)

module _ (row : CashResaleRow) (ticket : TicketRow) (state : ProjectionState)
    (found : get row.source_lot_id state.tickets ≡ some ticket)
    (fits : row.tickets_sold ≤ ticket.stake_amount) where
  split_bought-stake :
      (lot cost odds : ℕ) (price : DbResult ℕ) (after : ProjectionState)
      → lot ≢ row.source_lot_id
      → split_bought row lot ticket price
          (set_ticket row.source_lot_id (kept_ticket row ticket cost odds) state)
        ≡ (after, ok tt)
      → total_stake after + replaced_stake (some lot) state ≡ total_stake state
  unfolding split_bought total_stake replaced_stake insert_canvas_object
  split_bought-stake lot cost odds (err e) after other run = cc
  split_bought-stake lot cost odds (ok buyer_odds) after other run =
      ap (λ tickets. total stake_of tickets + measure_of stake_of (get lot state.tickets))
        (sym (ap (λ o. o.0.tickets) run))
      ∙ split-stake row lot ticket (kept_ticket row ticket cost odds)
          (bought_ticket row lot ticket buyer_odds) state other found (omega arith) refl

  split_priced-stake :
      (lot cost : ℕ) (price : DbResult ℕ) (after : ProjectionState)
      → lot ≢ row.source_lot_id
      → split_priced row lot ticket cost price state ≡ (after, ok tt)
      → total_stake after + replaced_stake (some lot) state ≡ total_stake state
  unfolding split_priced
  split_priced-stake lot cost (err e) after other run = cc
  split_priced-stake lot cost (ok odds) after other run =
      split_bought-stake lot cost odds _ after other run

  split_costed-stake :
      (lot : ℕ) (cost : DbResult ℕ) (after : ProjectionState)
      → lot ≢ row.source_lot_id
      → split_costed row lot ticket cost state ≡ (after, ok tt)
      → total_stake after + replaced_stake (some lot) state ≡ total_stake state
  unfolding split_costed
  split_costed-stake lot (err e) after other run = cc
  split_costed-stake lot (ok cost) after other run = split_priced-stake lot cost _ after other run

  move_priced-stake :
      (price : DbResult ℕ) (after : ProjectionState)
      → move_priced row ticket price state ≡ (after, ok tt)
      → total_stake after + 0 ≡ total_stake state
  unfolding move_priced total_stake
  move_priced-stake (err e) after run = cc
  move_priced-stake (ok odds) after run =
      ap (λ tickets. total stake_of tickets + 0) (sym (ap (λ o. o.0.tickets) run))
      ∙ ground (
        arith,
        total-insert stake_of row.source_lot_id
            (record (moved_ticket row ticket) {
              entry_odds = odds;
              listed_price = none;
              status = TicketStatus.active;
              updated_at = row.created_at;
            })
            state.tickets,
        found,
      )

  hand_over_to-stake :
      (lot : Option ℕ) (after : ProjectionState)
      → lot ≢ some row.source_lot_id
      → hand_over_to row lot ticket state ≡ (after, ok tt)
      → total_stake after + replaced_stake lot state ≡ total_stake state
  unfolding hand_over_to split_ticket move_ticket replaced_stake
  hand_over_to-stake none after other run = move_priced-stake _ after run
  hand_over_to-stake (some lot) after other run =
      split_costed-stake lot _ after (λ same. other (ap some same)) run

note_transfer-tickets :
    (row : CashResaleRow) (state : ProjectionState)
    → (note_transfer row state).tickets ≡ state.tickets
unfolding note_transfer edit_canvas
note_transfer-tickets row state = ground arith

noted-stake :
    (row : CashResaleRow) (state : ProjectionState) (handed : Outcome (Unit {0}))
    (after : ProjectionState)
    → ((middle : ProjectionState)
        → handed ≡ (middle, ok tt)
        → total_stake middle + replaced_stake row.buyer_lot_id state ≡ total_stake state)
    → then_do handed (λ moved. (note_transfer row moved, ok tt)) ≡ (after, ok tt)
    → total_stake after + replaced_stake row.buyer_lot_id state ≡ total_stake state
unfolding total_stake
noted-stake row state (middle, err e) after conserved run = cc
noted-stake row state (middle, ok unit) after conserved run =
    ap (λ tickets. total stake_of tickets + replaced_stake row.buyer_lot_id state)
      (sym (ap (λ o. o.0.tickets) run) ∙ note_transfer-tickets row middle)
    ∙ conserved middle refl

resold-stake :
    (row : CashResaleRow) (state after : ProjectionState) (found : DbResult TicketRow)
    → row.buyer_lot_id ≢ some row.source_lot_id
    → resold_ticket row state ≡ found
    → or_return found state
        (λ ticket. then_do (hand_over row ticket state) (λ moved. (note_transfer row moved, ok tt)))
      ≡ (after, ok tt)
    → total_stake after + replaced_stake row.buyer_lot_id state ≡ total_stake state
unfolding hand_over
resold-stake row state after (err e) other at run = cc
resold-stake row state after (ok ticket) other at run =
    let facts = resold_ticket-ok row state ticket at in
    noted-stake row state (hand_over row ticket state) after
      (λ middle moved.
        hand_over_to-stake row ticket state facts.0 facts.1 row.buyer_lot_id middle other moved)
      run

-- A resale that goes through leaves the total of all stakes as it is, whether the whole ticket moves or a
-- part of it becomes the buyer's new one, except that the new ticket replaces one that already has its
-- id. The new ticket must not have the id of the one that is sold.
pub apply_cash_resale_to_tickets-total_stake :
    (row : CashResaleRow) (state after : ProjectionState)
    → row.buyer_lot_id ≢ some row.source_lot_id
    → apply_cash_resale_to_tickets row state ≡ (after, ok tt)
    → total_stake after + replaced_stake row.buyer_lot_id state ≡ total_stake state
unfolding apply_cash_resale_to_tickets
apply_cash_resale_to_tickets-total_stake row state after other run =
    resold-stake row state after (resold_ticket row state) other refl run
