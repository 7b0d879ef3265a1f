-- ===== src/Store/Snapshot/Rebuild.antt =====
-- The tickets of cash trades and resales are dropped and made again, in the order of the trades and of
-- the resales, and the claims are marked.
use basingamarket.Base.{
  ℕ, Bool, true, false, List, [], ◌∷◌, ◌++◌, some, none, ok, ◌==◌, not, ◌||◌, ◌&&◌, leb,
  if◌then◌else◌,
}
use basingamarket.Base.Int.{ltb_ℤ, eqb_ℤ}
use basingamarket.Store.Key.{text_cmp, Order, greater, less, equal, nat_key, pair_key}
use basingamarket.Store.Map.{BTreeMap, get, remove, retain, values}
use basingamarket.Store.Rows.Events.{
  TicketRow, TicketTransferRow, PositionHistoryRow, PayoutClaimRow, TicketStatus,
}
use basingamarket.Store.Rows.Cash.{CashTradeRow, CashResaleRow}
use basingamarket.Store.State.{ProjectionState, Outcome}
use basingamarket.Store.Canvas.{edit_canvas}
use basingamarket.Store.Tickets.{set_ticket}
use basingamarket.Store.Reservations.{insert_ticket_for_cash_trade}
use basingamarket.Store.Resales.{then_do, apply_cash_resale_to_tickets}

unfoldable pub trade_lots : List CashTradeRow → List ℕ
trade_lots [] = []
trade_lots (row ∷ rows) = row.lot_id ∷ trade_lots rows

unfoldable pub resale_lots : List CashResaleRow → List ℕ
resale_lots [] = []
resale_lots (row ∷ rows) =
    let rest = resale_lots rows in
    elim row.buyer_lot_id [ none ↦ rest | some lot_id ↦ lot_id ∷ rest ]

-- A set of ids is a list of them.
unfoldable pub is_in : ℕ → List ℕ → Bool
is_in id [] = false
is_in id (other ∷ others) = other == id || is_in id others

unfoldable pub remove_all : List ℕ → BTreeMap ℕ TicketRow → BTreeMap ℕ TicketRow
remove_all [] tickets = tickets
remove_all (id ∷ ids) tickets = remove_all ids (remove id tickets)

unfoldable pub kept_transfers : List ℕ → List TicketTransferRow → List TicketTransferRow
kept_transfers ids [] = []
kept_transfers ids (row ∷ rows) =
    let rest = kept_transfers ids rows in if is_in row.ticket_id ids then rest else row ∷ rest

unfoldable pub kept_positions : List ℕ → List PositionHistoryRow → List PositionHistoryRow
kept_positions ids [] = []
kept_positions ids (row ∷ rows) =
    let rest = kept_positions ids rows in if is_in row.ticket_id ids then rest else row ∷ rest

abbrev pub is_kept : List ℕ → ℕ × ℕ → Bool
is_kept ids (market_id, ticket_id) = not (is_in ticket_id ids)

unfoldable pub drop_tickets : List ℕ → ProjectionState → ProjectionState
drop_tickets ids state = record state {
  tickets = remove_all ids state.tickets;
  canvas_objects = retain (is_kept ids) state.canvas_objects;
  transfers = kept_transfers ids state.transfers;
  positions = kept_positions ids state.positions;
}

-- The stable sorts by time and lot, and by time and signature.
abbrev pub trade_before : CashTradeRow → CashTradeRow → Bool
trade_before a b =
    ltb_ℤ a.created_at b.created_at || (eqb_ℤ a.created_at b.created_at && leb a.lot_id b.lot_id)

unfoldable pub insert_trade : CashTradeRow → List CashTradeRow → List CashTradeRow
insert_trade row [] = row ∷ []
insert_trade row (other ∷ others) =
    let rest = insert_trade row others in
    if trade_before row other then row ∷ other ∷ others else other ∷ rest

unfoldable pub sort_trades : List CashTradeRow → List CashTradeRow
sort_trades [] = []
sort_trades (row ∷ rows) = insert_trade row (sort_trades rows)

abbrev pub is_greater : Order → Bool
is_greater less = false
is_greater equal = false
is_greater greater = true

abbrev pub resale_before : CashResaleRow → CashResaleRow → Bool
resale_before a b =
    ltb_ℤ a.created_at b.created_at
    || (eqb_ℤ a.created_at b.created_at && not (is_greater (text_cmp a.signature b.signature)))

unfoldable pub insert_resale : CashResaleRow → List CashResaleRow → List CashResaleRow
insert_resale row [] = row ∷ []
insert_resale row (other ∷ others) =
    let rest = insert_resale row others in
    if resale_before row other then row ∷ other ∷ others else other ∷ rest

unfoldable pub sort_resales : List CashResaleRow → List CashResaleRow
sort_resales [] = []
sort_resales (row ∷ rows) = insert_resale row (sort_resales rows)

unfoldable pub insert_trade_tickets : List CashTradeRow → ProjectionState → Outcome (Unit {0})
insert_trade_tickets [] state = (state, ok tt)
insert_trade_tickets (row ∷ rows) state =
    then_do (insert_ticket_for_cash_trade row state) (λ after. insert_trade_tickets rows after)

unfoldable pub apply_resales : List CashResaleRow → ProjectionState → Outcome (Unit {0})
apply_resales [] state = (state, ok tt)
apply_resales (row ∷ rows) state =
    then_do (apply_cash_resale_to_tickets row state) (λ after. apply_resales rows after)

abbrev pub paid_ticket : PayoutClaimRow → TicketRow → TicketRow
paid_ticket claim ticket = record ticket {
  claimed = true;
  status = TicketStatus.claimed;
  settlement_value_usdc = some claim.amount;
  updated_at = claim.created_at;
}

unfoldable pub mark_claim : PayoutClaimRow → ProjectionState → ProjectionState
mark_claim claim state = elim (get claim.ticket_id state.tickets) [
  | none ↦ state
  | some ticket ↦
      edit_canvas (ticket.market_id, ticket.ticket_id)
        (λ canvas. record canvas { listed = false; updated_at = claim.created_at })
        (set_ticket claim.ticket_id (paid_ticket claim ticket) state)
]

unfoldable pub mark_claims : List PayoutClaimRow → ProjectionState → ProjectionState
mark_claims [] state = state
mark_claims (claim ∷ claims) state = mark_claims claims (mark_claim claim state)

unfoldable pub rebuild_cash_ticket_projection_from_snapshot : ProjectionState → Outcome (Unit {0})
rebuild_cash_ticket_projection_from_snapshot state =
    then_do
      (insert_trade_tickets (sort_trades (values state.cash_trades)) (
        drop_tickets
          (trade_lots (values state.cash_trades) ++ resale_lots (values state.cash_resales)) state))
      (λ traded.
        then_do (apply_resales (sort_resales (values state.cash_resales)) traded)
          (λ resold. (mark_claims (values state.payout_claims) resold, ok tt)))
