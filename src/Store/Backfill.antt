-- ===== src/Store/Backfill.antt =====
-- `backfill_cash_trade_market_ids` of crates/db/src/memory.rs: trades recorded without a market get one,
-- and so do their tickets and what is drawn of them.
use basingamarket.Base.{ℕ, List, [], ◌∷◌, Option, some, none, ◌==◌, ◌+◌, if◌then◌else◌}
use basingamarket.Store.Key.{Text, text_key, nat_key, pair_key}
use basingamarket.Store.Map.{BTreeMap, get, insert, remove, map_values}
use basingamarket.Store.Rows.Cash.{CashTradeRow}
use basingamarket.Store.Rows.Events.{TicketRow, CanvasObjectRow}
use basingamarket.Store.State.{ProjectionState}

-- `infer_market_id(row).filter(|id| *id != 0)`, for the rows without a market.
abbrev pub nonzero : Option ℕ → Option ℕ
nonzero none = none
nonzero (some id) = if id == 0 then none else some id

module _ (infer_market_id : CashTradeRow → Option ℕ) where
  abbrev pub inferred : CashTradeRow → Option ℕ
  inferred row = if row.market_id == 0 then nonzero (infer_market_id row) else none

  abbrev pub with_market : CashTradeRow → Option ℕ → CashTradeRow
  with_market row none = row
  with_market row (some id) = record row { market_id = id }

  unfoldable pub backfill_trade : CashTradeRow → CashTradeRow
  backfill_trade row = with_market row (inferred row)

  abbrev pub add_update : CashTradeRow → Option ℕ → List (ℕ × ℕ) → List (ℕ × ℕ)
  add_update row none updates = updates
  add_update row (some id) updates = (row.lot_id, id) ∷ updates

  unfoldable pub updates_of : BTreeMap Text CashTradeRow → List (ℕ × ℕ)
  updates_of [] = []
  updates_of ((signature, row) ∷ rows) = add_update row (inferred row) (updates_of rows)

  abbrev pub market_or : ℕ → TicketRow → TicketRow
  market_or market_id ticket = record ticket {
    market_id = if ticket.market_id == 0 then market_id else ticket.market_id;
  }

  unfoldable pub backfill_ticket : ℕ → ℕ → Option TicketRow → ProjectionState → ProjectionState
  backfill_ticket lot_id market_id none state = state
  backfill_ticket lot_id market_id (some ticket) state = record state {
    tickets = insert lot_id (market_or market_id ticket) state.tickets;
  }

  unfoldable pub backfill_canvas :
      ℕ → ℕ → Option CanvasObjectRow → ProjectionState → ProjectionState
  backfill_canvas lot_id market canvas_found state = elim canvas_found [
    | none ↦ state
    | some canvas ↦ record state {
      canvas_objects =
          insert (market, lot_id) (record canvas { market_id = market })
            (remove (0, lot_id) state.canvas_objects);
    }
  ]

  unfoldable pub apply_updates : List (ℕ × ℕ) → ProjectionState → ProjectionState
  apply_updates [] state = state
  apply_updates ((lot_id, market_id) ∷ updates) state =
      let ticketed = backfill_ticket lot_id market_id (get lot_id state.tickets) state in
      apply_updates updates
        (backfill_canvas lot_id market_id (get (0, lot_id) ticketed.canvas_objects) ticketed)

  unfoldable pub count_updates : List (ℕ × ℕ) → ℕ
  count_updates [] = 0
  count_updates (update ∷ updates) = 1 + count_updates updates

  unfoldable pub backfill_cash_trade_market_ids : ProjectionState → ProjectionState × ℕ
  backfill_cash_trade_market_ids state = (
    apply_updates (updates_of state.cash_trades)
        (record state { cash_trades = map_values backfill_trade state.cash_trades }),
    count_updates (updates_of state.cash_trades),
  )
