-- ===== src/Store/Reads.antt =====
-- The reads for a profile's activity (crates/db/src/memory/profile_activity_reads.rs) and the cursor.
use basingamarket.Base.{ℕ, Bool, false, List, [], ◌∷◌, Option, bytes_eq, ◌==◌, ◌||◌, if◌then◌else◌}
use basingamarket.Store.Key.{Text}
use basingamarket.Store.Map.{values}
use basingamarket.Store.Rows.Events.{TicketRow, PayoutClaimRow, MarketRow}
use basingamarket.Store.Rows.Cash.{CashTradeRow, CashResaleRow}
use basingamarket.Store.State.{ProjectionState}

unfoldable pub tickets_of_profile : Text → List TicketRow → List TicketRow
tickets_of_profile wallet [] = []
tickets_of_profile wallet (row ∷ rows) =
    let rest = tickets_of_profile wallet rows in
    if bytes_eq row.current_owner wallet || bytes_eq row.original_caller wallet
    then row ∷ rest
    else rest

unfoldable pub get_tickets_for_profile : Text → ProjectionState → List TicketRow
get_tickets_for_profile wallet state = tickets_of_profile wallet (values state.tickets)

unfoldable pub is_wanted : List ℕ → ℕ → Bool
is_wanted [] id = false
is_wanted (other ∷ others) id = other == id || is_wanted others id

unfoldable pub tickets_among : List ℕ → List TicketRow → List TicketRow
tickets_among ids [] = []
tickets_among ids (row ∷ rows) =
    let rest = tickets_among ids rows in if is_wanted ids row.ticket_id then row ∷ rest else rest

unfoldable pub get_tickets_by_ids : List ℕ → ProjectionState → List TicketRow
get_tickets_by_ids ids state = tickets_among ids (values state.tickets)

unfoldable pub list_cash_trades : ProjectionState → List CashTradeRow
list_cash_trades state = values state.cash_trades

unfoldable pub list_cash_resales : ProjectionState → List CashResaleRow
list_cash_resales state = values state.cash_resales

unfoldable pub claims_of : Text → List PayoutClaimRow → List PayoutClaimRow
claims_of wallet [] = []
claims_of wallet (row ∷ rows) =
    let rest = claims_of wallet rows in if bytes_eq row.claimer wallet then row ∷ rest else rest

unfoldable pub payout_claims_for_wallet : Text → ProjectionState → List PayoutClaimRow
payout_claims_for_wallet wallet state = claims_of wallet (values state.payout_claims)

unfoldable pub list_markets : ProjectionState → List MarketRow
list_markets state = values state.markets

unfoldable pub get_indexer_cursor : ProjectionState → Option ℕ
get_indexer_cursor state = state.indexer_cursor
