-- ===== src/Store/Bids.antt =====
-- Bids and the order book of a round (crates/db/src/memory.rs): a bid takes its price from the balance
-- when it is made, and its cancellation returns what remains of it.
use basingamarket.Base.{
  ℕ, Bool, true, false, List, [], ◌∷◌, Option, some, none, ok, err, or_return, bytes_eq, ◌==◌, not,
  ◌||◌, ◌&&◌, if◌then◌else◌, ltb,
}
use basingamarket.Base.Int.{ltb_ℤ, leb_ℤ}
use basingamarket.Store.Key.{Text, text_key}
use basingamarket.Store.Map.{get, insert, values, contains_key}
use basingamarket.Store.Rows.Events.{Time, TicketRow, TicketStatus}
use basingamarket.Store.Rows.Cash.{CashBalanceRow, CashBidRow, CashTradeRow, CashResaleRow}
use basingamarket.Store.Rows.Error.{
  projection, cash_bid_already_exists, cash_bid_not_found, cash_bid_wallet_mismatch,
  cash_bid_is_not_active,
}
use basingamarket.Store.State.{ProjectionState, Outcome}
use basingamarket.Store.Balances.{credited, debited, upsert_cash_balance}
use basingamarket.Store.Prices.{active_text, cancelled_text}
use basingamarket.Store.Canvas.{is_some}

abbrev pub put_bid : Text → CashBidRow → ProjectionState → ProjectionState
put_bid bid_id bid state = record state { cash_bids = insert bid_id bid state.cash_bids }

unfoldable pub insert_cash_bid : CashBidRow → ProjectionState → Outcome CashBalanceRow
insert_cash_bid row state =
    if contains_key row.bid_id state.cash_bids
    then (state, err (projection cash_bid_already_exists))
    else or_return (debited row.buyer_wallet row.max_usdc row.updated_at state) state
        (λ balance. (put_bid row.bid_id row (upsert_cash_balance balance state), ok balance))

abbrev pub cancelled_bid : Time → CashBidRow → CashBidRow
cancelled_bid now bid = record bid { remaining_usdc = 0; status = cancelled_text; updated_at = now }

-- The bid is cancelled before the refund is added, which may overflow.
unfoldable pub cancel_found :
    Time → Text → Text → Option CashBidRow → ProjectionState → Outcome CashBalanceRow
cancel_found now bid_id wallet none state = (state, err (projection cash_bid_not_found))
cancel_found now bid_id wallet (some bid) state =
    if not (bytes_eq bid.buyer_wallet wallet)
    then (state, err (projection cash_bid_wallet_mismatch))
    else if not (bytes_eq bid.status active_text)
    then (state, err (projection cash_bid_is_not_active))
    else let cancelled = put_bid bid_id (cancelled_bid now bid) state in
      or_return (credited wallet bid.remaining_usdc now cancelled) cancelled
        (λ balance. (upsert_cash_balance balance cancelled, ok balance))

unfoldable pub cancel_cash_bid : Time → Text → Text → ProjectionState → Outcome CashBalanceRow
cancel_cash_bid now bid_id buyer_wallet state =
    cancel_found now bid_id buyer_wallet (get bid_id state.cash_bids) state

abbrev pub is_open_bid : ℕ → ℕ → CashBidRow → Bool
is_open_bid market_id round_id bid =
    bid.market_id == market_id
    && bid.round_id == round_id
    && bytes_eq bid.status active_text
    && ltb 0 bid.remaining_usdc

-- `max_by` on the price and then the earlier time, which keeps the last of the largest.
abbrev pub beats : CashBidRow → CashBidRow → Bool
beats best bid =
    ltb bid.price_per_ticket best.price_per_ticket
    || (bid.price_per_ticket == best.price_per_ticket && ltb_ℤ best.created_at bid.created_at)

abbrev pub better : Option CashBidRow → CashBidRow → CashBidRow
better none bid = bid
better (some best) bid = if beats best bid then best else bid

unfoldable pub best_from : ℕ → ℕ → Text → Option CashBidRow → List CashBidRow → Option CashBidRow
best_from market_id round_id side best [] = best
best_from market_id round_id side best (bid ∷ bids) =
    best_from market_id round_id side
      (if is_open_bid market_id round_id bid && bytes_eq bid.side side
        then some (better best bid)
        else best)
      bids

unfoldable pub best_cash_bid : ℕ → ℕ → Text → ProjectionState → Option CashBidRow
best_cash_bid market_id round_id side state =
    best_from market_id round_id side none (values state.cash_bids)

unfoldable pub open_bids : ℕ → ℕ → List CashBidRow → List CashBidRow
open_bids market_id round_id [] = []
open_bids market_id round_id (bid ∷ bids) =
    let rest = open_bids market_id round_id bids in
    if is_open_bid market_id round_id bid then bid ∷ rest else rest

-- The stable `sort_by`: the highest price first, and of equal prices the earliest bid.
abbrev pub bid_before : CashBidRow → CashBidRow → Bool
bid_before a b =
    ltb b.price_per_ticket a.price_per_ticket
    || (a.price_per_ticket == b.price_per_ticket && leb_ℤ a.created_at b.created_at)

unfoldable pub insert_bid_sorted : CashBidRow → List CashBidRow → List CashBidRow
insert_bid_sorted bid [] = bid ∷ []
insert_bid_sorted bid (other ∷ others) =
    let rest = insert_bid_sorted bid others in
    if bid_before bid other then bid ∷ other ∷ others else other ∷ rest

unfoldable pub sort_bids : List CashBidRow → List CashBidRow
sort_bids [] = []
sort_bids (bid ∷ bids) = insert_bid_sorted bid (sort_bids bids)

unfoldable pub active_cash_bids : ℕ → ℕ → ProjectionState → List CashBidRow
active_cash_bids market_id round_id state =
    sort_bids (open_bids market_id round_id (values state.cash_bids))

-- `ticket_belongs_to_round`: a trade or a resale of the round made the lot.
unfoldable pub traded_in_round : ℕ → ℕ → List CashTradeRow → Bool
traded_in_round lot_id round_id [] = false
traded_in_round lot_id round_id (row ∷ rows) =
    (row.lot_id == lot_id && row.round_id == round_id) || traded_in_round lot_id round_id rows

abbrev pub is_lot : Option ℕ → ℕ → Bool
is_lot none lot_id = false
is_lot (some lot) lot_id = lot == lot_id

unfoldable pub resold_in_round : ℕ → ℕ → List CashResaleRow → Bool
resold_in_round lot_id round_id [] = false
resold_in_round lot_id round_id (row ∷ rows) =
    (is_lot row.buyer_lot_id lot_id && row.round_id == round_id)
    || resold_in_round lot_id round_id rows

unfoldable pub ticket_belongs_to_round : ℕ → ℕ → ProjectionState → Bool
ticket_belongs_to_round lot_id round_id state =
    traded_in_round lot_id round_id (values state.cash_trades)
    || resold_in_round lot_id round_id (values state.cash_resales)

abbrev pub is_listed : TicketStatus → Bool
is_listed TicketStatus.listed = true
is_listed _ = false

abbrev pub is_ask : ℕ → ℕ → ProjectionState → TicketRow → Bool
is_ask market_id round_id state ticket =
    ticket.market_id == market_id
    && not ticket.claimed
    && is_listed ticket.status
    && is_some ticket.listed_price
    && ticket_belongs_to_round ticket.ticket_id round_id state

unfoldable pub asks_of : ℕ → ℕ → ProjectionState → List TicketRow → List TicketRow
asks_of market_id round_id state [] = []
asks_of market_id round_id state (ticket ∷ tickets) =
    let rest = asks_of market_id round_id state tickets in
    if is_ask market_id round_id state ticket then ticket ∷ rest else rest

-- `Option::cmp`: nothing is below every price.
abbrev pub price_ltb : Option ℕ → Option ℕ → Bool
price_ltb none none = false
price_ltb none (some b) = true
price_ltb (some a) none = false
price_ltb (some a) (some b) = ltb a b

abbrev pub ask_before : TicketRow → TicketRow → Bool
ask_before a b =
    price_ltb a.listed_price b.listed_price
    || (not (price_ltb b.listed_price a.listed_price) && leb_ℤ a.created_at b.created_at)

unfoldable pub insert_ask : TicketRow → List TicketRow → List TicketRow
insert_ask ask [] = ask ∷ []
insert_ask ask (other ∷ others) =
    let rest = insert_ask ask others in
    if ask_before ask other then ask ∷ other ∷ others else other ∷ rest

unfoldable pub sort_asks : List TicketRow → List TicketRow
sort_asks [] = []
sort_asks (ask ∷ asks) = insert_ask ask (sort_asks asks)

unfoldable pub listed_cash_asks : ℕ → ℕ → ProjectionState → List TicketRow
listed_cash_asks market_id round_id state =
    sort_asks (asks_of market_id round_id state (values state.tickets))

unfoldable pub resale_of_buyer_lot : ℕ → List CashResaleRow → Option CashResaleRow
resale_of_buyer_lot lot_id [] = none
resale_of_buyer_lot lot_id (row ∷ rows) =
    let rest = resale_of_buyer_lot lot_id rows in
    if is_lot row.buyer_lot_id lot_id then some row else rest

unfoldable pub cash_resale_for_buyer_lot : ℕ → ProjectionState → Option CashResaleRow
cash_resale_for_buyer_lot lot_id state = resale_of_buyer_lot lot_id (values state.cash_resales)
