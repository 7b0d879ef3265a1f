-- ===== src/Store/Resales.antt =====
-- Resales (crates/db/src/memory.rs): the buyer pays from a bid or a balance, the seller is credited, and
-- the ticket, or a part of it, changes hands.
use basingamarket.Base.{
  ℕ, Bool, true, false, [], ◌∷◌, ◌++◌, Option, some, none, ok, err, or_return, bytes_eq, ◌==◌, not,
  ◌||◌, if◌then◌else◌, ◌>>=◌, ◌>>◌, guard, leb, ltb, ◌-◌,
}
use basingamarket.Store.Key.{Text, text_key, nat_key, pair_key}
use basingamarket.Store.Map.{get, insert}
use basingamarket.Store.Rows.Events.{TicketRow, TicketStatus, TicketTransferRow}
use basingamarket.Store.Rows.Cash.{CashBalanceRow, CashBidRow, CashResaleRow}
use basingamarket.Store.Rows.Error.{
  DbResult, projection, cash_bid_not_found, cash_bid_fill_mismatch, seller_does_not_own_ticket,
  ticket_is_already_claimed, ticket_amount_underflow,
}
use basingamarket.Store.State.{ProjectionState, Outcome}
use basingamarket.Store.Balances.{balance_or_zero, credited, debited, upsert_cash_balance}
use basingamarket.Store.Canvas.{is_some, insert_canvas_object, edit_canvas}
use basingamarket.Store.Prices.{entry_price, prorated_amount, active_text, filled_text}
use basingamarket.Store.Tickets.{find_ticket, put_ticket, set_ticket}

-- A bid pays: what remains of it shrinks, and nothing left means filled.
abbrev pub filled_by : CashResaleRow → CashBidRow → CashBidRow
filled_by row bid = record bid {
  remaining_usdc = bid.remaining_usdc - row.gross_usdc;
  status = if bid.remaining_usdc - row.gross_usdc == 0 then filled_text else active_text;
  updated_at = row.created_at;
}

unfoldable pub fill_bid :
    CashResaleRow → Text → Option CashBidRow → ProjectionState → Outcome (Unit {0})
fill_bid row bid_id none state = (state, err (projection cash_bid_not_found))
fill_bid row bid_id (some bid) state =
    if not (bytes_eq bid.buyer_wallet row.buyer_wallet) || ltb bid.remaining_usdc row.gross_usdc
    then (state, err (projection cash_bid_fill_mismatch))
    else (record state { cash_bids = insert bid_id (filled_by row bid) state.cash_bids }, ok tt)

unfoldable pub pay_from : CashResaleRow → Option Text → ProjectionState → Outcome (Unit {0})
pay_from row (some bid_id) state = fill_bid row bid_id (get bid_id state.cash_bids) state
pay_from row none state =
    or_return (debited row.buyer_wallet row.gross_usdc row.created_at state) state
      (λ balance. (upsert_cash_balance balance state, ok tt))

unfoldable pub pay_resale : CashResaleRow → ProjectionState → Outcome (Unit {0})
pay_resale row state = pay_from row row.bid_id state

-- The ticket that a resale may take from.
unfoldable pub resold_ticket : CashResaleRow → ProjectionState → DbResult TicketRow
resold_ticket row state = do
  ticket ← find_ticket row.source_lot_id state
  guard (bytes_eq ticket.current_owner row.seller_wallet) (projection seller_does_not_own_ticket)
  guard (not ticket.claimed) (projection ticket_is_already_claimed)
  guard (leb row.tickets_sold ticket.stake_amount) (projection ticket_amount_underflow)
  ok ticket

-- What the seller keeps: `cost` and `odds` are the cost and the entry price of what remains. On
-- an error of the price the earlier fields are written already.
abbrev pub kept_cost : CashResaleRow → TicketRow → ℕ → TicketRow
kept_cost row ticket cost =
    let remaining = ticket.stake_amount - row.tickets_sold in
    record ticket {
      stake_amount = remaining;
      reward_shares =
          if leb ticket.reward_shares remaining then ticket.reward_shares else remaining;
      cost_basis_usdc = cost;
    }

abbrev pub kept_ticket : CashResaleRow → TicketRow → ℕ → ℕ → TicketRow
kept_ticket row ticket cost odds = record (kept_cost row ticket cost) {
  entry_odds = odds;
  listed_price = none;
  status =
      if ticket.stake_amount - row.tickets_sold == 0
      then TicketStatus.cancelled
      else TicketStatus.active;
  updated_at = row.created_at;
}

abbrev pub bought_ticket : CashResaleRow → ℕ → TicketRow → ℕ → TicketRow
bought_ticket row buyer_lot_id ticket odds = record {
  ticket_id = buyer_lot_id;
  market_id = row.market_id;
  round_id = row.round_id;
  outcome_id = ticket.outcome_id;
  original_caller = ticket.original_caller;
  current_owner = row.buyer_wallet;
  stake_amount = row.tickets_sold;
  reward_shares = row.tickets_sold;
  entry_odds = odds;
  cost_basis_usdc = row.gross_usdc;
  settlement_value_usdc = none;
  listed_price = none;
  status = TicketStatus.active;
  claimed = false;
  confidence = ticket.confidence;
  mood = ticket.mood;
  created_slot = 0;
  created_at = row.created_at;
  updated_at = row.created_at;
}

unfoldable pub split_bought :
    CashResaleRow → ℕ → TicketRow → DbResult ℕ → ProjectionState → Outcome (Unit {0})
split_bought row buyer_lot_id ticket (err e) kept = (kept, err e)
split_bought row buyer_lot_id ticket (ok odds) kept =
    let bought = bought_ticket row buyer_lot_id ticket odds in
    (put_ticket bought (insert_canvas_object bought kept), ok tt)

unfoldable pub split_priced :
    CashResaleRow → ℕ → TicketRow → ℕ → DbResult ℕ → ProjectionState → Outcome (Unit {0})
split_priced row buyer_lot_id ticket cost (err e) state =
    (set_ticket row.source_lot_id (kept_cost row ticket cost) state, err e)
split_priced row buyer_lot_id ticket cost (ok odds) state =
    split_bought row buyer_lot_id ticket (entry_price row.gross_usdc row.tickets_sold)
      (set_ticket row.source_lot_id (kept_ticket row ticket cost odds) state)

unfoldable pub split_costed :
    CashResaleRow → ℕ → TicketRow → DbResult ℕ → ProjectionState → Outcome (Unit {0})
split_costed row buyer_lot_id ticket (err e) state = (state, err e)
split_costed row buyer_lot_id ticket (ok cost) state =
    split_priced row buyer_lot_id ticket cost
      (entry_price cost (ticket.stake_amount - row.tickets_sold)) state

unfoldable pub split_ticket : CashResaleRow → ℕ → TicketRow → ProjectionState → Outcome (Unit {0})
split_ticket row buyer_lot_id ticket state =
    split_costed row buyer_lot_id ticket
      (prorated_amount ticket.cost_basis_usdc (ticket.stake_amount - row.tickets_sold)
        ticket.stake_amount)
      state

abbrev pub moved_ticket : CashResaleRow → TicketRow → TicketRow
moved_ticket row ticket = record ticket {
  current_owner = row.buyer_wallet;
  cost_basis_usdc = row.gross_usdc;
}

unfoldable pub move_priced :
    CashResaleRow → TicketRow → DbResult ℕ → ProjectionState → Outcome (Unit {0})
move_priced row ticket (err e) state =
    (set_ticket row.source_lot_id (moved_ticket row ticket) state, err e)
move_priced row ticket (ok odds) state = (
  set_ticket row.source_lot_id
      (record (moved_ticket row ticket) {
        entry_odds = odds;
        listed_price = none;
        status = TicketStatus.active;
        updated_at = row.created_at;
      })
      state,
  ok tt,
)

unfoldable pub move_ticket : CashResaleRow → TicketRow → ProjectionState → Outcome (Unit {0})
move_ticket row ticket state =
    move_priced row ticket (entry_price row.gross_usdc ticket.stake_amount) state

abbrev pub transfer_of : CashResaleRow → TicketTransferRow
transfer_of row = record {
  ticket_id = row.source_lot_id;
  from_address = row.seller_wallet;
  to_address = row.buyer_wallet;
  price = row.gross_usdc;
  slot = 0;
  signature = row.signature;
  created_at = row.created_at;
}

unfoldable pub note_transfer : CashResaleRow → ProjectionState → ProjectionState
note_transfer row state =
    edit_canvas (row.market_id, row.source_lot_id)
      (λ canvas. record canvas {
        current_owner = if is_some row.buyer_lot_id then row.seller_wallet else row.buyer_wallet;
        listed = false;
        updated_at = row.created_at;
      })
      (record state { transfers = state.transfers ++ transfer_of row ∷ [] })

abbrev pub then_do : {A : Type 0} → Outcome (Unit {0}) → (ProjectionState → Outcome A) → Outcome A
then_do (state, ok unit) rest = rest state
then_do (state, err e) rest = (state, err e)

unfoldable pub hand_over_to :
    CashResaleRow → Option ℕ → TicketRow → ProjectionState → Outcome (Unit {0})
hand_over_to row (some buyer_lot_id) ticket state = split_ticket row buyer_lot_id ticket state
hand_over_to row none ticket state = move_ticket row ticket state

unfoldable pub hand_over : CashResaleRow → TicketRow → ProjectionState → Outcome (Unit {0})
hand_over row ticket state = hand_over_to row row.buyer_lot_id ticket state

unfoldable pub apply_cash_resale_to_tickets : CashResaleRow → ProjectionState → Outcome (Unit {0})
apply_cash_resale_to_tickets row state =
    or_return (resold_ticket row state) state
      (λ ticket. then_do (hand_over row ticket state) (λ handed. (note_transfer row handed, ok tt)))

unfoldable pub finish_resale :
    CashResaleRow → ProjectionState → Outcome (CashBalanceRow × CashBalanceRow × Bool)
finish_resale row state = (
  record state { cash_resales = insert row.signature row state.cash_resales },
  ok (
    balance_or_zero row.seller_wallet row.created_at state,
    balance_or_zero row.buyer_wallet row.created_at state,
    true,
  ),
)

-- No step undoes an earlier one: an error of the ticket leaves the payment and the credit behind.
unfoldable pub record_new_resale :
    CashResaleRow → ProjectionState → Outcome (CashBalanceRow × CashBalanceRow × Bool)
record_new_resale row state = then_do (pay_resale row state) (λ paid.
    or_return (credited row.seller_wallet row.seller_receives row.created_at paid) paid (λ balance.
      then_do (apply_cash_resale_to_tickets row (upsert_cash_balance balance paid))
        (λ applied. finish_resale row applied)))

unfoldable pub resale_once :
    CashResaleRow
    → Option CashResaleRow
    → ProjectionState
    → Outcome (CashBalanceRow × CashBalanceRow × Bool)
resale_once row (some existing) state = (
  state,
  ok (
    balance_or_zero existing.seller_wallet existing.created_at state,
    balance_or_zero existing.buyer_wallet existing.created_at state,
    false,
  ),
)
resale_once row none state = record_new_resale row state

unfoldable pub record_cash_resale :
    CashResaleRow → ProjectionState → Outcome (CashBalanceRow × CashBalanceRow × Bool)
record_cash_resale row state = resale_once row (get row.signature state.cash_resales) state
