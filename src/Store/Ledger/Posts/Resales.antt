-- ===== src/Store/Ledger/Posts/Resales.antt =====
-- The entry of a resale.
use mathlib.Core.Path.{subst}
use basingamarket.Base.{
  ℕ, Bool, false, ◌≡◌, refl, ◌∙◌, Option, some, none, bytes_eq, arith, ok, err, or_return, ap, not,
  ◌||◌, ltb,
}
use basingamarket.Store.Key.{Text, text_key, nat_key, pair_key, text_eq_sound}
use basingamarket.Store.Map.{get, insert}
use basingamarket.Store.Map.Laws.{total-insert}
use basingamarket.Store.Rows.Events.{TicketRow}
use basingamarket.Store.Rows.Error.{DbResult}
use basingamarket.Store.Rows.Cash.{CashBalanceRow, CashBidRow, CashResaleRow}
use basingamarket.Store.State.{ProjectionState, Outcome}
use basingamarket.Store.Balances.{upsert_cash_balance, credited, debited}
use basingamarket.Store.Canvas.{insert_canvas_object, edit_canvas}
use basingamarket.Store.Resales.{
  filled_by, fill_bid, pay_from, pay_resale, resold_ticket, split_ticket, split_costed,
  split_priced, split_bought, move_priced, move_ticket, note_transfer, then_do, hand_over,
  hand_over_to, apply_cash_resale_to_tickets, finish_resale, record_new_resale, resale_once,
  record_cash_resale,
}
use basingamarket.Store.Ledger.{Entry, credit, debit, holdings, Posts, bid_for, unless_known}
use basingamarket.Store.Ledger.Holdings.{
  credit-Posts, debit-Posts, or_return-Posts, unchanged-Posts, past_error, SameCash, SameCash-Posts,
}

filled-Posts :
    (row : CashResaleRow) (bid_id : Text) (bid : CashBidRow) (state : ProjectionState)
    → get bid_id state.cash_bids ≡ some bid
    → (not (bytes_eq bid.buyer_wallet row.buyer_wallet) || ltb bid.remaining_usdc row.gross_usdc)
      ≡ false
    → Posts
        (debit row.buyer_wallet row.gross_usdc)
        state
        (record state { cash_bids = insert bid_id (filled_by row bid) state.cash_bids })
unfolding Posts holdings bid_for
filled-Posts row bid_id bid state found fits wallet = ground (
  arith,
  total-insert (bid_for wallet) bid_id (filled_by row bid) state.cash_bids,
  found,
  fits,
  text_eq_sound bid.buyer_wallet row.buyer_wallet,
)

-- The payment of a resale, from a bid or a balance, debits the buyer.
fill_bid-Posts :
    (row : CashResaleRow) (bid_id : Text) (found : Option CashBidRow)
    (state after : ProjectionState)
    → get bid_id state.cash_bids ≡ found
    → fill_bid row bid_id found state ≡ (after, ok tt)
    → Posts (debit row.buyer_wallet row.gross_usdc) state after
unfolding fill_bid
fill_bid-Posts row bid_id none state after at run = cc
fill_bid-Posts row bid_id (some bid) state after at run =
    let fits =
      past_error
        (not (bytes_eq bid.buyer_wallet row.buyer_wallet) || ltb bid.remaining_usdc row.gross_usdc)
        _ _ run in
    let same : record state { cash_bids = insert bid_id (filled_by row bid) state.cash_bids }
        ≡ after =
      ap (λ o. o.0) fits.1 in
    subst (Posts (debit row.buyer_wallet row.gross_usdc) state) same
      (filled-Posts row bid_id bid state at fits.0)

pay_from-Posts :
    (row : CashResaleRow) (bid : Option Text) (state after : ProjectionState)
    → pay_from row bid state ≡ (after, ok tt)
    → Posts (debit row.buyer_wallet row.gross_usdc) state after
unfolding pay_from
pay_from-Posts row (some bid_id) state after run =
    fill_bid-Posts row bid_id (get bid_id state.cash_bids) state after refl run
pay_from-Posts row none state after run =
    or_return-Posts (debit row.buyer_wallet row.gross_usdc) state state
      (debited row.buyer_wallet row.gross_usdc row.created_at state)
      (λ balance. upsert_cash_balance balance state) (λ balance. tt)
      (debit-Posts row.buyer_wallet row.gross_usdc row.created_at state) run

-- The tickets of a resale change hands without money.
split_bought-SameCash :
    (row : CashResaleRow) (lot : ℕ) (ticket : TicketRow) (price : DbResult ℕ)
    (state : ProjectionState)
    → SameCash state (split_bought row lot ticket price state).0
unfolding split_bought insert_canvas_object
split_bought-SameCash row lot ticket (err e) state = (refl, refl, refl)
split_bought-SameCash row lot ticket (ok odds) state = (refl, refl, refl)

split_priced-SameCash :
    (row : CashResaleRow) (lot : ℕ) (ticket : TicketRow) (cost : ℕ) (price : DbResult ℕ)
    (state : ProjectionState)
    → SameCash state (split_priced row lot ticket cost price state).0
unfolding split_priced
split_priced-SameCash row lot ticket cost (err e) state = (refl, refl, refl)
split_priced-SameCash row lot ticket cost (ok odds) state = split_bought-SameCash row lot ticket _ _

split_costed-SameCash :
    (row : CashResaleRow) (lot : ℕ) (ticket : TicketRow) (cost : DbResult ℕ)
    (state : ProjectionState)
    → SameCash state (split_costed row lot ticket cost state).0
unfolding split_costed
split_costed-SameCash row lot ticket (err e) state = (refl, refl, refl)
split_costed-SameCash row lot ticket (ok cost) state =
    split_priced-SameCash row lot ticket cost _ state

move_priced-SameCash :
    (row : CashResaleRow) (ticket : TicketRow) (price : DbResult ℕ) (state : ProjectionState)
    → SameCash state (move_priced row ticket price state).0
unfolding move_priced
move_priced-SameCash row ticket (err e) state = (refl, refl, refl)
move_priced-SameCash row ticket (ok odds) state = (refl, refl, refl)

hand_over_to-SameCash :
    (row : CashResaleRow) (lot : Option ℕ) (ticket : TicketRow) (state : ProjectionState)
    → SameCash state (hand_over_to row lot ticket state).0
unfolding hand_over_to split_ticket move_ticket
hand_over_to-SameCash row (some lot) ticket state = split_costed-SameCash row lot ticket _ state
hand_over_to-SameCash row none ticket state = move_priced-SameCash row ticket _ state

note_transfer-SameCash :
    (row : CashResaleRow) (state : ProjectionState) → SameCash state (note_transfer row state)
unfolding note_transfer edit_canvas
note_transfer-SameCash row state = ground arith

SameCash-trans :
    (first second third : ProjectionState)
    → SameCash first second
    → SameCash second third
    → SameCash first third
SameCash-trans first second third (a, b, c) (d, e, f) = (d ∙ a, e ∙ b, f ∙ c)

noted-SameCash :
    (row : CashResaleRow) (state : ProjectionState) (handed : Outcome (Unit {0}))
    → SameCash state handed.0
    → SameCash state (then_do handed (λ after. (note_transfer row after, ok tt))).0
noted-SameCash row state (after, err e) same = same
noted-SameCash row state (after, ok unit) same =
    SameCash-trans state after (note_transfer row after) same (note_transfer-SameCash row after)

handed-SameCash :
    (row : CashResaleRow) (state : ProjectionState) (found : DbResult TicketRow)
    → SameCash state
        (or_return found state (λ ticket.
          then_do (hand_over row ticket state) (λ after. (note_transfer row after, ok tt)))).0
unfolding hand_over
handed-SameCash row state (err e) = (refl, refl, refl)
handed-SameCash row state (ok ticket) =
    noted-SameCash row state (hand_over row ticket state)
      (hand_over_to-SameCash row row.buyer_lot_id ticket state)

pub apply_cash_resale_to_tickets-SameCash :
    (row : CashResaleRow) (state : ProjectionState)
    → SameCash state (apply_cash_resale_to_tickets row state).0
unfolding apply_cash_resale_to_tickets
apply_cash_resale_to_tickets-SameCash row state =
    handed-SameCash row state (resold_ticket row state)

-- The buyer pays the price, and the seller receives what the fees leave of it.
abbrev pub resale_entry : CashResaleRow → Entry
resale_entry row = record {
  payer = row.buyer_wallet;
  paid = row.gross_usdc;
  payee = row.seller_wallet;
  received = row.seller_receives;
}

resale-composed :
    (row : CashResaleRow) (before paid after : ProjectionState)
    → Posts (debit row.buyer_wallet row.gross_usdc) before paid
    → Posts (credit row.seller_wallet row.seller_receives) paid after
    → Posts (resale_entry row) before after
unfolding Posts
resale-composed row before paid after first second wallet =
    ground (arith, first wallet, second wallet)

-- A chain of steps that succeeded: its first did.
pub then_do-ok :
    {A : Type 0} (first : Outcome (Unit {0})) (rest : ProjectionState → Outcome A)
    {after : ProjectionState} {reply : A}
    → then_do first rest ≡ (after, ok reply)
    → (first ≡ (first.0, ok tt)) × (rest first.0 ≡ (after, ok reply))
then_do-ok (state, ok unit) rest run = (refl, run)
then_do-ok (state, err e) rest run = cc

finished-Posts :
    (row : CashResaleRow) (before credited_state after : ProjectionState)
    (reply : CashBalanceRow × CashBalanceRow × Bool)
    → Posts (resale_entry row) before credited_state
    → then_do
        (apply_cash_resale_to_tickets row credited_state)
        (λ applied. finish_resale row applied)
      ≡ (after, ok reply)
    → Posts (resale_entry row) before after
unfolding finish_resale
finished-Posts row before credited_state after reply posts run =
    let applied = (apply_cash_resale_to_tickets row credited_state).0 in
    let last =
      then_do-ok (apply_cash_resale_to_tickets row credited_state) (finish_resale row) run in
    let same : record applied { cash_resales = insert row.signature row applied.cash_resales }
        ≡ after =
      ap (λ o. o.0) last.1 in
    subst (Posts (resale_entry row) before) same (
      SameCash-Posts (resale_entry row) before credited_state
        (record applied { cash_resales = insert row.signature row applied.cash_resales })
        (apply_cash_resale_to_tickets-SameCash row credited_state) posts)

sold-Posts :
    (row : CashResaleRow) (before paid after : ProjectionState)
    (reply : CashBalanceRow × CashBalanceRow × Bool) (r : DbResult CashBalanceRow)
    → Posts (debit row.buyer_wallet row.gross_usdc) before paid
    → credited row.seller_wallet row.seller_receives row.created_at paid ≡ r
    → or_return r paid (λ balance.
      then_do
        (apply_cash_resale_to_tickets row (upsert_cash_balance balance paid))
        (λ applied. finish_resale row applied))
      ≡ (after, ok reply)
    → Posts (resale_entry row) before after
sold-Posts row before paid after reply (err e) debits h run = cc
sold-Posts row before paid after reply (ok balance) debits h run =
    finished-Posts row before (upsert_cash_balance balance paid) after reply
      (resale-composed row before paid (upsert_cash_balance balance paid) debits
        (credit-Posts row.seller_wallet row.seller_receives row.created_at paid balance h))
      run

record_new_resale-Posts :
    (row : CashResaleRow) (state after : ProjectionState)
    (reply : CashBalanceRow × CashBalanceRow × Bool)
    → record_new_resale row state ≡ (after, ok reply)
    → Posts (resale_entry row) state after
unfolding record_new_resale pay_resale
record_new_resale-Posts row state after reply run =
    let paid = (pay_resale row state).0 in
    let steps =
      then_do-ok (pay_resale row state)
        (λ left.
          or_return (credited row.seller_wallet row.seller_receives row.created_at left) left
            (λ balance.
              then_do (apply_cash_resale_to_tickets row (upsert_cash_balance balance left))
                (λ applied. finish_resale row applied)))
        run in
    sold-Posts row state paid after reply _ (pay_from-Posts row row.bid_id state paid steps.0) refl
      steps.1

resale_once-Posts :
    (row : CashResaleRow) (known : Option CashResaleRow) (state after : ProjectionState)
    (reply : CashBalanceRow × CashBalanceRow × Bool)
    → resale_once row known state ≡ (after, ok reply)
    → Posts (unless_known known (resale_entry row)) state after
unfolding resale_once
resale_once-Posts row (some existing) state after reply run = unchanged-Posts run
resale_once-Posts row none state after reply run = record_new_resale-Posts row state after reply run

pub record_cash_resale-Posts :
    (row : CashResaleRow) (state after : ProjectionState)
    (reply : CashBalanceRow × CashBalanceRow × Bool)
    → record_cash_resale row state ≡ (after, ok reply)
    → Posts (unless_known (get row.signature state.cash_resales) (resale_entry row)) state after
unfolding record_cash_resale
record_cash_resale-Posts row state after reply run =
    resale_once-Posts row (get row.signature state.cash_resales) state after reply run
