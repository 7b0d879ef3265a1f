-- ===== src/Store/Tests/Ledgers.antt =====
-- Runs of the cash ledgers, and their properties at one.
use basingamarket.Base.{bytes_eq, List, [], ◌∷◌, ◌≡◌, refl, ok, ◌+◌, ◌≤◌}
use basingamarket.Store.Tests.Data.{
  empty, alice, bob, deposit_of, reservation, purchase, bid_of_bob, sale,
}
use basingamarket.Store.State.{ProjectionState}
use basingamarket.Store.Balances.{
  record_cash_deposit, deposit_once, credited, debited, upsert_cash_balance, get_cash_balance,
}
use basingamarket.Store.Map.{get, insert}
use basingamarket.Store.Key.{text_cmp}
use basingamarket.Store.Reservations.{
  reserve_cash_trade, record_cash_trade, trade_once, record_new_trade, reservation_for,
  insert_ticket_for_cash_trade, new_ticket_for_trade,
}
use basingamarket.Store.Bids.{insert_cash_bid}
use basingamarket.Store.Prices.{entry_price, prorated_amount, side_to_outcome_id}
use basingamarket.Store.Canvas.{canvas_layout_for_ticket, edit_canvas, insert_canvas_object}
use basingamarket.Store.Resales.{
  record_cash_resale, resale_once, record_new_resale, pay_resale, pay_from, fill_bid, resold_ticket,
  apply_cash_resale_to_tickets, hand_over, hand_over_to, split_ticket, split_costed, split_priced,
  split_bought, note_transfer, finish_resale,
}
use basingamarket.Store.Ledger.{Entry, holdings}
use basingamarket.Store.Ledger.Operation.{
  Operation, deposit, reserve, trade, bid, resale, apply, posted, Runs, stop, step, paid_by,
  received_by,
}
use basingamarket.Store.Ledger.Refines.{Runs-holdings}
use basingamarket.Store.Ledger.Once.Again.{apply_again}
use basingamarket.Store.Ledger.Created.{held}
use basingamarket.Store.Ledger.Created.Bound.{apply_all, apply_all-held, brought}

abbrev deposit_by_alice : Operation
deposit_by_alice = deposit (deposit_of alice (6 ∷ []) 5000000)

abbrev deposit_by_bob : Operation
deposit_by_bob = deposit (deposit_of bob (7 ∷ []) 2000000)

abbrev with_alice : ProjectionState
with_alice = (apply deposit_by_alice empty).0

abbrev pub funded : ProjectionState
funded = (apply deposit_by_bob with_alice).0

abbrev pub reserved : ProjectionState
reserved = (apply (reserve reservation) funded).0

abbrev pub bought : ProjectionState
bought = (apply (trade purchase) reserved).0

abbrev pub offered : ProjectionState
offered = (apply (bid bid_of_bob) bought).0

abbrev pub sold : ProjectionState
sold = (apply (resale sale) offered).0

-- Both wallets are funded, Alice buys, Bob bids, and Alice sells a part into the bid.
runs-ok :
    (apply deposit_by_alice empty ≡ (with_alice, ok tt))
    × (apply deposit_by_bob with_alice ≡ (funded, ok tt))
    × (apply (reserve reservation) funded ≡ (reserved, ok tt))
    × (apply (trade purchase) reserved ≡ (bought, ok tt))
    × (apply (bid bid_of_bob) bought ≡ (offered, ok tt))
    × (apply (resale sale) offered ≡ (sold, ok tt))
unfolding apply bytes_eq record_cash_deposit deposit_once credited debited upsert_cash_balance
    get_cash_balance get insert text_cmp reserve_cash_trade record_cash_trade trade_once
    record_new_trade reservation_for insert_ticket_for_cash_trade new_ticket_for_trade
    insert_cash_bid entry_price prorated_amount side_to_outcome_id canvas_layout_for_ticket
    edit_canvas insert_canvas_object record_cash_resale resale_once record_new_resale pay_resale
    pay_from fill_bid resold_ticket apply_cash_resale_to_tickets hand_over hand_over_to split_ticket
    split_costed split_priced split_bought note_transfer finish_resale
runs-ok = (refl, refl, refl, refl, refl, refl)

-- The same operations, and the sale once more after them.
abbrev pub operations : List Operation
operations =
    deposit_by_alice
    ∷ deposit_by_bob
    ∷ reserve reservation
    ∷ trade purchase
    ∷ bid bid_of_bob
    ∷ resale sale
    ∷ resale sale
    ∷ []

abbrev entries : List Entry
entries =
    posted deposit_by_alice empty
    ∷ posted deposit_by_bob with_alice
    ∷ posted (reserve reservation) funded
    ∷ posted (trade purchase) reserved
    ∷ posted (bid bid_of_bob) bought
    ∷ posted (resale sale) offered
    ∷ []

all_steps : Runs empty entries sold
all_steps = step deposit_by_alice runs-ok.0 (
    step deposit_by_bob runs-ok.1 (
      step (reserve reservation) runs-ok.2 (
        step (trade purchase) runs-ok.3
          (step (bid bid_of_bob) runs-ok.4 (step (resale sale) runs-ok.5 stop)))))

Runs-holdings_example :
    holdings bob sold + paid_by bob entries ≡ holdings bob empty + received_by bob entries
Runs-holdings_example = Runs-holdings bob all_steps

apply_again_example : apply (resale sale) sold ≡ (sold, ok tt)
apply_again_example = apply_again (resale sale) offered sold refl runs-ok.5

-- The sale a second time in a store where nothing is left to pay it with.
apply_all-held_example :
    held (apply_all (resale sale ∷ deposit_by_bob ∷ resale sale ∷ []) bought)
    ≤ held bought + brought (resale sale ∷ deposit_by_bob ∷ resale sale ∷ [])
apply_all-held_example = apply_all-held (resale sale ∷ deposit_by_bob ∷ resale sale ∷ []) bought
