-- ===== src/Store/Tests/Rounds.antt =====
-- A settled round, a resale, an order book, a quote and a snapshot, and the properties at them.
use basingamarket.Base.{
  ℕ, true, false, [], ◌∷◌, ◌≡◌, ◌≢◌, refl, ok, err, ◌+◌, ◌*◌, ◌≤◌, some, none, bytes_eq,
  if◌then◌else◌, arith, Option,
}
use basingamarket.Store.Key.{text_cmp, text_key, nat_key}
use basingamarket.Store.Map.{get, insert, total, map_values}
use basingamarket.Store.Rows.Cash.{CashWithdrawalQuoteRow}
use basingamarket.Store.Rows.Error.{projection, cash_withdrawal_quote_already_used}
use basingamarket.Store.State.{ProjectionState}
use basingamarket.Store.Prices.{
  scale, up_text, settlement_total, entry_price, prorated_amount, side_to_outcome_id,
}
use basingamarket.Store.Canvas.{edit_canvas, insert_canvas_object, canvas_layout_for_ticket}
use basingamarket.Store.Balances.{
  record_cash_deposit, deposit_once, credited, debited, upsert_cash_balance, get_cash_balance,
}
use basingamarket.Store.Reservations.{
  reserve_cash_trade, record_cash_trade, trade_once, record_new_trade, reservation_for,
  insert_ticket_for_cash_trade, new_ticket_for_trade,
}
use basingamarket.Store.Bids.{insert_cash_bid, best_cash_bid}
use basingamarket.Store.Resales.{
  record_cash_resale, resale_once, record_new_resale, pay_resale, pay_from, fill_bid, finish_resale,
  resold_ticket, apply_cash_resale_to_tickets, hand_over, hand_over_to, split_ticket, split_costed,
  split_priced, split_bought, note_transfer,
}
use basingamarket.Store.Settlement.{
  RoundSettlement, settle_round_tickets, settle_tickets, settled_value, settled_status,
  finish_settlement, unlist_all, count,
}
use basingamarket.Store.Settled.{settle_one, one_if_due}
use basingamarket.Store.Settled.Loop.{settle_round_tickets-settle_one}
use basingamarket.Store.Settled.Payable.{
  claimable_value, winning_shares, settle_round_tickets-claimable_value,
}
use basingamarket.Store.Conserved.{
  total_stake, replaced_stake, apply_cash_resale_to_tickets-total_stake,
}
use basingamarket.Store.Best.{Offers, is_candidate, best_cash_bid-Offers}
use basingamarket.Store.Withdrawals.{
  insert_cash_withdrawal_quote, reserve_cash_withdrawal_quote, reserve_quote, reserve_used,
}
use basingamarket.Store.Quotes.{reserve_cash_withdrawal_quote_again}
use basingamarket.Store.Ledger.Operation.{apply}
use basingamarket.Store.Tests.Data.{empty, alice, bob, noon, sale, bid_of_bob}
use basingamarket.Store.Tests.Ledgers.{offered, sold}

-- The round of the purchase is won by its side, at one and a half dollars a ticket.
abbrev won : RoundSettlement
won = record {
  winning_outcome = some 0;
  payout_per_ticket = some 1500000;
  refund_per_ticket_by_outcome = [];
  settled_at = noon;
}

abbrev settled_state : ProjectionState
settled_state = (settle_round_tickets 1 7 won sold).0

settles-ok : settle_round_tickets 1 7 won sold ≡ (settled_state, ok 2)
unfolding apply record_cash_deposit deposit_once credited debited upsert_cash_balance
    get_cash_balance get insert text_cmp reserve_cash_trade record_cash_trade trade_once
    record_new_trade reservation_for insert_ticket_for_cash_trade new_ticket_for_trade
    insert_cash_bid entry_price prorated_amount side_to_outcome_id canvas_layout_for_ticket
    edit_canvas insert_canvas_object bytes_eq record_cash_resale resale_once record_new_resale
    pay_resale pay_from fill_bid resold_ticket apply_cash_resale_to_tickets hand_over hand_over_to
    split_ticket split_costed split_priced split_bought note_transfer finish_resale
    settle_round_tickets settle_tickets settled_value settled_status settlement_total
    finish_settlement unlist_all count
settles-ok = refl

settle_round_tickets-settle_one_example :
    (settled_state.tickets ≡ map_values (settle_one 1 7 won) sold.tickets)
    × (2 ≡ total (one_if_due 1 7) sold.tickets)
settle_round_tickets-settle_one_example =
    settle_round_tickets-settle_one 1 7 won sold settled_state 2 settles-ok

settle_round_tickets-claimable_value_example :
    total (claimable_value 1 7) settled_state.tickets * scale
    ≤ 1500000 * total (winning_shares 1 7 0) sold.tickets
settle_round_tickets-claimable_value_example =
    settle_round_tickets-claimable_value 1 7 0 1500000 won refl refl sold settled_state 2 settles-ok

-- The ticket of the purchase is split.
abbrev split_state : ProjectionState
split_state = (apply_cash_resale_to_tickets sale offered).0

split-ok : apply_cash_resale_to_tickets sale offered ≡ (split_state, ok tt)
unfolding apply record_cash_deposit deposit_once credited debited upsert_cash_balance
    get_cash_balance get insert text_cmp reserve_cash_trade record_cash_trade trade_once
    record_new_trade reservation_for insert_ticket_for_cash_trade new_ticket_for_trade
    insert_cash_bid entry_price prorated_amount side_to_outcome_id canvas_layout_for_ticket
    edit_canvas insert_canvas_object bytes_eq record_cash_resale resale_once record_new_resale
    pay_resale pay_from fill_bid resold_ticket apply_cash_resale_to_tickets hand_over hand_over_to
    split_ticket split_costed split_priced split_bought note_transfer finish_resale
split-ok = refl

other_lot : ◌≢◌ {A = Option ℕ} (some 43) (some 42)
other_lot h = ground arith

apply_cash_resale_to_tickets-total_stake_example :
    total_stake split_state + replaced_stake (some 43) offered ≡ total_stake offered
apply_cash_resale_to_tickets-total_stake_example =
    apply_cash_resale_to_tickets-total_stake sale offered split_state other_lot split-ok

bid_found : get (3 ∷ []) offered.cash_bids ≡ some bid_of_bob
unfolding apply record_cash_deposit deposit_once credited debited upsert_cash_balance
    get_cash_balance get insert text_cmp reserve_cash_trade record_cash_trade trade_once
    record_new_trade reservation_for insert_ticket_for_cash_trade new_ticket_for_trade
    insert_cash_bid entry_price prorated_amount side_to_outcome_id canvas_layout_for_ticket
    edit_canvas insert_canvas_object bytes_eq
bid_found = refl

bid_open : is_candidate 1 7 up_text bid_of_bob ≡ true
unfolding bytes_eq
bid_open = refl

best_cash_bid-Offers_example : Offers 1 7 up_text 600000 (best_cash_bid 1 7 up_text offered)
best_cash_bid-Offers_example =
    best_cash_bid-Offers 1 7 up_text (3 ∷ []) bid_of_bob offered bid_found bid_open

abbrev quote : CashWithdrawalQuoteRow
quote = record {
  quote_id = 8 ∷ [];
  wallet_address = alice;
  destination_wallet = none;
  destination_token_account = 84 ∷ [];
  cash_amount = 1000000;
  message = [];
  expires_at = noon;
  used_user_signature = none;
  created_at = noon;
}

abbrev quoted : ProjectionState
quoted = insert_cash_withdrawal_quote quote empty

abbrev taken : ProjectionState
taken = (reserve_cash_withdrawal_quote (8 ∷ []) alice quoted).0

takes-ok : reserve_cash_withdrawal_quote (8 ∷ []) alice quoted ≡ (taken, ok true)
unfolding reserve_cash_withdrawal_quote reserve_quote reserve_used insert_cash_withdrawal_quote get
    insert text_cmp
takes-ok = refl

reserve_cash_withdrawal_quote_again_example : reserve_cash_withdrawal_quote (8 ∷ []) bob taken ≡ (
    if bytes_eq alice bob
    then (taken, ok false)
    else (taken, err (projection cash_withdrawal_quote_already_used)))
reserve_cash_withdrawal_quote_again_example =
    reserve_cash_withdrawal_quote_again (8 ∷ []) alice bob quoted taken true takes-ok
