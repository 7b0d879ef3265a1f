-- ===== src/Store/Ledger/Posts/Bids.antt =====
-- The entries of bids.
use basingamarket.Base.{Bool, true, false, ◌≡◌, refl, Option, some, none, bytes_eq, arith, ok, not}
use basingamarket.Store.Key.{Text, text_key, nat_key, pair_key, text_eq_sound}
use basingamarket.Store.Map.{get, contains_key}
use basingamarket.Store.Map.Laws.{total-insert}
use basingamarket.Store.Rows.Events.{Time}
use basingamarket.Store.Rows.Cash.{CashBalanceRow, CashBidRow}
use basingamarket.Store.State.{ProjectionState}
use basingamarket.Store.Balances.{upsert_cash_balance, credited, debited}
use basingamarket.Store.Prices.{active_text}
use basingamarket.Store.Bids.{
  put_bid, insert_cash_bid, cancelled_bid, cancel_found, cancel_cash_bid,
}
use basingamarket.Store.Ledger.{Entry, nothing, holdings, Posts, bid_for}
use basingamarket.Store.Ledger.Holdings.{
  or_return-Posts, past_error, holdings-debited, holdings-credited, contains-none,
}

-- A bid takes its price from the balance and holds what it is said to have left.
abbrev pub bid_entry : CashBidRow → Entry
bid_entry row = record {
  payer = row.buyer_wallet;
  paid = row.max_usdc;
  payee = row.buyer_wallet;
  received = row.remaining_usdc;
}

bid-Posts :
    (row : CashBidRow) (state : ProjectionState) (balance : CashBalanceRow)
    → get row.bid_id state.cash_bids ≡ none
    → debited row.buyer_wallet row.max_usdc row.updated_at state ≡ ok balance
    → Posts (bid_entry row) state (put_bid row.bid_id row (upsert_cash_balance balance state))
unfolding Posts holdings upsert_cash_balance bid_for
bid-Posts row state balance new paid wallet = ground (
  arith,
  holdings-debited row.buyer_wallet row.max_usdc row.updated_at state balance paid wallet,
  total-insert (bid_for wallet) row.bid_id row state.cash_bids,
  new,
)

pub insert_cash_bid-Posts :
    (row : CashBidRow) (state after : ProjectionState) (reply : CashBalanceRow)
    → insert_cash_bid row state ≡ (after, ok reply)
    → Posts (bid_entry row) state after
unfolding insert_cash_bid
insert_cash_bid-Posts row state after reply run =
    let new = past_error (contains_key row.bid_id state.cash_bids) _ _ run in
    or_return-Posts (bid_entry row) state state
      (debited row.buyer_wallet row.max_usdc row.updated_at state)
      (λ balance. put_bid row.bid_id row (upsert_cash_balance balance state)) (λ balance. balance)
      (λ balance.
        bid-Posts row state balance (contains-none (get row.bid_id state.cash_bids) new.0))
      new.1

-- A cancellation moves what remains of the bid back to the balance.
cancelled-Posts :
    (now : Time) (bid_id wallet : Text) (bid : CashBidRow) (state : ProjectionState)
    (balance : CashBalanceRow)
    → get bid_id state.cash_bids ≡ some bid
    → bid.buyer_wallet ≡ wallet
    → credited wallet bid.remaining_usdc now (put_bid bid_id (cancelled_bid now bid) state)
      ≡ ok balance
    → Posts nothing state
        (upsert_cash_balance balance (put_bid bid_id (cancelled_bid now bid) state))
unfolding Posts holdings upsert_cash_balance bid_for
cancelled-Posts now bid_id buyer bid state balance found owner paid wallet = ground (
  arith,
  holdings-credited buyer bid.remaining_usdc now (put_bid bid_id (cancelled_bid now bid) state)
      balance paid wallet,
  total-insert (bid_for wallet) bid_id (cancelled_bid now bid) state.cash_bids,
  found,
  owner,
)

not-false : {b : Bool} → not b ≡ false → b ≡ true
not-false {b = true} h = refl
not-false {b = false} h = cc

cancel_found-Posts :
    (now : Time) (bid_id wallet : Text) (found : Option CashBidRow) (state after : ProjectionState)
    (reply : CashBalanceRow)
    → get bid_id state.cash_bids ≡ found
    → cancel_found now bid_id wallet found state ≡ (after, ok reply)
    → Posts nothing state after
unfolding cancel_found
cancel_found-Posts now bid_id wallet none state after reply at run = cc
cancel_found-Posts now bid_id wallet (some bid) state after reply at run =
    let owned = past_error (not (bytes_eq bid.buyer_wallet wallet)) _ _ run in
    let running = past_error (not (bytes_eq bid.status active_text)) _ _ owned.1 in
    let left = put_bid bid_id (cancelled_bid now bid) state in
    or_return-Posts nothing state left (credited wallet bid.remaining_usdc now left)
      (λ balance. upsert_cash_balance balance left) (λ balance. balance)
      (λ balance.
        cancelled-Posts now bid_id wallet bid state balance at
          (text_eq_sound bid.buyer_wallet wallet (not-false owned.0)))
      running.1

pub cancel_cash_bid-Posts :
    (now : Time) (bid_id wallet : Text) (state after : ProjectionState) (reply : CashBalanceRow)
    → cancel_cash_bid now bid_id wallet state ≡ (after, ok reply)
    → Posts nothing state after
unfolding cancel_cash_bid
cancel_cash_bid-Posts now bid_id wallet state after reply run =
    cancel_found-Posts now bid_id wallet (get bid_id state.cash_bids) state after reply refl run
