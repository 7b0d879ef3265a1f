-- ===== src/Store/Snapshot/Kept/Always.antt =====
-- A store that was only written by the operations on cash can be saved and loaded at any time.
use basingamarket.Base.{List, [], ◌∷◌, ok, err, ◌≡◌, Leaves}
use basingamarket.Store.State.{ProjectionState, Outcome}
use basingamarket.Store.Ledger.Operation.{
  Operation, mint, deposit, deposit_sol, deposit_transfer, withdraw, reserve, release, trade, bid,
  cancel, resale, claim, forget, apply,
}
use basingamarket.Store.Ledger.Created.Bound.{apply_all}
use basingamarket.Store.Snapshot.{cash_projection_snapshot, replace_ledgers}
use basingamarket.Store.Snapshot.RoundTrip.{WellKept, with_ledgers_of, replace_ledgers-snapshot}
use basingamarket.Store.Snapshot.Kept.Deposits.{
  record_busdc_mint-WellKept, record_cash_deposit-WellKept, record_sol_deposit-WellKept,
  record_transfer_deposit-WellKept, record_cash_withdrawal-WellKept, claim_ticket_to_cash-WellKept,
}
use basingamarket.Store.Snapshot.Kept.Trades.{
  reserve_cash_trade-WellKept, release_cash_trade_reservation-WellKept, record_cash_trade-WellKept,
  insert_cash_bid-WellKept, cancel_cash_bid-WellKept,
}
use basingamarket.Store.Snapshot.Kept.Resales.{record_cash_resale-WellKept}

forget-WellKept :
    {A : Type 0} (outcome : Outcome A) → Leaves WellKept outcome → WellKept (forget outcome).0
unfolding Leaves
forget-WellKept (state, ok value) kept = kept
forget-WellKept (state, err e) kept = kept

apply-WellKept :
    (operation : Operation) (state : ProjectionState)
    → WellKept state
    → WellKept (apply operation state).0
unfolding apply
apply-WellKept (mint row daily_limit) state kept =
    forget-WellKept _ (record_busdc_mint-WellKept row daily_limit state kept)
apply-WellKept (deposit row) state kept =
    forget-WellKept _ (record_cash_deposit-WellKept row state kept)
apply-WellKept (deposit_sol row) state kept =
    forget-WellKept _ (record_sol_deposit-WellKept row state kept)
apply-WellKept (deposit_transfer row) state kept =
    forget-WellKept _ (record_transfer_deposit-WellKept row state kept)
apply-WellKept (withdraw row) state kept =
    forget-WellKept _ (record_cash_withdrawal-WellKept row state kept)
apply-WellKept (reserve row) state kept =
    forget-WellKept _ (reserve_cash_trade-WellKept row state kept)
apply-WellKept (release now trade_id) state kept =
    forget-WellKept _ (release_cash_trade_reservation-WellKept now trade_id state kept)
apply-WellKept (trade row) state kept =
    forget-WellKept _ (record_cash_trade-WellKept row state kept)
apply-WellKept (bid row) state kept = forget-WellKept _ (insert_cash_bid-WellKept row state kept)
apply-WellKept (cancel now bid_id buyer_wallet) state kept =
    forget-WellKept _ (cancel_cash_bid-WellKept now bid_id buyer_wallet state kept)
apply-WellKept (resale row) state kept =
    forget-WellKept _ (record_cash_resale-WellKept row state kept)
apply-WellKept (claim clock ticket_id claimer amount meta) state kept =
    forget-WellKept _ (claim_ticket_to_cash-WellKept clock ticket_id claimer amount meta state kept)

-- Whatever operations on cash are done, failing ones included, a store whose ledgers are well kept
-- keeps them so: each ledger stays sorted by its keys, with each row under its own key.
pub apply_all-WellKept :
    (operations : List Operation) (state : ProjectionState)
    → WellKept state
    → WellKept (apply_all operations state)
unfolding apply_all
apply_all-WellKept [] state kept = kept
apply_all-WellKept (operation ∷ operations) state kept =
    apply_all-WellKept operations (apply operation state).0 (apply-WellKept operation state kept)

-- After any sequence of operations on cash, failing ones included, from a store whose ledgers are well
-- kept, such as an empty one, loading the snapshot into any state brings back every row of the fourteen
-- ledgers under its key, before the tickets are made again from them.
pub replace_ledgers-apply_all :
    (operations : List Operation) (first other : ProjectionState)
    → WellKept first
    → replace_ledgers (cash_projection_snapshot (apply_all operations first)) other
      ≡ with_ledgers_of (apply_all operations first) other
replace_ledgers-apply_all operations first other kept =
    replace_ledgers-snapshot (apply_all operations first) other
      (apply_all-WellKept operations first kept)
