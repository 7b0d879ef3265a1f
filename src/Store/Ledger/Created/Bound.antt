-- ===== src/Store/Ledger/Created/Bound.antt =====
-- All operations together: what any sequence of them, failures included, can add to the store.
use basingamarket.Base.{ℕ, List, [], ◌∷◌, ◌+◌, ◌-◌, ◌≤◌, arith, ok, err}
use basingamarket.Store.State.{ProjectionState, Outcome}
use basingamarket.Store.Ledger.Operation.{
  Operation, mint, deposit, deposit_sol, deposit_transfer, withdraw, reserve, release, trade, bid,
  cancel, resale, claim, forget, apply,
}
use basingamarket.Store.Ledger.Created.{held}
use basingamarket.Store.Ledger.Created.Deposits.{
  record_busdc_mint-held, record_cash_deposit-held, record_sol_deposit-held,
  record_transfer_deposit-held, record_cash_withdrawal-held, claim_ticket_to_cash-held,
}
use basingamarket.Store.Ledger.Created.Trades.{
  reserve_cash_trade-held, release_cash_trade_reservation-held, record_cash_trade-held,
  insert_cash_bid-held, cancel_cash_bid-held,
}
use basingamarket.Store.Ledger.Created.Resales.{record_cash_resale-held}

-- What an operation may bring in from outside.
unfoldable pub brings : Operation → ℕ
brings (mint row daily_limit) = row.amount
brings (deposit row) = row.amount
brings (deposit_sol row) = row.cash_amount
brings (deposit_transfer row) = row.cash_amount
brings (withdraw row) = 0
brings (reserve row) = 0
brings (release now trade_id) = 0
brings (trade row) = 0
brings (bid row) = row.remaining_usdc - row.max_usdc
brings (cancel now bid_id buyer_wallet) = 0
brings (resale row) = row.seller_receives - row.gross_usdc
brings (claim clock ticket_id claimer amount meta) = amount

forget-held :
    {A : Type 0} (outcome : Outcome A) (bound : ℕ)
    → held outcome.0 ≤ bound
    → held (forget outcome).0 ≤ bound
forget-held (state, ok value) bound below = below
forget-held (state, err e) bound below = below

none_more : {a b : ℕ} → a ≤ b → a ≤ b + 0
none_more h = omega arith

apply-held :
    (operation : Operation) (state : ProjectionState)
    → held (apply operation state).0 ≤ held state + brings operation
unfolding apply brings
apply-held (mint row daily_limit) state =
    forget-held _ _ (record_busdc_mint-held row daily_limit state)
apply-held (deposit row) state = forget-held _ _ (record_cash_deposit-held row state)
apply-held (deposit_sol row) state = forget-held _ _ (record_sol_deposit-held row state)
apply-held (deposit_transfer row) state = forget-held _ _ (record_transfer_deposit-held row state)
apply-held (withdraw row) state =
    forget-held _ _ (none_more (record_cash_withdrawal-held row state))
apply-held (reserve row) state = forget-held _ _ (none_more (reserve_cash_trade-held row state))
apply-held (release now trade_id) state =
    forget-held _ _ (none_more (release_cash_trade_reservation-held now trade_id state))
apply-held (trade row) state = forget-held _ _ (none_more (record_cash_trade-held row state))
apply-held (bid row) state = forget-held _ _ (insert_cash_bid-held row state)
apply-held (cancel now bid_id buyer_wallet) state =
    forget-held _ _ (none_more (cancel_cash_bid-held now bid_id buyer_wallet state))
apply-held (resale row) state = forget-held _ _ (record_cash_resale-held row state)
apply-held (claim clock ticket_id claimer amount meta) state =
    forget-held _ _ (claim_ticket_to_cash-held clock ticket_id claimer amount meta state)

-- The operations one after the other, whatever each of them answers.
unfoldable pub apply_all : List Operation → ProjectionState → ProjectionState
apply_all [] state = state
apply_all (operation ∷ operations) state = apply_all operations (apply operation state).0

unfoldable pub brought : List Operation → ℕ
brought [] = 0
brought (operation ∷ operations) = brings operation + brought operations

-- Whatever operations are done, in any order and failing wherever they do, the money in balances, open
-- reservations and bids grows at most by what mints, deposits and claims bring in, and by the excess
-- of rows that pay a seller more than the price or keep more in a bid than was paid for it.
pub apply_all-held :
    (operations : List Operation) (state : ProjectionState)
    → held (apply_all operations state) ≤ held state + brought operations
unfolding apply_all brought
apply_all-held [] state = omega arith
apply_all-held (operation ∷ operations) state =
    ground (arith, apply-held operation state, apply_all-held operations (apply operation state).0)
