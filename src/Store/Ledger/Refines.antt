-- ===== src/Store/Ledger/Refines.antt =====
-- The store implements the account book.
use basingamarket.Base.{List, ◌≡◌, refl, ok, err, ◌+◌, arith}
use basingamarket.Store.Key.{Text}
use basingamarket.Store.State.{ProjectionState, Outcome}
use basingamarket.Store.Ledger.{Entry, holdings, Posts}
use basingamarket.Store.Ledger.Operation.{
  Operation, mint, deposit, deposit_sol, deposit_transfer, withdraw, reserve, release, trade, bid,
  cancel, resale, claim, forget, apply, posted, Runs, stop, step, paid_by, received_by,
}
use basingamarket.Store.Ledger.Posts.Deposits.{
  record_busdc_mint-Posts, record_cash_deposit-Posts, record_sol_deposit-Posts,
  record_transfer_deposit-Posts, record_cash_withdrawal-Posts,
}
use basingamarket.Store.Ledger.Posts.Trades.{
  reserve_cash_trade-Posts, release_cash_trade_reservation-Posts, record_cash_trade-Posts,
}
use basingamarket.Store.Ledger.Posts.Bids.{insert_cash_bid-Posts, cancel_cash_bid-Posts}
use basingamarket.Store.Ledger.Posts.Resales.{record_cash_resale-Posts}
use basingamarket.Store.Ledger.Posts.Claims.{claim_ticket_to_cash-Posts}

-- A forgotten result was one.
pub forget-ok :
    {A : Type 0} (outcome : Outcome A) {after : ProjectionState}
    → forget outcome ≡ (after, ok tt)
    → (value : A) × (outcome ≡ (after, ok value))
forget-ok (state, ok value) run = (value, cc)
forget-ok (state, err e) run = cc

-- Every operation that succeeds posts exactly its entry: it changes what each wallet holds by what the
-- entry says that wallet receives and pays, and by nothing for all others.
pub apply-Posts :
    (operation : Operation) (state after : ProjectionState)
    → apply operation state ≡ (after, ok tt)
    → Posts (posted operation state) state after
unfolding apply posted
apply-Posts (mint row daily_limit) state after run =
    record_busdc_mint-Posts row daily_limit state after _ (forget-ok _ run).1
apply-Posts (deposit row) state after run =
    record_cash_deposit-Posts row state after _ (forget-ok _ run).1
apply-Posts (deposit_sol row) state after run =
    record_sol_deposit-Posts row state after _ (forget-ok _ run).1
apply-Posts (deposit_transfer row) state after run =
    record_transfer_deposit-Posts row state after _ (forget-ok _ run).1
apply-Posts (withdraw row) state after run =
    record_cash_withdrawal-Posts row state after _ (forget-ok _ run).1
apply-Posts (reserve row) state after run =
    reserve_cash_trade-Posts row state after _ (forget-ok _ run).1
apply-Posts (release now trade_id) state after run =
    release_cash_trade_reservation-Posts now trade_id state after _ (forget-ok _ run).1
apply-Posts (trade row) state after run =
    record_cash_trade-Posts row state after _ (forget-ok _ run).1
apply-Posts (bid row) state after run = insert_cash_bid-Posts row state after _ (forget-ok _ run).1
apply-Posts (cancel now bid_id buyer_wallet) state after run =
    cancel_cash_bid-Posts now bid_id buyer_wallet state after _ (forget-ok _ run).1
apply-Posts (resale row) state after run =
    record_cash_resale-Posts row state after _ (forget-ok _ run).1
apply-Posts (claim clock ticket_id claimer amount meta) state after run =
    claim_ticket_to_cash-Posts clock ticket_id claimer amount meta state after _ (forget-ok _ run).1

-- After any run of successful operations a wallet holds what it held before, more by all that the
-- entries pay to it and less by all that they take from it.
pub Runs-holdings :
    {before after : ProjectionState} {entries : List Entry} (wallet : Text)
    → Runs before entries after
    → holdings wallet after + paid_by wallet entries
      ≡ holdings wallet before + received_by wallet entries
unfolding paid_by received_by Posts
Runs-holdings wallet stop = refl
Runs-holdings wallet (step operation run rest) =
    ground (arith, apply-Posts operation _ _ run wallet, Runs-holdings wallet rest)
