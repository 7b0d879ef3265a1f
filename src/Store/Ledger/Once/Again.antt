-- ===== src/Store/Ledger/Once/Again.antt =====
-- The operations that record a signature or a claim are idempotent.
use basingamarket.Base.{Bool, true, false, ◌≡◌, ap, ok}
use basingamarket.Store.State.{ProjectionState}
use basingamarket.Store.Ledger.Operation.{
  Operation, mint, deposit, deposit_sol, deposit_transfer, withdraw, reserve, release, trade, bid,
  cancel, resale, claim, forget, apply,
}
use basingamarket.Store.Ledger.Refines.{forget-ok}
use basingamarket.Store.Ledger.Once.Deposits.{
  record_cash_deposit_again, record_sol_deposit_again, record_transfer_deposit_again,
  record_cash_withdrawal_again,
}
use basingamarket.Store.Ledger.Once.Trades.{record_cash_trade_again, record_cash_resale_again}
use basingamarket.Store.Ledger.Once.Claims.{claim_ticket_to_cash_again}

abbrev pub is_recorded : Operation → Bool
is_recorded (deposit row) = true
is_recorded (deposit_sol row) = true
is_recorded (deposit_transfer row) = true
is_recorded (withdraw row) = true
is_recorded (trade row) = true
is_recorded (resale row) = true
is_recorded (claim clock ticket_id claimer amount meta) = true
is_recorded _ = false

-- A deposit, a withdrawal, a trade, a resale and a claim are done once: where one has succeeded, the
-- same operation succeeds again and leaves the whole state as it is.
pub apply_again :
    (operation : Operation) (state after : ProjectionState)
    → is_recorded operation ≡ true
    → apply operation state ≡ (after, ok tt)
    → apply operation after ≡ (after, ok tt)
unfolding apply
apply_again (deposit row) state after recorded run =
    ap forget (record_cash_deposit_again row state after _ (forget-ok _ run).1).1
apply_again (deposit_sol row) state after recorded run =
    ap forget (record_sol_deposit_again row state after _ (forget-ok _ run).1).1
apply_again (deposit_transfer row) state after recorded run =
    ap forget (record_transfer_deposit_again row state after _ (forget-ok _ run).1).1
apply_again (withdraw row) state after recorded run =
    ap forget (record_cash_withdrawal_again row state after _ (forget-ok _ run).1).1
apply_again (trade row) state after recorded run =
    ap forget (record_cash_trade_again row state after _ (forget-ok _ run).1).1
apply_again (resale row) state after recorded run =
    ap forget (record_cash_resale_again row state after _ (forget-ok _ run).1).2
apply_again (claim clock ticket_id claimer amount meta) state after recorded run =
    ap forget
      (claim_ticket_to_cash_again clock ticket_id claimer amount meta state after _
        (forget-ok _ run).1).1
apply_again (mint row daily_limit) state after recorded run = cc
apply_again (reserve row) state after recorded run = cc
apply_again (release now trade_id) state after recorded run = cc
apply_again (bid row) state after recorded run = cc
apply_again (cancel now bid_id buyer_wallet) state after recorded run = cc
