-- ===== src/Store/Ledger/Operation.antt =====
-- The operations of the store that move money, as values, and the entry that each is to post.
use basingamarket.Base.{ℕ, List, [], ◌∷◌, ◌≡◌, ok, err, ◌+◌}
use basingamarket.Store.Key.{Text, text_key, nat_key}
use basingamarket.Store.Map.{get}
use basingamarket.Store.Rows.Events.{Time, Clock, EventMeta}
use basingamarket.Store.Rows.Cash.{
  BusdcMintRow, CashDepositRow, SolDepositRow, TransferDepositRow, CashWithdrawalRow,
  CashTradeReservationRow, CashTradeRow, CashBidRow, CashResaleRow,
}
use basingamarket.Store.State.{ProjectionState, Outcome}
use basingamarket.Store.Balances.{record_busdc_mint, record_cash_deposit}
use basingamarket.Store.Deposits.{record_sol_deposit, record_transfer_deposit}
use basingamarket.Store.Withdrawals.{record_cash_withdrawal}
use basingamarket.Store.Reservations.{
  reserve_cash_trade, release_cash_trade_reservation, record_cash_trade,
}
use basingamarket.Store.Bids.{insert_cash_bid, cancel_cash_bid}
use basingamarket.Store.Resales.{record_cash_resale}
use basingamarket.Store.Settlement.{claim_ticket_to_cash}
use basingamarket.Store.Ledger.{Entry, credit, debit, nothing, unless_known, to_wallet}
use basingamarket.Store.Ledger.Posts.Trades.{reserve_entry}
use basingamarket.Store.Ledger.Posts.Bids.{bid_entry}
use basingamarket.Store.Ledger.Posts.Resales.{resale_entry}

pub data Operation : Type 0 where
  mint : (row : BusdcMintRow) (daily_limit : ℕ) → Operation
  deposit : (row : CashDepositRow) → Operation
  deposit_sol : (row : SolDepositRow) → Operation
  deposit_transfer : (row : TransferDepositRow) → Operation
  withdraw : (row : CashWithdrawalRow) → Operation
  reserve : (row : CashTradeReservationRow) → Operation
  release : (now : Time) (trade_id : Text) → Operation
  trade : (row : CashTradeRow) → Operation
  bid : (row : CashBidRow) → Operation
  cancel : (now : Time) (bid_id buyer_wallet : Text) → Operation
  resale : (row : CashResaleRow) → Operation
  claim :
      (clock : Clock) (ticket_id : ℕ) (claimer : Text) (amount : ℕ) (meta : EventMeta) → Operation

abbrev pub forget : {A : Type 0} → Outcome A → Outcome (Unit {0})
forget (state, ok a) = (state, ok tt)
forget (state, err e) = (state, err e)

unfoldable pub apply : Operation → ProjectionState → Outcome (Unit {0})
apply (mint row daily_limit) state = forget (record_busdc_mint row daily_limit state)
apply (deposit row) state = forget (record_cash_deposit row state)
apply (deposit_sol row) state = forget (record_sol_deposit row state)
apply (deposit_transfer row) state = forget (record_transfer_deposit row state)
apply (withdraw row) state = forget (record_cash_withdrawal row state)
apply (reserve row) state = forget (reserve_cash_trade row state)
apply (release now trade_id) state = forget (release_cash_trade_reservation now trade_id state)
apply (trade row) state = forget (record_cash_trade row state)
apply (bid row) state = forget (insert_cash_bid row state)
apply (cancel now bid_id buyer_wallet) state =
    forget (cancel_cash_bid now bid_id buyer_wallet state)
apply (resale row) state = forget (record_cash_resale row state)
apply (claim clock ticket_id claimer amount meta) state =
    forget (claim_ticket_to_cash clock ticket_id claimer amount meta state)

-- The account book's view: mints, deposits and claims credit, withdrawals and trades debit, a resale
-- pays, all of them once, and whatever only sets money aside or frees it posts nothing.
unfoldable pub posted : Operation → ProjectionState → Entry
posted (mint row daily_limit) state = credit row.wallet_address row.amount
posted (deposit row) state =
    unless_known (get row.signature state.cash_deposits) (credit row.wallet_address row.amount)
posted (deposit_sol row) state =
    unless_known (get row.signature state.sol_deposits) (credit row.wallet_address row.cash_amount)
posted (deposit_transfer row) state =
    unless_known (get row.signature state.transfer_deposits)
      (credit row.wallet_address row.cash_amount)
posted (withdraw row) state =
    unless_known (get row.vault_signature state.cash_withdrawals)
      (debit row.wallet_address row.amount)
posted (reserve row) state = reserve_entry row
posted (release now trade_id) state = nothing
posted (trade row) state =
    unless_known (get row.signature state.cash_trades) (debit row.wallet_address row.usdc_in)
posted (bid row) state = bid_entry row
posted (cancel now bid_id buyer_wallet) state = nothing
posted (resale row) state = unless_known (get row.signature state.cash_resales) (resale_entry row)
posted (claim clock ticket_id claimer amount meta) state =
    unless_known (get ticket_id state.payout_claims) (credit claimer amount)

-- A run of successful operations, with the entries that the book gets.
pub data Runs : ProjectionState → List Entry → ProjectionState → Type 0 where
  stop : {state : ProjectionState} → Runs state [] state
  step :
      (operation : Operation) {before next last : ProjectionState} {entries : List Entry}
      → apply operation before ≡ (next, ok tt)
      → Runs next entries last
      → Runs before (posted operation before ∷ entries) last

unfoldable pub paid_by : Text → List Entry → ℕ
paid_by wallet [] = 0
paid_by wallet (entry ∷ entries) = to_wallet entry.payer entry.paid wallet + paid_by wallet entries

unfoldable pub received_by : Text → List Entry → ℕ
received_by wallet [] = 0
received_by wallet (entry ∷ entries) =
    to_wallet entry.payee entry.received wallet + received_by wallet entries
