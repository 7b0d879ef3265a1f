-- ===== src/Store/Snapshot/Kept/Deposits.antt =====
-- Mints, deposits, withdrawals and claims keep the ledgers.
use basingamarket.Base.{
  ℕ, Option, some, none, ◌≡◌, refl, or_return-Leaves, Leaves, leaves, if-keeps,
}
use basingamarket.Store.Key.{Text, text_key, nat_key}
use basingamarket.Store.Map.{get, insert, contains_key}
use basingamarket.Store.Map.Collect.{insert-Kept, get-Keyed}
use basingamarket.Store.Rows.Cash.{
  CashBalanceRow, BusdcMintRow, CashDepositRow, SolDepositRow, SolDepositQuoteRow,
  TransferDepositRow, TransferDepositQuoteRow, CashWithdrawalRow,
}
use basingamarket.Store.Rows.Events.{Clock, EventMeta, TicketRow, PayoutClaimRow}
use basingamarket.Store.State.{ProjectionState}
use basingamarket.Store.Balances.{
  upsert_cash_balance, record_busdc_mint, add_mint, add_deposit, deposit_once, record_cash_deposit,
}
use basingamarket.Store.Deposits.{
  use_sol_quote, credit_sol_deposit, sol_deposit_at, record_new_sol_deposit, sol_deposit_once,
  record_sol_deposit, use_transfer_quote, credit_transfer_deposit, transfer_deposit_at,
  record_new_transfer_deposit, transfer_deposit_once, record_transfer_deposit,
}
use basingamarket.Store.Withdrawals.{withdraw_once, record_cash_withdrawal}
use basingamarket.Store.Tickets.{find_ticket, set_ticket}
use basingamarket.Store.Settlement.{
  claim_marked, claim_again, claim_once, claim_ticket_to_cash, claimed_row, payout_claim,
}
use basingamarket.Store.Snapshot.RoundTrip.{
  mint_ledger, deposit_ledger, sol_quote_ledger, sol_deposit_ledger, transfer_quote_ledger,
  transfer_deposit_ledger, withdrawal_ledger, claim_ledger, IsKept, WellKept,
}
use basingamarket.Store.Snapshot.Kept.{upsert_cash_balance-WellKept, set_ticket-WellKept}

add_mint-WellKept :
    (row : BusdcMintRow) (balance : CashBalanceRow) (state : ProjectionState)
    → WellKept state
    → WellKept (add_mint row balance state)
unfolding IsKept upsert_cash_balance
add_mint-WellKept row balance state kept mint_ledger =
    insert-Kept (λ row. row.mint_id) row.mint_id row state.busdc_mints refl (kept mint_ledger)
add_mint-WellKept row balance state kept other =
    upsert_cash_balance-WellKept balance state kept other

pub record_busdc_mint-WellKept :
    (row : BusdcMintRow) (daily_limit : ℕ) (state : ProjectionState)
    → WellKept state
    → Leaves WellKept (record_busdc_mint row daily_limit state)
unfolding record_busdc_mint
record_busdc_mint-WellKept row daily_limit state kept =
    if-keeps (Leaves WellKept) (contains_key row.mint_id state.busdc_mints) (leaves WellKept _ kept)
      (if-keeps (Leaves WellKept) _ (leaves WellKept _ kept) (
        or_return-Leaves WellKept _ state _ kept
          (λ balance. leaves WellKept _ (add_mint-WellKept row balance state kept))))

add_deposit-WellKept :
    (row : CashDepositRow) (balance : CashBalanceRow) (state : ProjectionState)
    → WellKept state
    → WellKept (add_deposit row balance state)
unfolding IsKept upsert_cash_balance
add_deposit-WellKept row balance state kept deposit_ledger =
    insert-Kept (λ row. row.signature) row.signature row state.cash_deposits refl
      (kept deposit_ledger)
add_deposit-WellKept row balance state kept other =
    upsert_cash_balance-WellKept balance state kept other

deposit_once-WellKept :
    (row : CashDepositRow) (known : Option CashDepositRow) (state : ProjectionState)
    → WellKept state
    → Leaves WellKept (deposit_once row known state)
unfolding deposit_once
deposit_once-WellKept row (some existing) state kept = leaves WellKept _ kept
deposit_once-WellKept row none state kept =
    or_return-Leaves WellKept _ state _ kept
      (λ balance. leaves WellKept _ (add_deposit-WellKept row balance state kept))

pub record_cash_deposit-WellKept :
    (row : CashDepositRow) (state : ProjectionState)
    → WellKept state
    → Leaves WellKept (record_cash_deposit row state)
unfolding record_cash_deposit
record_cash_deposit-WellKept row state kept = deposit_once-WellKept row _ state kept

use_sol_quote-WellKept :
    (row : SolDepositRow) (quote : SolDepositQuoteRow) (state : ProjectionState)
    → row.quote_id ≡ quote.quote_id
    → WellKept state
    → WellKept (use_sol_quote row quote state)
unfolding IsKept
use_sol_quote-WellKept row quote state own kept sol_quote_ledger =
    insert-Kept (λ row. row.quote_id) row.quote_id _ state.sol_deposit_quotes own
      (kept sol_quote_ledger)
use_sol_quote-WellKept row quote state own kept other = kept other

add_sol_deposit-WellKept :
    (row : SolDepositRow) (balance : CashBalanceRow) (state : ProjectionState)
    → WellKept state
    → WellKept (record (upsert_cash_balance balance state) {
      sol_deposits = insert row.signature row state.sol_deposits;
    })
unfolding IsKept upsert_cash_balance
add_sol_deposit-WellKept row balance state kept sol_deposit_ledger =
    insert-Kept (λ row. row.signature) row.signature row state.sol_deposits refl
      (kept sol_deposit_ledger)
add_sol_deposit-WellKept row balance state kept other =
    upsert_cash_balance-WellKept balance state kept other

credit_sol_deposit-WellKept :
    (row : SolDepositRow) (state : ProjectionState)
    → WellKept state
    → Leaves WellKept (credit_sol_deposit row state)
unfolding credit_sol_deposit
credit_sol_deposit-WellKept row state kept =
    or_return-Leaves WellKept _ state _ kept
      (λ balance. leaves WellKept _ (add_sol_deposit-WellKept row balance state kept))

sol_deposit_at-WellKept :
    (row : SolDepositRow) (quote : SolDepositQuoteRow) (used : Option Text)
    (state : ProjectionState)
    → row.quote_id ≡ quote.quote_id
    → WellKept state
    → Leaves WellKept (sol_deposit_at row quote used state)
unfolding sol_deposit_at
sol_deposit_at-WellKept row quote (some signature) state own kept = leaves WellKept _ kept
sol_deposit_at-WellKept row quote none state own kept =
    credit_sol_deposit-WellKept row _ (use_sol_quote-WellKept row quote state own kept)

record_new_sol_deposit-WellKept :
    (row : SolDepositRow) (found : Option SolDepositQuoteRow) (state : ProjectionState)
    → get row.quote_id state.sol_deposit_quotes ≡ found
    → WellKept state
    → Leaves WellKept (record_new_sol_deposit row found state)
unfolding record_new_sol_deposit IsKept
record_new_sol_deposit-WellKept row none state at kept = leaves WellKept _ kept
record_new_sol_deposit-WellKept row (some quote) state at kept =
    sol_deposit_at-WellKept row quote quote.used_signature state
      (get-Keyed (λ row. row.quote_id) row.quote_id quote state.sol_deposit_quotes
        (kept sol_quote_ledger).1 at)
      kept

sol_deposit_once-WellKept :
    (row : SolDepositRow) (known : Option SolDepositRow) (state : ProjectionState)
    → WellKept state
    → Leaves WellKept (sol_deposit_once row known state)
unfolding sol_deposit_once
sol_deposit_once-WellKept row (some existing) state kept = leaves WellKept _ kept
sol_deposit_once-WellKept row none state kept =
    record_new_sol_deposit-WellKept row _ state refl kept

pub record_sol_deposit-WellKept :
    (row : SolDepositRow) (state : ProjectionState)
    → WellKept state
    → Leaves WellKept (record_sol_deposit row state)
unfolding record_sol_deposit
record_sol_deposit-WellKept row state kept = sol_deposit_once-WellKept row _ state kept

use_transfer_quote-WellKept :
    (row : TransferDepositRow) (quote : TransferDepositQuoteRow) (state : ProjectionState)
    → row.quote_id ≡ quote.quote_id
    → WellKept state
    → WellKept (use_transfer_quote row quote state)
unfolding IsKept
use_transfer_quote-WellKept row quote state own kept transfer_quote_ledger =
    insert-Kept (λ row. row.quote_id) row.quote_id _ state.transfer_deposit_quotes own
      (kept transfer_quote_ledger)
use_transfer_quote-WellKept row quote state own kept other = kept other

add_transfer_deposit-WellKept :
    (row : TransferDepositRow) (balance : CashBalanceRow) (state : ProjectionState)
    → WellKept state
    → WellKept (record (upsert_cash_balance balance state) {
      transfer_deposits = insert row.signature row state.transfer_deposits;
    })
unfolding IsKept upsert_cash_balance
add_transfer_deposit-WellKept row balance state kept transfer_deposit_ledger =
    insert-Kept (λ row. row.signature) row.signature row state.transfer_deposits refl
      (kept transfer_deposit_ledger)
add_transfer_deposit-WellKept row balance state kept other =
    upsert_cash_balance-WellKept balance state kept other

credit_transfer_deposit-WellKept :
    (row : TransferDepositRow) (state : ProjectionState)
    → WellKept state
    → Leaves WellKept (credit_transfer_deposit row state)
unfolding credit_transfer_deposit
credit_transfer_deposit-WellKept row state kept =
    or_return-Leaves WellKept _ state _ kept
      (λ balance. leaves WellKept _ (add_transfer_deposit-WellKept row balance state kept))

transfer_deposit_at-WellKept :
    (row : TransferDepositRow) (quote : TransferDepositQuoteRow) (used : Option Text)
    (state : ProjectionState)
    → row.quote_id ≡ quote.quote_id
    → WellKept state
    → Leaves WellKept (transfer_deposit_at row quote used state)
unfolding transfer_deposit_at
transfer_deposit_at-WellKept row quote (some signature) state own kept = leaves WellKept _ kept
transfer_deposit_at-WellKept row quote none state own kept =
    credit_transfer_deposit-WellKept row _ (use_transfer_quote-WellKept row quote state own kept)

record_new_transfer_deposit-WellKept :
    (row : TransferDepositRow) (found : Option TransferDepositQuoteRow) (state : ProjectionState)
    → get row.quote_id state.transfer_deposit_quotes ≡ found
    → WellKept state
    → Leaves WellKept (record_new_transfer_deposit row found state)
unfolding record_new_transfer_deposit IsKept
record_new_transfer_deposit-WellKept row none state at kept = leaves WellKept _ kept
record_new_transfer_deposit-WellKept row (some quote) state at kept =
    transfer_deposit_at-WellKept row quote quote.used_signature state
      (get-Keyed (λ row. row.quote_id) row.quote_id quote state.transfer_deposit_quotes
        (kept transfer_quote_ledger).1 at)
      kept

transfer_deposit_once-WellKept :
    (row : TransferDepositRow) (known : Option TransferDepositRow) (state : ProjectionState)
    → WellKept state
    → Leaves WellKept (transfer_deposit_once row known state)
unfolding transfer_deposit_once
transfer_deposit_once-WellKept row (some existing) state kept = leaves WellKept _ kept
transfer_deposit_once-WellKept row none state kept =
    record_new_transfer_deposit-WellKept row _ state refl kept

pub record_transfer_deposit-WellKept :
    (row : TransferDepositRow) (state : ProjectionState)
    → WellKept state
    → Leaves WellKept (record_transfer_deposit row state)
unfolding record_transfer_deposit
record_transfer_deposit-WellKept row state kept = transfer_deposit_once-WellKept row _ state kept

add_withdrawal-WellKept :
    (row : CashWithdrawalRow) (balance : CashBalanceRow) (state : ProjectionState)
    → WellKept state
    → WellKept (record (upsert_cash_balance balance state) {
      cash_withdrawals = insert row.vault_signature row state.cash_withdrawals;
    })
unfolding IsKept upsert_cash_balance
add_withdrawal-WellKept row balance state kept withdrawal_ledger =
    insert-Kept (λ row. row.vault_signature) row.vault_signature row state.cash_withdrawals refl
      (kept withdrawal_ledger)
add_withdrawal-WellKept row balance state kept other =
    upsert_cash_balance-WellKept balance state kept other

withdraw_once-WellKept :
    (row : CashWithdrawalRow) (known : Option CashWithdrawalRow) (state : ProjectionState)
    → WellKept state
    → Leaves WellKept (withdraw_once row known state)
unfolding withdraw_once
withdraw_once-WellKept row (some existing) state kept = leaves WellKept _ kept
withdraw_once-WellKept row none state kept =
    or_return-Leaves WellKept _ state _ kept
      (λ balance. leaves WellKept _ (add_withdrawal-WellKept row balance state kept))

pub record_cash_withdrawal-WellKept :
    (row : CashWithdrawalRow) (state : ProjectionState)
    → WellKept state
    → Leaves WellKept (record_cash_withdrawal row state)
unfolding record_cash_withdrawal
record_cash_withdrawal-WellKept row state kept = withdraw_once-WellKept row _ state kept

module _ (clock : Clock) (id : ℕ) (claimer : Text) (amount : ℕ) (meta : EventMeta) where
  add_claim-WellKept :
      (balance : CashBalanceRow) (state : ProjectionState)
      → WellKept state
      → WellKept (record (upsert_cash_balance balance state) {
        payout_claims = insert id (payout_claim clock id claimer amount meta) state.payout_claims;
      })
  unfolding IsKept upsert_cash_balance
  add_claim-WellKept balance state kept claim_ledger =
      insert-Kept (λ row. row.ticket_id) id _ state.payout_claims refl (kept claim_ledger)
  add_claim-WellKept balance state kept other =
      upsert_cash_balance-WellKept balance state kept other

  claim_marked-WellKept :
      (row : TicketRow) (state : ProjectionState)
      → WellKept state
      → Leaves WellKept (claim_marked clock id claimer amount meta row state)
  unfolding claim_marked
  claim_marked-WellKept row state kept =
      or_return-Leaves WellKept _ state _ kept
        (λ balance. leaves WellKept _ (add_claim-WellKept balance state kept))

  claim_once-WellKept :
      (known : Option PayoutClaimRow) (state : ProjectionState)
      → WellKept state
      → Leaves WellKept (claim_once clock id claimer amount meta known state)
  unfolding claim_once claim_again
  claim_once-WellKept (some existing) state kept =
      or_return-Leaves WellKept _ state _ kept (λ row. leaves WellKept _ kept)
  claim_once-WellKept none state kept =
      or_return-Leaves WellKept (find_ticket id state) state _ kept (λ row.
        claim_marked-WellKept (claimed_row clock meta row)
          (set_ticket id (claimed_row clock meta row) state)
          (set_ticket-WellKept id (claimed_row clock meta row) state kept))

  pub claim_ticket_to_cash-WellKept :
      (state : ProjectionState)
      → WellKept state
      → Leaves WellKept (claim_ticket_to_cash clock id claimer amount meta state)
  unfolding claim_ticket_to_cash
  claim_ticket_to_cash-WellKept state kept = claim_once-WellKept _ state kept
