-- ===== src/Store/Ledger/Created/Deposits.antt =====
-- What mints, deposits, withdrawals and claims leave in the store.
use basingamarket.Base.{ℕ, true, ◌≡◌, Option, some, none, ◌+◌, ◌≤◌, arith, ok, err, or_return, leb}
use basingamarket.Store.Key.{Text, text_key, nat_key}
use basingamarket.Store.Map.{get, insert, contains_key}
use basingamarket.Store.Rows.Events.{
  Time, Clock, EventMeta, TicketRow, PayoutClaimRow, projected_at,
}
use basingamarket.Store.Rows.Error.{DbResult}
use basingamarket.Store.Rows.Cash.{
  CashBalanceRow, BusdcMintRow, CashDepositRow, SolDepositRow, TransferDepositRow,
  CashWithdrawalRow, SolDepositQuoteRow, TransferDepositQuoteRow, TicketClaimResult,
}
use basingamarket.Store.State.{ProjectionState}
use basingamarket.Store.Balances.{
  upsert_cash_balance, credited, debited, record_busdc_mint, record_cash_deposit, deposit_once,
  add_deposit, add_mint, busdc_mint_count_for_day, u32_or_max,
}
use basingamarket.Store.Deposits.{
  record_sol_deposit, record_new_sol_deposit, credit_sol_deposit, record_transfer_deposit,
  record_new_transfer_deposit, credit_transfer_deposit, sol_deposit_at, sol_deposit_once,
  transfer_deposit_at, transfer_deposit_once, use_sol_quote, use_transfer_quote,
}
use basingamarket.Store.Withdrawals.{withdraw_once, record_cash_withdrawal, withdrawn}
use basingamarket.Store.Tickets.{find_ticket, set_ticket}
use basingamarket.Store.Settlement.{
  claim_marked, claim_again, claim_once, claim_ticket_to_cash, claimed_row, payout_claim,
}
use basingamarket.Store.Ledger.Created.{
  held, held-credited, held-debited, or_return-held, guarded-held,
}

-- A credit adds its amount.
credit-held :
    (holder : Text) (amount : ℕ) (at : Time) (state : ProjectionState) (row : CashBalanceRow)
    → credited holder amount at state ≡ ok row
    → held (upsert_cash_balance row state) ≤ held state + amount
credit-held holder amount at state row h =
    ground (arith, held-credited holder amount at state row h)

more : (state : ProjectionState) (amount : ℕ) → held state ≤ held state + amount
more state amount = omega arith

pub record_busdc_mint-held :
    (row : BusdcMintRow) (daily_limit : ℕ) (state : ProjectionState)
    → held (record_busdc_mint row daily_limit state).0 ≤ held state + row.amount
unfolding record_busdc_mint held upsert_cash_balance
record_busdc_mint-held row daily_limit state =
    let used = busdc_mint_count_for_day row.wallet_address row.mint_day state in
    guarded-held (held state + row.amount) (contains_key row.mint_id state.busdc_mints) state _ _
      (more state row.amount)
      (λ fresh.
        guarded-held (held state + row.amount) (leb daily_limit used) state _ _
          (more state row.amount)
          (λ below.
            or_return-held (held state + row.amount) state
              (credited row.wallet_address row.amount row.created_at state)
              (λ balance. (add_mint row balance state, ok (balance, u32_or_max (used + 1))))
              (more state row.amount)
              (credit-held row.wallet_address row.amount row.created_at state)))

deposit_once-held :
    (row : CashDepositRow) (known : Option CashDepositRow) (state : ProjectionState)
    → held (deposit_once row known state).0 ≤ held state + row.amount
unfolding deposit_once held upsert_cash_balance
deposit_once-held row (some existing) state = more state row.amount
deposit_once-held row none state =
    or_return-held (held state + row.amount) state
      (credited row.wallet_address row.amount row.created_at state)
      (λ balance. (add_deposit row balance state, ok (balance, true))) (more state row.amount)
      (credit-held row.wallet_address row.amount row.created_at state)

pub record_cash_deposit-held :
    (row : CashDepositRow) (state : ProjectionState)
    → held (record_cash_deposit row state).0 ≤ held state + row.amount
unfolding record_cash_deposit
record_cash_deposit-held row state =
    deposit_once-held row (get row.signature state.cash_deposits) state

sol_deposit_at-held :
    (row : SolDepositRow) (quote : SolDepositQuoteRow) (used : Option Text)
    (state : ProjectionState)
    → held (sol_deposit_at row quote used state).0 ≤ held state + row.cash_amount
unfolding sol_deposit_at credit_sol_deposit held upsert_cash_balance
sol_deposit_at-held row quote (some signature) state = more state row.cash_amount
sol_deposit_at-held row quote none state =
    let spent = use_sol_quote row quote state in
    or_return-held (held state + row.cash_amount) spent
      (credited row.wallet_address row.cash_amount row.created_at spent)
      (λ balance. (
        record (upsert_cash_balance balance spent) {
          sol_deposits = insert row.signature row spent.sol_deposits;
        },
        ok (balance, true),
      ))
      (more state row.cash_amount)
      (credit-held row.wallet_address row.cash_amount row.created_at spent)

record_new_sol_deposit-held :
    (row : SolDepositRow) (found : Option SolDepositQuoteRow) (state : ProjectionState)
    → held (record_new_sol_deposit row found state).0 ≤ held state + row.cash_amount
unfolding record_new_sol_deposit
record_new_sol_deposit-held row none state = more state row.cash_amount
record_new_sol_deposit-held row (some quote) state =
    sol_deposit_at-held row quote quote.used_signature state

sol_deposit_once-held :
    (row : SolDepositRow) (known : Option SolDepositRow) (state : ProjectionState)
    → held (sol_deposit_once row known state).0 ≤ held state + row.cash_amount
unfolding sol_deposit_once
sol_deposit_once-held row (some existing) state = more state row.cash_amount
sol_deposit_once-held row none state =
    record_new_sol_deposit-held row (get row.quote_id state.sol_deposit_quotes) state

pub record_sol_deposit-held :
    (row : SolDepositRow) (state : ProjectionState)
    → held (record_sol_deposit row state).0 ≤ held state + row.cash_amount
unfolding record_sol_deposit
record_sol_deposit-held row state =
    sol_deposit_once-held row (get row.signature state.sol_deposits) state

transfer_deposit_at-held :
    (row : TransferDepositRow) (quote : TransferDepositQuoteRow) (used : Option Text)
    (state : ProjectionState)
    → held (transfer_deposit_at row quote used state).0 ≤ held state + row.cash_amount
unfolding transfer_deposit_at credit_transfer_deposit held upsert_cash_balance
transfer_deposit_at-held row quote (some signature) state = more state row.cash_amount
transfer_deposit_at-held row quote none state =
    let spent = use_transfer_quote row quote state in
    or_return-held (held state + row.cash_amount) spent
      (credited row.wallet_address row.cash_amount row.created_at spent)
      (λ balance. (
        record (upsert_cash_balance balance spent) {
          transfer_deposits = insert row.signature row spent.transfer_deposits;
        },
        ok (balance, true),
      ))
      (more state row.cash_amount)
      (credit-held row.wallet_address row.cash_amount row.created_at spent)

record_new_transfer_deposit-held :
    (row : TransferDepositRow) (found : Option TransferDepositQuoteRow) (state : ProjectionState)
    → held (record_new_transfer_deposit row found state).0 ≤ held state + row.cash_amount
unfolding record_new_transfer_deposit
record_new_transfer_deposit-held row none state = more state row.cash_amount
record_new_transfer_deposit-held row (some quote) state =
    transfer_deposit_at-held row quote quote.used_signature state

transfer_deposit_once-held :
    (row : TransferDepositRow) (known : Option TransferDepositRow) (state : ProjectionState)
    → held (transfer_deposit_once row known state).0 ≤ held state + row.cash_amount
unfolding transfer_deposit_once
transfer_deposit_once-held row (some existing) state = more state row.cash_amount
transfer_deposit_once-held row none state =
    record_new_transfer_deposit-held row (get row.quote_id state.transfer_deposit_quotes) state

pub record_transfer_deposit-held :
    (row : TransferDepositRow) (state : ProjectionState)
    → held (record_transfer_deposit row state).0 ≤ held state + row.cash_amount
unfolding record_transfer_deposit
record_transfer_deposit-held row state =
    transfer_deposit_once-held row (get row.signature state.transfer_deposits) state

withdrawn-held :
    (row : CashWithdrawalRow) (state : ProjectionState) (balance : CashBalanceRow)
    → withdrawn row state ≡ ok balance
    → held (upsert_cash_balance balance state) ≤ held state
unfolding withdrawn debited
withdrawn-held row state balance h =
    ground (
      arith,
      held-debited row.wallet_address row.amount row.created_at state balance (ground arith),
    )

withdraw_once-held :
    (row : CashWithdrawalRow) (known : Option CashWithdrawalRow) (state : ProjectionState)
    → held (withdraw_once row known state).0 ≤ held state
unfolding withdraw_once held upsert_cash_balance
withdraw_once-held row (some existing) state = omega arith
withdraw_once-held row none state =
    or_return-held (held state) state (withdrawn row state)
      (λ balance. (
        record (upsert_cash_balance balance state) {
          cash_withdrawals = insert row.vault_signature row state.cash_withdrawals;
        },
        ok (balance, true),
      ))
      (omega arith) (withdrawn-held row state)

pub record_cash_withdrawal-held :
    (row : CashWithdrawalRow) (state : ProjectionState)
    → held (record_cash_withdrawal row state).0 ≤ held state
unfolding record_cash_withdrawal
record_cash_withdrawal-held row state =
    withdraw_once-held row (get row.vault_signature state.cash_withdrawals) state

module _ (clock : Clock) (id : ℕ) (claimer : Text) (amount : ℕ) (meta : EventMeta) where
  claim_found-held :
      (found : DbResult TicketRow) (state : ProjectionState)
      → held
          (or_return found state (λ row.
            claim_marked clock id claimer amount meta
              (claimed_row clock meta row)
              (set_ticket id (claimed_row clock meta row) state))).0
        ≤ held state + amount
  unfolding claim_marked held upsert_cash_balance
  claim_found-held (err e) state = more state amount
  claim_found-held (ok row) state =
      let marked = set_ticket id (claimed_row clock meta row) state in
      or_return-held (held state + amount) marked
        (credited claimer amount (projected_at clock meta) marked)
        (λ balance. (
          record (upsert_cash_balance balance marked) {
            payout_claims =
                insert id (payout_claim clock id claimer amount meta) state.payout_claims;
          },
          ok (record {
            ticket = claimed_row clock meta row;
            cash_balance = balance;
            amount = amount;
            credited = true;
          }),
        ))
        (more state amount) (credit-held claimer amount (projected_at clock meta) marked)

  again-held :
      (found : DbResult TicketRow) (state : ProjectionState) (value : TicketRow → TicketClaimResult)
      → held (or_return found state (λ row. (state, ok (value row)))).0 ≤ held state + amount
  again-held (err e) state value = more state amount
  again-held (ok row) state value = more state amount

  claim_once-held :
      (known : Option PayoutClaimRow) (state : ProjectionState)
      → held (claim_once clock id claimer amount meta known state).0 ≤ held state + amount
  unfolding claim_once claim_again
  claim_once-held (some existing) state = again-held (find_ticket id state) state _
  claim_once-held none state = claim_found-held (find_ticket id state) state

  pub claim_ticket_to_cash-held :
      (state : ProjectionState)
      → held (claim_ticket_to_cash clock id claimer amount meta state).0 ≤ held state + amount
  unfolding claim_ticket_to_cash
  claim_ticket_to_cash-held state = claim_once-held (get id state.payout_claims) state
