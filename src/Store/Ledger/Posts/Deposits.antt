-- ===== src/Store/Ledger/Posts/Deposits.antt =====
-- The entries of mints, deposits and withdrawals.
use basingamarket.Base.{ℕ, Bool, true, ◌≡◌, Option, some, none, ◌+◌, arith, ok, leb}
use basingamarket.Store.Key.{Text, text_key}
use basingamarket.Store.Map.{get, insert, contains_key}
use basingamarket.Store.Rows.Cash.{
  CashBalanceRow, BusdcMintRow, CashDepositRow, SolDepositRow, TransferDepositRow,
  CashWithdrawalRow, SolDepositQuoteRow, TransferDepositQuoteRow,
}
use basingamarket.Store.State.{ProjectionState}
use basingamarket.Store.Balances.{
  upsert_cash_balance, credited, record_busdc_mint, record_cash_deposit, deposit_once, add_deposit,
  add_mint, debited, busdc_mint_count_for_day, u32_or_max,
}
use basingamarket.Store.Deposits.{
  record_sol_deposit, record_new_sol_deposit, credit_sol_deposit, record_transfer_deposit,
  sol_deposit_at, sol_deposit_once, transfer_deposit_at, transfer_deposit_once, use_sol_quote,
  use_transfer_quote, record_new_transfer_deposit, credit_transfer_deposit,
}
use basingamarket.Store.Withdrawals.{record_cash_withdrawal, withdrawn, withdraw_once}
use basingamarket.Store.Ledger.{credit, debit, holdings, Posts, unless_known}
use basingamarket.Store.Ledger.Holdings.{
  credit-Posts, debit-Posts, or_return-Posts, unchanged-Posts, past_error,
}

deposit_once-Posts :
    (row : CashDepositRow) (known : Option CashDepositRow) (state after : ProjectionState)
    (done : CashBalanceRow × Bool)
    → deposit_once row known state ≡ (after, ok done)
    → Posts (unless_known known (credit row.wallet_address row.amount)) state after
unfolding deposit_once Posts holdings upsert_cash_balance
deposit_once-Posts row (some existing) state after done run = unchanged-Posts run
deposit_once-Posts row none state after done run =
    or_return-Posts (credit row.wallet_address row.amount) state state
      (credited row.wallet_address row.amount row.created_at state)
      (λ balance. add_deposit row balance state) (λ balance. (balance, true))
      (credit-Posts row.wallet_address row.amount row.created_at state) run

-- A deposit is credited once for each signature.
pub record_cash_deposit-Posts :
    (row : CashDepositRow) (state after : ProjectionState) (done : CashBalanceRow × Bool)
    → record_cash_deposit row state ≡ (after, ok done)
    → Posts
        (unless_known
          (get row.signature state.cash_deposits)
          (credit row.wallet_address row.amount))
        state
        after
unfolding record_cash_deposit
record_cash_deposit-Posts row state after done run =
    deposit_once-Posts row (get row.signature state.cash_deposits) state after done run

pub record_busdc_mint-Posts :
    (row : BusdcMintRow) (daily_limit : ℕ) (state after : ProjectionState)
    (done : CashBalanceRow × ℕ)
    → record_busdc_mint row daily_limit state ≡ (after, ok done)
    → Posts (credit row.wallet_address row.amount) state after
unfolding record_busdc_mint Posts holdings upsert_cash_balance
record_busdc_mint-Posts row daily_limit state after done run =
    let used = busdc_mint_count_for_day row.wallet_address row.mint_day state in
    or_return-Posts (credit row.wallet_address row.amount) state state
      (credited row.wallet_address row.amount row.created_at state)
      (λ balance. add_mint row balance state) (λ balance. (balance, u32_or_max (used + 1)))
      (credit-Posts row.wallet_address row.amount row.created_at state)
      (past_error (leb daily_limit used) _ _
        (past_error (contains_key row.mint_id state.busdc_mints) _ _ run).1).1

sol_deposit_at-Posts :
    (row : SolDepositRow) (quote : SolDepositQuoteRow) (used : Option Text)
    (state after : ProjectionState) (done : CashBalanceRow × Bool)
    → sol_deposit_at row quote used state ≡ (after, ok done)
    → Posts (credit row.wallet_address row.cash_amount) state after
unfolding sol_deposit_at credit_sol_deposit Posts holdings upsert_cash_balance
sol_deposit_at-Posts row quote (some signature) state after done run = cc
sol_deposit_at-Posts row quote none state after done run =
    let spent = use_sol_quote row quote state in
    or_return-Posts (credit row.wallet_address row.cash_amount) state spent
      (credited row.wallet_address row.cash_amount row.created_at spent)
      (λ balance. record (upsert_cash_balance balance spent) {
        sol_deposits = insert row.signature row spent.sol_deposits;
      })
      (λ balance. (balance, true))
      (credit-Posts row.wallet_address row.cash_amount row.created_at spent) run

record_new_sol_deposit-Posts :
    (row : SolDepositRow) (found : Option SolDepositQuoteRow) (state after : ProjectionState)
    (done : CashBalanceRow × Bool)
    → record_new_sol_deposit row found state ≡ (after, ok done)
    → Posts (credit row.wallet_address row.cash_amount) state after
unfolding record_new_sol_deposit
record_new_sol_deposit-Posts row none state after done run = cc
record_new_sol_deposit-Posts row (some quote) state after done run =
    sol_deposit_at-Posts row quote quote.used_signature state after done run

sol_deposit_once-Posts :
    (row : SolDepositRow) (known : Option SolDepositRow) (state after : ProjectionState)
    (done : CashBalanceRow × Bool)
    → sol_deposit_once row known state ≡ (after, ok done)
    → Posts (unless_known known (credit row.wallet_address row.cash_amount)) state after
unfolding sol_deposit_once
sol_deposit_once-Posts row (some existing) state after done run = unchanged-Posts run
sol_deposit_once-Posts row none state after done run =
    record_new_sol_deposit-Posts row (get row.quote_id state.sol_deposit_quotes) state after done
      run

pub record_sol_deposit-Posts :
    (row : SolDepositRow) (state after : ProjectionState) (done : CashBalanceRow × Bool)
    → record_sol_deposit row state ≡ (after, ok done)
    → Posts
        (unless_known
          (get row.signature state.sol_deposits)
          (credit row.wallet_address row.cash_amount))
        state
        after
unfolding record_sol_deposit
record_sol_deposit-Posts row state after done run =
    sol_deposit_once-Posts row (get row.signature state.sol_deposits) state after done run

transfer_deposit_at-Posts :
    (row : TransferDepositRow) (quote : TransferDepositQuoteRow) (used : Option Text)
    (state after : ProjectionState) (done : CashBalanceRow × Bool)
    → transfer_deposit_at row quote used state ≡ (after, ok done)
    → Posts (credit row.wallet_address row.cash_amount) state after
unfolding transfer_deposit_at credit_transfer_deposit Posts holdings upsert_cash_balance
transfer_deposit_at-Posts row quote (some signature) state after done run = cc
transfer_deposit_at-Posts row quote none state after done run =
    let spent = use_transfer_quote row quote state in
    or_return-Posts (credit row.wallet_address row.cash_amount) state spent
      (credited row.wallet_address row.cash_amount row.created_at spent)
      (λ balance. record (upsert_cash_balance balance spent) {
        transfer_deposits = insert row.signature row spent.transfer_deposits;
      })
      (λ balance. (balance, true))
      (credit-Posts row.wallet_address row.cash_amount row.created_at spent) run

record_new_transfer_deposit-Posts :
    (row : TransferDepositRow) (found : Option TransferDepositQuoteRow)
    (state after : ProjectionState) (done : CashBalanceRow × Bool)
    → record_new_transfer_deposit row found state ≡ (after, ok done)
    → Posts (credit row.wallet_address row.cash_amount) state after
unfolding record_new_transfer_deposit
record_new_transfer_deposit-Posts row none state after done run = cc
record_new_transfer_deposit-Posts row (some quote) state after done run =
    transfer_deposit_at-Posts row quote quote.used_signature state after done run

transfer_deposit_once-Posts :
    (row : TransferDepositRow) (known : Option TransferDepositRow) (state after : ProjectionState)
    (done : CashBalanceRow × Bool)
    → transfer_deposit_once row known state ≡ (after, ok done)
    → Posts (unless_known known (credit row.wallet_address row.cash_amount)) state after
unfolding transfer_deposit_once
transfer_deposit_once-Posts row (some existing) state after done run = unchanged-Posts run
transfer_deposit_once-Posts row none state after done run =
    record_new_transfer_deposit-Posts row (get row.quote_id state.transfer_deposit_quotes) state
      after done run

pub record_transfer_deposit-Posts :
    (row : TransferDepositRow) (state after : ProjectionState) (done : CashBalanceRow × Bool)
    → record_transfer_deposit row state ≡ (after, ok done)
    → Posts
        (unless_known
          (get row.signature state.transfer_deposits)
          (credit row.wallet_address row.cash_amount))
        state
        after
unfolding record_transfer_deposit
record_transfer_deposit-Posts row state after done run =
    transfer_deposit_once-Posts row (get row.signature state.transfer_deposits) state after done run

-- The withdrawal debits like every debit, with a message of its own.
withdrawn-Posts :
    (row : CashWithdrawalRow) (state : ProjectionState) (balance : CashBalanceRow)
    → withdrawn row state ≡ ok balance
    → Posts (debit row.wallet_address row.amount) state (upsert_cash_balance balance state)
unfolding withdrawn debited
withdrawn-Posts row state balance h =
    debit-Posts row.wallet_address row.amount row.created_at state balance (ground arith)

withdraw_once-Posts :
    (row : CashWithdrawalRow) (known : Option CashWithdrawalRow) (state after : ProjectionState)
    (done : CashBalanceRow × Bool)
    → withdraw_once row known state ≡ (after, ok done)
    → Posts (unless_known known (debit row.wallet_address row.amount)) state after
unfolding withdraw_once withdrawn Posts holdings upsert_cash_balance
withdraw_once-Posts row (some existing) state after done run = unchanged-Posts run
withdraw_once-Posts row none state after done run =
    or_return-Posts (debit row.wallet_address row.amount) state state (withdrawn row state)
      (λ balance. record (upsert_cash_balance balance state) {
        cash_withdrawals = insert row.vault_signature row state.cash_withdrawals;
      })
      (λ balance. (balance, true)) (withdrawn-Posts row state) run

pub record_cash_withdrawal-Posts :
    (row : CashWithdrawalRow) (state after : ProjectionState) (done : CashBalanceRow × Bool)
    → record_cash_withdrawal row state ≡ (after, ok done)
    → Posts
        (unless_known
          (get row.vault_signature state.cash_withdrawals)
          (debit row.wallet_address row.amount))
        state
        after
unfolding record_cash_withdrawal
record_cash_withdrawal-Posts row state after done run =
    withdraw_once-Posts row (get row.vault_signature state.cash_withdrawals) state after done run
