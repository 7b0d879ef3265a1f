-- ===== src/Store/Ledger/Once/Deposits.antt =====
-- Deposits and withdrawals are recorded once.
use basingamarket.Base.{Bool, true, false, ◌≡◌, refl, Option, some, none, ok}
use basingamarket.Store.Key.{Text, text_key, nat_key}
use basingamarket.Store.Map.{get, insert}
use basingamarket.Store.Map.Laws.{get-insert}
use basingamarket.Store.Rows.Cash.{
  CashBalanceRow, CashDepositRow, SolDepositRow, TransferDepositRow, CashWithdrawalRow,
  SolDepositQuoteRow, TransferDepositQuoteRow,
}
use basingamarket.Store.State.{ProjectionState}
use basingamarket.Store.Balances.{
  credited, upsert_cash_balance, add_deposit, deposit_once, record_cash_deposit,
}
use basingamarket.Store.Deposits.{
  record_sol_deposit, record_new_sol_deposit, credit_sol_deposit, record_transfer_deposit,
  record_new_transfer_deposit, credit_transfer_deposit, sol_deposit_at, sol_deposit_once,
  transfer_deposit_at, transfer_deposit_once, use_sol_quote, use_transfer_quote,
}
use basingamarket.Store.Withdrawals.{withdraw_once, record_cash_withdrawal, withdrawn}
use basingamarket.Store.Ledger.Holdings.{or_return-lands}
use basingamarket.Store.Ledger.Once.{Known}

deposit_once-Known :
    (row : CashDepositRow) (found : Option CashDepositRow) (state after : ProjectionState)
    (reply : CashBalanceRow × Bool)
    → get row.signature state.cash_deposits ≡ found
    → deposit_once row found state ≡ (after, ok reply)
    → Known (get row.signature after.cash_deposits)
unfolding deposit_once
deposit_once-Known row (some existing) state after reply at run = (existing, cc)
deposit_once-Known row none state after reply at run =
    or_return-lands (λ left. Known (get row.signature left.cash_deposits)) state
      (credited row.wallet_address row.amount row.created_at state)
      (λ balance. add_deposit row balance state) (λ balance. (balance, true))
      (λ balance h. (row, get-insert row.signature row state.cash_deposits)) run

deposit_once_again :
    (row : CashDepositRow) (state : ProjectionState) (found : Option CashDepositRow)
    → Known found
    → (balance : CashBalanceRow) × (deposit_once row found state ≡ (state, ok (balance, false)))
unfolding deposit_once
deposit_once_again row state none (existing, h) = cc
deposit_once_again row state (some existing) known = (_, refl)

pub record_cash_deposit_again :
    (row : CashDepositRow) (state after : ProjectionState) (reply : CashBalanceRow × Bool)
    → record_cash_deposit row state ≡ (after, ok reply)
    → (balance : CashBalanceRow) × (record_cash_deposit row after ≡ (after, ok (balance, false)))
unfolding record_cash_deposit
record_cash_deposit_again row state after reply run =
    deposit_once_again row after (get row.signature after.cash_deposits)
      (deposit_once-Known row (get row.signature state.cash_deposits) state after reply refl run)

withdraw_once-Known :
    (row : CashWithdrawalRow) (found : Option CashWithdrawalRow) (state after : ProjectionState)
    (reply : CashBalanceRow × Bool)
    → get row.vault_signature state.cash_withdrawals ≡ found
    → withdraw_once row found state ≡ (after, ok reply)
    → Known (get row.vault_signature after.cash_withdrawals)
unfolding withdraw_once upsert_cash_balance
withdraw_once-Known row (some existing) state after reply at run = (existing, cc)
withdraw_once-Known row none state after reply at run =
    or_return-lands (λ left. Known (get row.vault_signature left.cash_withdrawals)) state
      (withdrawn row state)
      (λ balance. record (upsert_cash_balance balance state) {
        cash_withdrawals = insert row.vault_signature row state.cash_withdrawals;
      })
      (λ balance. (balance, true))
      (λ balance h. (row, get-insert row.vault_signature row state.cash_withdrawals)) run

withdraw_once_again :
    (row : CashWithdrawalRow) (state : ProjectionState) (found : Option CashWithdrawalRow)
    → Known found
    → (balance : CashBalanceRow) × (withdraw_once row found state ≡ (state, ok (balance, false)))
unfolding withdraw_once
withdraw_once_again row state none (existing, h) = cc
withdraw_once_again row state (some existing) known = (_, refl)

pub record_cash_withdrawal_again :
    (row : CashWithdrawalRow) (state after : ProjectionState) (reply : CashBalanceRow × Bool)
    → record_cash_withdrawal row state ≡ (after, ok reply)
    → (balance : CashBalanceRow) × (record_cash_withdrawal row after ≡ (after, ok (balance, false)))
unfolding record_cash_withdrawal
record_cash_withdrawal_again row state after reply run =
    withdraw_once_again row after (get row.vault_signature after.cash_withdrawals) (
      withdraw_once-Known row (get row.vault_signature state.cash_withdrawals) state after reply
        refl run)

sol_deposit_at-Known :
    (row : SolDepositRow) (quote : SolDepositQuoteRow) (used : Option Text)
    (state after : ProjectionState) (reply : CashBalanceRow × Bool)
    → sol_deposit_at row quote used state ≡ (after, ok reply)
    → Known (get row.signature after.sol_deposits)
unfolding sol_deposit_at credit_sol_deposit upsert_cash_balance
sol_deposit_at-Known row quote (some signature) state after reply run = cc
sol_deposit_at-Known row quote none state after reply run =
    let spent = use_sol_quote row quote state in
    or_return-lands (λ left. Known (get row.signature left.sol_deposits)) spent
      (credited row.wallet_address row.cash_amount row.created_at spent)
      (λ balance. record (upsert_cash_balance balance spent) {
        sol_deposits = insert row.signature row spent.sol_deposits;
      })
      (λ balance. (balance, true))
      (λ balance h. (row, get-insert row.signature row spent.sol_deposits)) run

record_new_sol_deposit-Known :
    (row : SolDepositRow) (found : Option SolDepositQuoteRow) (state after : ProjectionState)
    (reply : CashBalanceRow × Bool)
    → record_new_sol_deposit row found state ≡ (after, ok reply)
    → Known (get row.signature after.sol_deposits)
unfolding record_new_sol_deposit
record_new_sol_deposit-Known row none state after reply run = cc
record_new_sol_deposit-Known row (some quote) state after reply run =
    sol_deposit_at-Known row quote quote.used_signature state after reply run

sol_deposit_once-Known :
    (row : SolDepositRow) (found : Option SolDepositRow) (state after : ProjectionState)
    (reply : CashBalanceRow × Bool)
    → get row.signature state.sol_deposits ≡ found
    → sol_deposit_once row found state ≡ (after, ok reply)
    → Known (get row.signature after.sol_deposits)
unfolding sol_deposit_once
sol_deposit_once-Known row (some existing) state after reply at run = (existing, cc)
sol_deposit_once-Known row none state after reply at run =
    record_new_sol_deposit-Known row (get row.quote_id state.sol_deposit_quotes) state after reply
      run

sol_deposit_once_again :
    (row : SolDepositRow) (state : ProjectionState) (found : Option SolDepositRow)
    → Known found
    → (balance : CashBalanceRow) × (sol_deposit_once row found state ≡ (state, ok (balance, false)))
unfolding sol_deposit_once
sol_deposit_once_again row state none (existing, h) = cc
sol_deposit_once_again row state (some existing) known = (_, refl)

pub record_sol_deposit_again :
    (row : SolDepositRow) (state after : ProjectionState) (reply : CashBalanceRow × Bool)
    → record_sol_deposit row state ≡ (after, ok reply)
    → (balance : CashBalanceRow) × (record_sol_deposit row after ≡ (after, ok (balance, false)))
unfolding record_sol_deposit
record_sol_deposit_again row state after reply run =
    sol_deposit_once_again row after (get row.signature after.sol_deposits)
      (sol_deposit_once-Known row (get row.signature state.sol_deposits) state after reply refl run)

transfer_deposit_at-Known :
    (row : TransferDepositRow) (quote : TransferDepositQuoteRow) (used : Option Text)
    (state after : ProjectionState) (reply : CashBalanceRow × Bool)
    → transfer_deposit_at row quote used state ≡ (after, ok reply)
    → Known (get row.signature after.transfer_deposits)
unfolding transfer_deposit_at credit_transfer_deposit upsert_cash_balance
transfer_deposit_at-Known row quote (some signature) state after reply run = cc
transfer_deposit_at-Known row quote none state after reply run =
    let spent = use_transfer_quote row quote state in
    or_return-lands (λ left. Known (get row.signature left.transfer_deposits)) spent
      (credited row.wallet_address row.cash_amount row.created_at spent)
      (λ balance. record (upsert_cash_balance balance spent) {
        transfer_deposits = insert row.signature row spent.transfer_deposits;
      })
      (λ balance. (balance, true))
      (λ balance h. (row, get-insert row.signature row spent.transfer_deposits)) run

record_new_transfer_deposit-Known :
    (row : TransferDepositRow) (found : Option TransferDepositQuoteRow)
    (state after : ProjectionState) (reply : CashBalanceRow × Bool)
    → record_new_transfer_deposit row found state ≡ (after, ok reply)
    → Known (get row.signature after.transfer_deposits)
unfolding record_new_transfer_deposit
record_new_transfer_deposit-Known row none state after reply run = cc
record_new_transfer_deposit-Known row (some quote) state after reply run =
    transfer_deposit_at-Known row quote quote.used_signature state after reply run

transfer_deposit_once-Known :
    (row : TransferDepositRow) (found : Option TransferDepositRow) (state after : ProjectionState)
    (reply : CashBalanceRow × Bool)
    → get row.signature state.transfer_deposits ≡ found
    → transfer_deposit_once row found state ≡ (after, ok reply)
    → Known (get row.signature after.transfer_deposits)
unfolding transfer_deposit_once
transfer_deposit_once-Known row (some existing) state after reply at run = (existing, cc)
transfer_deposit_once-Known row none state after reply at run =
    record_new_transfer_deposit-Known row (get row.quote_id state.transfer_deposit_quotes) state
      after reply run

transfer_deposit_once_again :
    (row : TransferDepositRow) (state : ProjectionState) (found : Option TransferDepositRow)
    → Known found
    → (balance : CashBalanceRow) × (transfer_deposit_once row found state
        ≡ (state, ok (balance, false)))
unfolding transfer_deposit_once
transfer_deposit_once_again row state none (existing, h) = cc
transfer_deposit_once_again row state (some existing) known = (_, refl)

pub record_transfer_deposit_again :
    (row : TransferDepositRow) (state after : ProjectionState) (reply : CashBalanceRow × Bool)
    → record_transfer_deposit row state ≡ (after, ok reply)
    → (balance : CashBalanceRow) × (record_transfer_deposit row after
        ≡ (after, ok (balance, false)))
unfolding record_transfer_deposit
record_transfer_deposit_again row state after reply run =
    transfer_deposit_once_again row after (get row.signature after.transfer_deposits) (
      transfer_deposit_once-Known row (get row.signature state.transfer_deposits) state after reply
        refl run)
