-- ===== src/Store/Deposits.antt =====
-- Deposits of SOL and of other assets at a quoted price (crates/db/src/memory.rs): a quote is used by
-- one signature, and a signature is recorded once.
use basingamarket.Base.{Bool, true, false, Option, some, none, ok, err, or_return}
use basingamarket.Store.Key.{Text, text_key}
use basingamarket.Store.Map.{get, insert}
use basingamarket.Store.Rows.Cash.{
  CashBalanceRow, SolDepositQuoteRow, SolDepositRow, TransferDepositQuoteRow, TransferDepositRow,
}
use basingamarket.Store.Rows.Error.{
  projection, sol_deposit_quote_not_found, sol_deposit_quote_already_used,
  transfer_deposit_quote_not_found, transfer_deposit_quote_already_used,
}
use basingamarket.Store.State.{ProjectionState, Outcome}
use basingamarket.Store.Balances.{balance_or_zero, credited, upsert_cash_balance}

unfoldable pub insert_sol_deposit_quote : SolDepositQuoteRow → ProjectionState → ProjectionState
insert_sol_deposit_quote row state = record state {
  sol_deposit_quotes = insert row.quote_id row state.sol_deposit_quotes;
}

unfoldable pub get_sol_deposit_quote : Text → ProjectionState → Option SolDepositQuoteRow
get_sol_deposit_quote quote_id state = get quote_id state.sol_deposit_quotes

unfoldable pub get_sol_deposit : Text → ProjectionState → Option SolDepositRow
get_sol_deposit signature state = get signature state.sol_deposits

-- The quote is spent before the balance is credited, and stays spent if that fails.
abbrev pub use_sol_quote : SolDepositRow → SolDepositQuoteRow → ProjectionState → ProjectionState
use_sol_quote row quote state = record state {
  sol_deposit_quotes =
      insert row.quote_id (record quote { used_signature = some row.signature })
        state.sol_deposit_quotes;
}

unfoldable pub credit_sol_deposit :
    SolDepositRow → ProjectionState → Outcome (CashBalanceRow × Bool)
credit_sol_deposit row state =
    or_return (credited row.wallet_address row.cash_amount row.created_at state) state (λ balance. (
      record (upsert_cash_balance balance state) {
        sol_deposits = insert row.signature row state.sol_deposits;
      },
      ok (balance, true),
    ))

-- The quote must be there and unused.
unfoldable pub sol_deposit_at :
    SolDepositRow
    → SolDepositQuoteRow
    → Option Text
    → ProjectionState
    → Outcome (CashBalanceRow × Bool)
sol_deposit_at row quote (some signature) state =
    (state, err (projection sol_deposit_quote_already_used))
sol_deposit_at row quote none state = credit_sol_deposit row (use_sol_quote row quote state)

unfoldable pub record_new_sol_deposit :
    SolDepositRow → Option SolDepositQuoteRow → ProjectionState → Outcome (CashBalanceRow × Bool)
record_new_sol_deposit row none state = (state, err (projection sol_deposit_quote_not_found))
record_new_sol_deposit row (some quote) state = sol_deposit_at row quote quote.used_signature state

unfoldable pub sol_deposit_once :
    SolDepositRow → Option SolDepositRow → ProjectionState → Outcome (CashBalanceRow × Bool)
sol_deposit_once row (some existing) state =
    (state, ok (balance_or_zero existing.wallet_address existing.created_at state, false))
sol_deposit_once row none state =
    record_new_sol_deposit row (get row.quote_id state.sol_deposit_quotes) state

unfoldable pub record_sol_deposit :
    SolDepositRow → ProjectionState → Outcome (CashBalanceRow × Bool)
record_sol_deposit row state = sol_deposit_once row (get row.signature state.sol_deposits) state

unfoldable pub insert_transfer_deposit_quote :
    TransferDepositQuoteRow → ProjectionState → ProjectionState
insert_transfer_deposit_quote row state = record state {
  transfer_deposit_quotes = insert row.quote_id row state.transfer_deposit_quotes;
}

unfoldable pub get_transfer_deposit_quote : Text → ProjectionState → Option TransferDepositQuoteRow
get_transfer_deposit_quote quote_id state = get quote_id state.transfer_deposit_quotes

unfoldable pub get_transfer_deposit : Text → ProjectionState → Option TransferDepositRow
get_transfer_deposit signature state = get signature state.transfer_deposits

abbrev pub use_transfer_quote :
    TransferDepositRow → TransferDepositQuoteRow → ProjectionState → ProjectionState
use_transfer_quote row quote state = record state {
  transfer_deposit_quotes =
      insert row.quote_id (record quote { used_signature = some row.signature })
        state.transfer_deposit_quotes;
}

unfoldable pub credit_transfer_deposit :
    TransferDepositRow → ProjectionState → Outcome (CashBalanceRow × Bool)
credit_transfer_deposit row state =
    or_return (credited row.wallet_address row.cash_amount row.created_at state) state (λ balance. (
      record (upsert_cash_balance balance state) {
        transfer_deposits = insert row.signature row state.transfer_deposits;
      },
      ok (balance, true),
    ))

-- The quote must be there and unused.
unfoldable pub transfer_deposit_at :
    TransferDepositRow
    → TransferDepositQuoteRow
    → Option Text
    → ProjectionState
    → Outcome (CashBalanceRow × Bool)
transfer_deposit_at row quote (some signature) state =
    (state, err (projection transfer_deposit_quote_already_used))
transfer_deposit_at row quote none state =
    credit_transfer_deposit row (use_transfer_quote row quote state)

unfoldable pub record_new_transfer_deposit :
    TransferDepositRow
    → Option TransferDepositQuoteRow
    → ProjectionState
    → Outcome (CashBalanceRow × Bool)
record_new_transfer_deposit row none state =
    (state, err (projection transfer_deposit_quote_not_found))
record_new_transfer_deposit row (some quote) state =
    transfer_deposit_at row quote quote.used_signature state

unfoldable pub transfer_deposit_once :
    TransferDepositRow
    → Option TransferDepositRow
    → ProjectionState
    → Outcome (CashBalanceRow × Bool)
transfer_deposit_once row (some existing) state =
    (state, ok (balance_or_zero existing.wallet_address existing.created_at state, false))
transfer_deposit_once row none state =
    record_new_transfer_deposit row (get row.quote_id state.transfer_deposit_quotes) state

unfoldable pub record_transfer_deposit :
    TransferDepositRow → ProjectionState → Outcome (CashBalanceRow × Bool)
record_transfer_deposit row state =
    transfer_deposit_once row (get row.signature state.transfer_deposits) state
