-- ===== src/Store/Withdrawals.antt =====
-- Withdrawals (crates/db/src/withdrawals.rs): a quote is reserved by the signature of its user, and the
-- vault's signature debits the balance once.
use basingamarket.Base.{
  Bool, true, false, List, [], ◌∷◌, Option, some, none, ok, err, or_return, ok_or, bytes_eq,
  if◌then◌else◌, ◌>>=◌,
}
use basingamarket.Base.Int.{ltb_ℤ}
use basingamarket.Base.Words.{u128_checked_sub}
use basingamarket.Store.Key.{Text, text_key}
use basingamarket.Store.Map.{get, insert, values}
use basingamarket.Store.Rows.Cash.{CashBalanceRow, CashWithdrawalQuoteRow, CashWithdrawalRow}
use basingamarket.Store.Rows.Error.{
  projection, DbResult, cash_balance_underflow, cash_withdrawal_quote_not_found,
  cash_withdrawal_quote_already_used,
}
use basingamarket.Store.State.{ProjectionState, Outcome}
use basingamarket.Store.Balances.{balance_or_zero, balance_row, cash_of, upsert_cash_balance}

unfoldable pub insert_cash_withdrawal_quote :
    CashWithdrawalQuoteRow → ProjectionState → ProjectionState
insert_cash_withdrawal_quote row state = record state {
  cash_withdrawal_quotes = insert row.quote_id row state.cash_withdrawal_quotes;
}

unfoldable pub get_cash_withdrawal_quote : Text → ProjectionState → Option CashWithdrawalQuoteRow
get_cash_withdrawal_quote quote_id state = get quote_id state.cash_withdrawal_quotes

unfoldable pub withdrawal_of_quote : Text → List CashWithdrawalRow → Option CashWithdrawalRow
withdrawal_of_quote quote_id [] = none
withdrawal_of_quote quote_id (row ∷ rows) =
    let rest = withdrawal_of_quote quote_id rows in
    if bytes_eq row.quote_id quote_id then some row else rest

unfoldable pub get_cash_withdrawal_by_quote : Text → ProjectionState → Option CashWithdrawalRow
get_cash_withdrawal_by_quote quote_id state =
    withdrawal_of_quote quote_id (values state.cash_withdrawals)

-- `max_by_key`, which keeps the last of the largest.
abbrev pub later : Option CashWithdrawalRow → CashWithdrawalRow → CashWithdrawalRow
later none row = row
later (some best) row = if ltb_ℤ row.created_at best.created_at then best else row

unfoldable pub latest_from :
    Text → Option CashWithdrawalRow → List CashWithdrawalRow → Option CashWithdrawalRow
latest_from wallet best [] = best
latest_from wallet best (row ∷ rows) =
    latest_from wallet (if bytes_eq row.wallet_address wallet then some (later best row) else best)
      rows

unfoldable pub latest_cash_withdrawal : Text → ProjectionState → Option CashWithdrawalRow
latest_cash_withdrawal wallet state = latest_from wallet none (values state.cash_withdrawals)

unfoldable pub reserve_used :
    Text → Text → CashWithdrawalQuoteRow → Option Text → ProjectionState → Outcome Bool
reserve_used quote_id signature quote (some existing) state =
    if bytes_eq existing signature
    then (state, ok false)
    else (state, err (projection cash_withdrawal_quote_already_used))
reserve_used quote_id signature quote none state = (
  record state {
    cash_withdrawal_quotes =
        insert quote_id (record quote { used_user_signature = some signature })
          state.cash_withdrawal_quotes;
  },
  ok true,
)

unfoldable pub reserve_quote :
    Text → Text → Option CashWithdrawalQuoteRow → ProjectionState → Outcome Bool
reserve_quote quote_id signature none state =
    (state, err (projection cash_withdrawal_quote_not_found))
reserve_quote quote_id signature (some quote) state =
    reserve_used quote_id signature quote quote.used_user_signature state

unfoldable pub reserve_cash_withdrawal_quote : Text → Text → ProjectionState → Outcome Bool
reserve_cash_withdrawal_quote quote_id signature state =
    reserve_quote quote_id signature (get quote_id state.cash_withdrawal_quotes) state

unfoldable pub withdrawn : CashWithdrawalRow → ProjectionState → DbResult CashBalanceRow
withdrawn row state = do
  next ←
      ok_or (u128_checked_sub (cash_of row.wallet_address state) row.amount)
        (projection cash_balance_underflow)
  ok (balance_row row.wallet_address next row.created_at)

unfoldable pub withdraw_once :
    CashWithdrawalRow → Option CashWithdrawalRow → ProjectionState → Outcome (CashBalanceRow × Bool)
withdraw_once row (some existing) state =
    (state, ok (balance_or_zero existing.wallet_address existing.created_at state, false))
withdraw_once row none state = or_return (withdrawn row state) state (λ balance. (
  record (upsert_cash_balance balance state) {
    cash_withdrawals = insert row.vault_signature row state.cash_withdrawals;
  },
  ok (balance, true),
))

unfoldable pub record_cash_withdrawal :
    CashWithdrawalRow → ProjectionState → Outcome (CashBalanceRow × Bool)
record_cash_withdrawal row state =
    withdraw_once row (get row.vault_signature state.cash_withdrawals) state
