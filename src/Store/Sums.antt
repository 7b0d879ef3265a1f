-- ===== src/Store/Sums.antt =====
-- The total of all balances is exact, and fails only where it does not fit.
use basingamarket.Base.{ℕ, [], ◌∷◌, ok, err, ◌≡◌, ◌+◌, ◌≤◌, arith, leb, if◌then◌else◌}
use basingamarket.Base.Words.{u128_max}
use basingamarket.Store.Key.{Text}
use basingamarket.Store.Map.{BTreeMap, values, total}
use basingamarket.Store.Rows.Error.{projection, cash_balance_overflow}
use basingamarket.Store.Rows.Cash.{CashBalanceRow}
use basingamarket.Store.State.{ProjectionState}
use basingamarket.Store.Balances.{sum_cash, total_cash_balance}
use basingamarket.Store.Ledger.Created.{cash_amount_of}

sum_cash-total :
    (start : ℕ) (balances : BTreeMap Text CashBalanceRow)
    → start ≤ u128_max
    → sum_cash start (values balances) ≡ (
        if leb (start + total cash_amount_of balances) u128_max
        then ok (start + total cash_amount_of balances)
        else err (projection cash_balance_overflow))
unfolding sum_cash values total
sum_cash-total start [] fits = ground arith
sum_cash-total start ((wallet, row) ∷ balances) fits =
    ground (arith, sum_cash-total (start + row.cash_balance) balances)

-- The total that is reported is the exact sum of all balances where that fits a u128, and the overflow
-- is reported where it does not.
pub total_cash_balance-total :
    (state : ProjectionState)
    → total_cash_balance state ≡ (
        if leb (total cash_amount_of state.cash_balances) u128_max
        then ok (total cash_amount_of state.cash_balances)
        else err (projection cash_balance_overflow))
unfolding total_cash_balance
total_cash_balance-total state = ground (arith, sum_cash-total 0 state.cash_balances (omega arith))
