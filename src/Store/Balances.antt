-- ===== src/Store/Balances.antt =====
-- The cash balances of crates/db/src/memory.rs: how an operation reads, credits and debits one, the
-- mints of test dollars and the deposits of USDC.
use basingamarket.Base.{
  ℕ, Bool, true, false, List, [], ◌∷◌, Option, some, none, ◌&&◌, bytes_eq, leb, ok, err,
  if◌then◌else◌, ok_or, or_return, ◌+◌, ◌>>=◌,
}
use basingamarket.Base.Words.{u128_checked_add, u128_checked_sub}
use basingamarket.Store.Key.{Text, text_key}
use basingamarket.Store.Map.{get, insert, values, contains_key}
use basingamarket.Store.Rows.Events.{Time}
use basingamarket.Store.Rows.Cash.{CashBalanceRow, BusdcMintRow, CashDepositRow, ProfileRow}
use basingamarket.Store.Rows.Error.{
  DbResult, projection, cash_balance_overflow, cash_balance_insufficient, busdc_mint_already_exists,
  busdc_mint_limit_exceeded,
}
use basingamarket.Store.State.{ProjectionState, Outcome}

-- `.map(|balance| balance.cash_balance).unwrap_or(0)`
abbrev pub cash_in : Option CashBalanceRow → ℕ
cash_in none = 0
cash_in (some row) = row.cash_balance

abbrev pub cash_of : Text → ProjectionState → ℕ
cash_of wallet state = cash_in (get wallet state.cash_balances)

abbrev pub balance_row : Text → ℕ → Time → CashBalanceRow
balance_row wallet amount at = record {
  wallet_address = wallet;
  cash_balance = amount;
  updated_at = at;
}

-- The balance of a wallet, which is nothing for one without a row.
abbrev pub balance_or_zero : Text → Time → ProjectionState → CashBalanceRow
balance_or_zero wallet at state = elim (get wallet state.cash_balances) [
  | none ↦ balance_row wallet 0 at
  | some row ↦ row
]

-- The row that a credit or a debit of a wallet leads to.
unfoldable pub credited : Text → ℕ → Time → ProjectionState → DbResult CashBalanceRow
credited wallet amount at state = do
  next ← ok_or (u128_checked_add (cash_of wallet state) amount) (projection cash_balance_overflow)
  ok (balance_row wallet next at)

unfoldable pub debited : Text → ℕ → Time → ProjectionState → DbResult CashBalanceRow
debited wallet amount at state = do
  next ←
      ok_or (u128_checked_sub (cash_of wallet state) amount) (projection cash_balance_insufficient)
  ok (balance_row wallet next at)

-- `upsert_cash_balance`
unfoldable pub upsert_cash_balance : CashBalanceRow → ProjectionState → ProjectionState
upsert_cash_balance row state = record state {
  cash_balances = insert row.wallet_address row state.cash_balances;
}

unfoldable pub get_cash_balance : Text → ProjectionState → Option CashBalanceRow
get_cash_balance wallet state = get wallet state.cash_balances

unfoldable pub get_profile : Text → ProjectionState → Option ProfileRow
get_profile wallet state = get wallet state.profiles

unfoldable pub upsert_profile : ProfileRow → ProjectionState → ProjectionState
upsert_profile row state = record state { profiles = insert row.wallet_address row state.profiles }

-- `u32::MAX`, which a count of more rows than that is read as, and the saturating successor.
abbrev pub u32_max : ℕ
u32_max = 4294967295

abbrev pub u32_or_max : ℕ → ℕ
u32_or_max n = if leb n u32_max then n else u32_max

unfoldable pub mints_of_day : Text → Text → List BusdcMintRow → ℕ
mints_of_day wallet day [] = 0
mints_of_day wallet day (row ∷ rows) =
    let rest = mints_of_day wallet day rows in
    if bytes_eq row.wallet_address wallet && bytes_eq row.mint_day day then 1 + rest else rest

unfoldable pub busdc_mint_count_for_day : Text → Text → ProjectionState → ℕ
busdc_mint_count_for_day wallet day state =
    u32_or_max (mints_of_day wallet day (values state.busdc_mints))

abbrev pub add_mint : BusdcMintRow → CashBalanceRow → ProjectionState → ProjectionState
add_mint row balance state = record (upsert_cash_balance balance state) {
  busdc_mints = insert row.mint_id row state.busdc_mints;
}

unfoldable pub record_busdc_mint : BusdcMintRow → ℕ → ProjectionState → Outcome (CashBalanceRow × ℕ)
record_busdc_mint row daily_limit state =
    if contains_key row.mint_id state.busdc_mints
    then (state, err (projection busdc_mint_already_exists))
    else let used_today = busdc_mint_count_for_day row.wallet_address row.mint_day state in
      if leb daily_limit used_today
      then (state, err (projection busdc_mint_limit_exceeded))
      else or_return (credited row.wallet_address row.amount row.created_at state) state
          (λ balance. (add_mint row balance state, ok (balance, u32_or_max (used_today + 1))))

unfoldable pub get_cash_deposit : Text → ProjectionState → Option CashDepositRow
get_cash_deposit signature state = get signature state.cash_deposits

abbrev pub add_deposit : CashDepositRow → CashBalanceRow → ProjectionState → ProjectionState
add_deposit row balance state = record (upsert_cash_balance balance state) {
  cash_deposits = insert row.signature row state.cash_deposits;
}

unfoldable pub deposit_once :
    CashDepositRow → Option CashDepositRow → ProjectionState → Outcome (CashBalanceRow × Bool)
deposit_once row (some existing) state =
    (state, ok (balance_or_zero existing.wallet_address existing.created_at state, false))
deposit_once row none state =
    or_return (credited row.wallet_address row.amount row.created_at state) state
      (λ balance. (add_deposit row balance state, ok (balance, true)))

unfoldable pub record_cash_deposit :
    CashDepositRow → ProjectionState → Outcome (CashBalanceRow × Bool)
record_cash_deposit row state = deposit_once row (get row.signature state.cash_deposits) state

unfoldable pub sum_cash : ℕ → List CashBalanceRow → DbResult ℕ
sum_cash total [] = ok total
sum_cash total (row ∷ rows) = do
  next ← ok_or (u128_checked_add total row.cash_balance) (projection cash_balance_overflow)
  sum_cash next rows

unfoldable pub total_cash_balance : ProjectionState → DbResult ℕ
total_cash_balance state = sum_cash 0 (values state.cash_balances)
