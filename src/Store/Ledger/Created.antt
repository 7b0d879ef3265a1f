-- ===== src/Store/Ledger/Created.antt =====
-- No operation makes money out of nothing, also where it fails half way.
pub mod Deposits
pub mod Trades
pub mod Resales
pub mod Bound
use basingamarket.Base.{
  ℕ, Bool, true, false, ◌≡◌, refl, Option, some, none, ◌+◌, ◌-◌, ◌≤◌, if◌then◌else◌, arith, ok, err,
  or_return, ap,
}
use basingamarket.Store.Key.{Text, text_key}
use basingamarket.Store.Map.{get, insert, total}
use basingamarket.Store.Map.Laws.{total-insert}
use basingamarket.Store.Rows.Events.{Time}
use basingamarket.Store.Rows.Error.{DbResult, DbError}
use basingamarket.Store.Rows.Cash.{CashBalanceRow, CashTradeReservationRow, CashBidRow}
use basingamarket.Store.State.{ProjectionState, Outcome}
use basingamarket.Store.Balances.{upsert_cash_balance, credited, debited, cash_of}
use basingamarket.Store.Ledger.{is_open}
use basingamarket.Store.Ledger.Holdings.{credited-ok, debited-ok, SameCash}

abbrev pub cash_amount_of : CashBalanceRow → ℕ
cash_amount_of row = row.cash_balance

abbrev pub open_amount : CashTradeReservationRow → ℕ
open_amount row = if is_open row then row.amount else 0

abbrev pub bid_amount : CashBidRow → ℕ
bid_amount row = row.remaining_usdc

-- All the money in the store: the balances, the open reservations and the bids.
unfoldable pub held : ProjectionState → ℕ
held state =
    total cash_amount_of state.cash_balances
    + total open_amount state.cash_trade_reservations
    + total bid_amount state.cash_bids

pub held-credited :
    (holder : Text) (amount : ℕ) (at : Time) (state : ProjectionState) (row : CashBalanceRow)
    → credited holder amount at state ≡ ok row
    → held (upsert_cash_balance row state) ≡ held state + amount
unfolding held upsert_cash_balance
held-credited holder amount at state row h = ground (
  arith,
  credited-ok holder amount at state row h,
  total-insert cash_amount_of holder row state.cash_balances,
)

pub held-debited :
    (holder : Text) (amount : ℕ) (at : Time) (state : ProjectionState) (row : CashBalanceRow)
    → debited holder amount at state ≡ ok row
    → held (upsert_cash_balance row state) + amount ≡ held state
unfolding held upsert_cash_balance
held-debited holder amount at state row h = ground (
  arith,
  debited-ok holder amount at state row h,
  total-insert cash_amount_of holder row state.cash_balances,
)

pub SameCash-held :
    (before after : ProjectionState) → SameCash before after → held after ≡ held before
unfolding held
SameCash-held before after same = cc

-- A fallible row: what is left on an error and on success stays below the bound.
pub or_return-held :
    {A : Type 0} (bound : ℕ) (left : ProjectionState) (r : DbResult CashBalanceRow)
    (finish : CashBalanceRow → Outcome A)
    → held left ≤ bound
    → ((row : CashBalanceRow) → r ≡ ok row → held (finish row).0 ≤ bound)
    → held (or_return r left finish).0 ≤ bound
or_return-held bound left (err e) finish below holds = below
or_return-held bound left (ok row) finish below holds = holds row refl

-- A test that returns an error changes nothing.
pub guarded-held :
    {A : Type 0} (bound : ℕ) (b : Bool) (left : ProjectionState) (e : DbError) (rest : Outcome A)
    → held left ≤ bound
    → (b ≡ false → held rest.0 ≤ bound)
    → held (if b then (left, err e) else rest).0 ≤ bound
guarded-held bound true left e rest below holds = below
guarded-held bound false left e rest below holds = holds refl
