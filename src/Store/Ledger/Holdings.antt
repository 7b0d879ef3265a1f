-- ===== src/Store/Ledger/Holdings.antt =====
-- How a change of one row moves what the wallets hold.
use basingamarket.Base.{
  ℕ, Bool, true, false, ◌≡◌, refl, Option, some, none, bytes_eq, ◌+◌, if◌then◌else◌, arith, ok, err,
  or_return, ◌≤◌, ◌-◌, Bool-cases, inl, inr, ap,
}
use mathlib.Core.Path.{subst}
use basingamarket.Store.Key.{Text, text_key, text_eq_refl, text_eq_sound}
use basingamarket.Store.Map.{BTreeMap, get, insert}
use basingamarket.Store.Map.Laws.{get-insert, get-insert_other}
use basingamarket.Store.Rows.Cash.{CashBalanceRow}
use basingamarket.Store.Rows.Events.{Time}
use basingamarket.Store.State.{ProjectionState, Outcome}
use basingamarket.Store.Rows.Error.{DbResult, DbError}
use basingamarket.Store.Ledger.{Entry, holdings, to_wallet, nothing, credit, debit, Posts}
use basingamarket.Store.Balances.{cash_of, upsert_cash_balance, credited, debited, balance_row}

get-insert_text :
    {V : Type 0} (wallet k : Text) (v : V) (m : BTreeMap Text V)
    → get wallet (insert k v m) ≡ (if bytes_eq k wallet then some v else get wallet m)
get-insert_text wallet k v m = elim (Bool-cases (bytes_eq k wallet)) [
  | inl same ↦ ground (arith, text_eq_sound k wallet same, get-insert k v m, get-insert wallet v m)
  | inr other ↦ ground (arith, text_eq_refl k, text_eq_refl wallet, get-insert_other wallet k v m)
]

same_wallet :
    (holder wallet : Text) (state : ProjectionState)
    → bytes_eq holder wallet ≡ true
    → cash_of holder state ≡ cash_of wallet state
same_wallet holder wallet state h = ap (λ w. cash_of w state) (text_eq_sound holder wallet h)

pub cash_of-upsert_cash_balance :
    (wallet : Text) (row : CashBalanceRow) (state : ProjectionState)
    → cash_of wallet (upsert_cash_balance row state)
      ≡ (if bytes_eq row.wallet_address wallet then row.cash_balance else cash_of wallet state)
unfolding upsert_cash_balance
cash_of-upsert_cash_balance wallet row state =
    ground (arith, get-insert_text wallet row.wallet_address row state.cash_balances)

pub credited-ok :
    (wallet : Text) (amount : ℕ) (at : Time) (state : ProjectionState) (row : CashBalanceRow)
    → credited wallet amount at state ≡ ok row
    → row ≡ balance_row wallet (cash_of wallet state + amount) at
unfolding credited
credited-ok wallet amount at state row h = ground arith

pub debited-ok :
    (wallet : Text) (amount : ℕ) (at : Time) (state : ProjectionState) (row : CashBalanceRow)
    → debited wallet amount at state ≡ ok row
    → (row ≡ balance_row wallet (cash_of wallet state - amount) at)
      × (amount ≤ cash_of wallet state)
unfolding debited
debited-ok wallet amount at state row h = ground arith

-- A credit and a debit of one wallet, in the book of every wallet.
pub holdings-credited :
    (holder : Text) (amount : ℕ) (at : Time) (state : ProjectionState) (row : CashBalanceRow)
    → credited holder amount at state ≡ ok row
    → (wallet : Text)
    → holdings wallet (upsert_cash_balance row state)
      ≡ holdings wallet state + to_wallet holder amount wallet
unfolding holdings upsert_cash_balance
holdings-credited holder amount at state row h wallet = ground (
  arith,
  credited-ok holder amount at state row h,
  get-insert_text wallet row.wallet_address row state.cash_balances,
  get-insert_text wallet holder row state.cash_balances,
  same_wallet holder wallet state,
)

pub holdings-debited :
    (holder : Text) (amount : ℕ) (at : Time) (state : ProjectionState) (row : CashBalanceRow)
    → debited holder amount at state ≡ ok row
    → (wallet : Text)
    → holdings wallet (upsert_cash_balance row state) + to_wallet holder amount wallet
      ≡ holdings wallet state
unfolding holdings upsert_cash_balance
holdings-debited holder amount at state row h wallet = ground (
  arith,
  debited-ok holder amount at state row h,
  get-insert_text wallet holder row state.cash_balances,
  same_wallet holder wallet state,
)

-- An operation that ends with a fallible row leaves what its success leaves.
pub or_return-lands :
    {A : Type 0} {after : ProjectionState} {done : A} (P : ProjectionState → Type 0)
    (left : ProjectionState) (r : DbResult CashBalanceRow)
    (finish : CashBalanceRow → ProjectionState) (value : CashBalanceRow → A)
    → ((row : CashBalanceRow) → r ≡ ok row → P (finish row))
    → or_return r left (λ row. (finish row, ok (value row))) ≡ (after, ok done)
    → P after
or_return-lands P left (err e) finish value holds run = cc
or_return-lands {after = after} P left (ok row) finish value holds run =
    let same : finish row ≡ after = cc in subst P same (holds row refl)

pub or_return-Posts :
    {A : Type 0} {after : ProjectionState} {done : A} (entry : Entry)
    (before left : ProjectionState) (r : DbResult CashBalanceRow)
    (finish : CashBalanceRow → ProjectionState) (value : CashBalanceRow → A)
    → ((row : CashBalanceRow) → r ≡ ok row → Posts entry before (finish row))
    → or_return r left (λ row. (finish row, ok (value row))) ≡ (after, ok done)
    → Posts entry before after
or_return-Posts entry before left r finish value posts run =
    or_return-lands (Posts entry before) left r finish value posts run

-- Without a change nothing is posted.
pub unchanged-Posts :
    {A : Type 0} {state after : ProjectionState} {value done : A}
    → ◌≡◌ {A = Outcome A} (state, ok value) (after, ok done)
    → Posts nothing state after
unfolding Posts
unchanged-Posts {state = state} {after = after} run wallet =
    let same : state ≡ after = cc in ground (arith, ap (holdings wallet) same)

pub credit-Posts :
    (holder : Text) (amount : ℕ) (at : Time) (state : ProjectionState) (row : CashBalanceRow)
    → credited holder amount at state ≡ ok row
    → Posts (credit holder amount) state (upsert_cash_balance row state)
unfolding Posts
credit-Posts holder amount at state row h wallet =
    ground (arith, holdings-credited holder amount at state row h wallet)

pub debit-Posts :
    (holder : Text) (amount : ℕ) (at : Time) (state : ProjectionState) (row : CashBalanceRow)
    → debited holder amount at state ≡ ok row
    → Posts (debit holder amount) state (upsert_cash_balance row state)
unfolding Posts
debit-Posts holder amount at state row h wallet =
    ground (arith, holdings-debited holder amount at state row h wallet)

-- Past a test that returns an error.
pub past_error :
    {A : Type 0} {after : ProjectionState} {x : Outcome A} {done : A} (b : Bool)
    (left : ProjectionState) (e : DbError)
    → (if b then (left, err e) else x) ≡ (after, ok done)
    → (b ≡ false) × (x ≡ (after, ok done))
past_error true left e run = cc
past_error false left e run = (refl, run)

-- Two states with the same money.
abbrev pub SameCash : ProjectionState → ProjectionState → Type 0
SameCash before after =
    (after.cash_balances ≡ before.cash_balances)
    × (after.cash_trade_reservations ≡ before.cash_trade_reservations)
    × (after.cash_bids ≡ before.cash_bids)

pub SameCash-holdings :
    (wallet : Text) (before after : ProjectionState)
    → SameCash before after
    → holdings wallet after ≡ holdings wallet before
unfolding holdings
SameCash-holdings wallet before after same = cc

-- An entry is as good in a state with the same money.
pub SameCash-Posts :
    (entry : Entry) (before after last : ProjectionState)
    → SameCash after last
    → Posts entry before after
    → Posts entry before last
unfolding Posts
SameCash-Posts entry before after last same posts wallet =
    ground (arith, SameCash-holdings wallet after last same, posts wallet)

-- A key that is not contained has no row.
pub contains-none :
    {V : Type 0} (found : Option V)
    → elim found [ none ↦ false | some v ↦ true ] ≡ false
    → found ≡ none
contains-none none h = refl
contains-none (some v) h = cc
