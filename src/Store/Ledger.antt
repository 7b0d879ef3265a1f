-- ===== src/Store/Ledger.antt =====
-- The account book that the store keeps: what each wallet holds, in its balance, in its open
-- reservations and in its bids, and the entry that an operation posts to it.
pub mod Operation
pub mod Holdings
pub mod Posts
pub mod Refines
pub mod Created
pub mod Once
use basingamarket.Base.{
  ℕ, Bool, true, false, List, [], ◌∷◌, ◌≡◌, Option, some, none, bytes_eq, not, ◌&&◌, ◌||◌, ◌+◌,
  if◌then◌else◌, ◌==◌,
}
use basingamarket.Store.Key.{Text, text_key}
use basingamarket.Store.Map.{total}
use basingamarket.Store.Rows.Cash.{CashTradeReservationRow, CashBidRow, CashBalanceRow}
use basingamarket.Store.State.{ProjectionState}
use basingamarket.Store.Balances.{cash_of}
use basingamarket.Store.Canvas.{is_some}

abbrev pub is_open : CashTradeReservationRow → Bool
is_open row = not (row.released || is_some row.completed_signature)

-- What a reservation and a bid hold for a wallet.
unfoldable pub reserved_for : Text → CashTradeReservationRow → ℕ
reserved_for wallet row =
    if is_open row && bytes_eq row.wallet_address wallet then row.amount else 0

unfoldable pub bid_for : Text → CashBidRow → ℕ
bid_for wallet row = if bytes_eq row.buyer_wallet wallet then row.remaining_usdc else 0

unfoldable pub holdings : Text → ProjectionState → ℕ
holdings wallet state =
    cash_of wallet state
    + total (reserved_for wallet) state.cash_trade_reservations
    + total (bid_for wallet) state.cash_bids

-- An entry of the book: one wallet pays and one is paid.
pub record Entry : Type 0 where
  pub payer : Text
  pub paid : ℕ
  pub payee : Text
  pub received : ℕ

abbrev pub to_wallet : Text → ℕ → Text → ℕ
to_wallet holder amount wallet = if bytes_eq holder wallet then amount else 0

-- The entry that credits a wallet, the one that debits it, and the one that changes nothing.
abbrev pub credit : Text → ℕ → Entry
credit wallet amount = record { payer = wallet; paid = 0; payee = wallet; received = amount }

abbrev pub debit : Text → ℕ → Entry
debit wallet amount = record { payer = wallet; paid = amount; payee = wallet; received = 0 }

abbrev pub nothing : Entry
nothing = debit [] 0

-- A record that is there already is not credited again.
abbrev pub unless_known : {V : Type 0} → Option V → Entry → Entry
unless_known none entry = entry
unless_known (some row) entry = nothing

-- The two states differ by the entry, in the book of every wallet.
unfoldable pub Posts : Entry → ProjectionState → ProjectionState → Type 0
Posts entry before after =
    (wallet : Text)
    → holdings wallet after + to_wallet entry.payer entry.paid wallet
      ≡ holdings wallet before + to_wallet entry.payee entry.received wallet
