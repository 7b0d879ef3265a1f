-- ===== src/Store/Snapshot/RoundTrip.antt =====
-- A snapshot brings the ledgers back.
use basingamarket.Base.{◌≡◌, arith}
use basingamarket.Store.Key.{Key, text_key, nat_key}
use basingamarket.Store.Map.{BTreeMap}
use basingamarket.Store.Map.Collect.{Rising, Keyed, collect-values}
use basingamarket.Store.State.{ProjectionState}
use basingamarket.Store.Snapshot.{cash_projection_snapshot, replace_ledgers}

-- The fourteen ledgers of a snapshot.
pub data Ledger : Type 0 where
  balance_ledger mint_ledger reservation_ledger trade_ledger bid_ledger resale_ledger claim_ledger :
      Ledger
  deposit_ledger sol_quote_ledger sol_deposit_ledger transfer_quote_ledger transfer_deposit_ledger
        withdrawal_quote_ledger withdrawal_ledger :
      Ledger

-- A ledger is a map: its keys rise, and each row stands under its own key.
abbrev pub IsLedger : {K V : Type 0} → ⦃key : Key K⦄ → (V → K) → BTreeMap K V → Type 0
IsLedger key_of m = Rising m × Keyed key_of m

unfoldable pub IsKept : Ledger → ProjectionState → Type 0
IsKept balance_ledger state = IsLedger (λ row. row.wallet_address) state.cash_balances
IsKept mint_ledger state = IsLedger (λ row. row.mint_id) state.busdc_mints
IsKept reservation_ledger state = IsLedger (λ row. row.trade_id) state.cash_trade_reservations
IsKept trade_ledger state = IsLedger (λ row. row.signature) state.cash_trades
IsKept bid_ledger state = IsLedger (λ row. row.bid_id) state.cash_bids
IsKept resale_ledger state = IsLedger (λ row. row.signature) state.cash_resales
IsKept claim_ledger state = IsLedger (λ row. row.ticket_id) state.payout_claims
IsKept deposit_ledger state = IsLedger (λ row. row.signature) state.cash_deposits
IsKept sol_quote_ledger state = IsLedger (λ row. row.quote_id) state.sol_deposit_quotes
IsKept sol_deposit_ledger state = IsLedger (λ row. row.signature) state.sol_deposits
IsKept transfer_quote_ledger state = IsLedger (λ row. row.quote_id) state.transfer_deposit_quotes
IsKept transfer_deposit_ledger state = IsLedger (λ row. row.signature) state.transfer_deposits
IsKept withdrawal_quote_ledger state = IsLedger (λ row. row.quote_id) state.cash_withdrawal_quotes
IsKept withdrawal_ledger state = IsLedger (λ row. row.vault_signature) state.cash_withdrawals

abbrev pub WellKept : ProjectionState → Type 0
WellKept state = (ledger : Ledger) → IsKept ledger state

-- The ledgers of one state in another.
abbrev pub with_ledgers_of : ProjectionState → ProjectionState → ProjectionState
with_ledgers_of kept other = record other {
  cash_balances = kept.cash_balances;
  busdc_mints = kept.busdc_mints;
  cash_trade_reservations = kept.cash_trade_reservations;
  cash_trades = kept.cash_trades;
  cash_bids = kept.cash_bids;
  cash_resales = kept.cash_resales;
  payout_claims = kept.payout_claims;
  cash_deposits = kept.cash_deposits;
  sol_deposit_quotes = kept.sol_deposit_quotes;
  sol_deposits = kept.sol_deposits;
  transfer_deposit_quotes = kept.transfer_deposit_quotes;
  transfer_deposits = kept.transfer_deposits;
  cash_withdrawal_quotes = kept.cash_withdrawal_quotes;
  cash_withdrawals = kept.cash_withdrawals;
}

-- Loading the snapshot of a state whose ledgers are well kept, into any state, brings back every row of
-- the fourteen ledgers under its key, before the tickets are made again from them.
pub replace_ledgers-snapshot :
    (state other : ProjectionState)
    → WellKept state
    → replace_ledgers (cash_projection_snapshot state) other ≡ with_ledgers_of state other
unfolding replace_ledgers cash_projection_snapshot IsKept
replace_ledgers-snapshot state other kept = ground (
  arith,
  collect-values (λ row. row.wallet_address) state.cash_balances (kept balance_ledger),
  collect-values (λ row. row.mint_id) state.busdc_mints (kept mint_ledger),
  collect-values (λ row. row.trade_id) state.cash_trade_reservations (kept reservation_ledger),
  collect-values (λ row. row.signature) state.cash_trades (kept trade_ledger),
  collect-values (λ row. row.bid_id) state.cash_bids (kept bid_ledger),
  collect-values (λ row. row.signature) state.cash_resales (kept resale_ledger),
  collect-values (λ row. row.ticket_id) state.payout_claims (kept claim_ledger),
  collect-values (λ row. row.signature) state.cash_deposits (kept deposit_ledger),
  collect-values (λ row. row.quote_id) state.sol_deposit_quotes (kept sol_quote_ledger),
  collect-values (λ row. row.signature) state.sol_deposits (kept sol_deposit_ledger),
  collect-values (λ row. row.quote_id) state.transfer_deposit_quotes (kept transfer_quote_ledger),
  collect-values (λ row. row.signature) state.transfer_deposits (kept transfer_deposit_ledger),
  collect-values (λ row. row.quote_id) state.cash_withdrawal_quotes (kept withdrawal_quote_ledger),
  collect-values (λ row. row.vault_signature) state.cash_withdrawals (kept withdrawal_ledger),
)
