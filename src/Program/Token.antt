-- ===== src/Program/Token.antt =====
-- The token accounts of the program. The SPL token program is not part of the repository: what the
-- code reads of its accounts, and its `transfer_checked` instruction, are the record `Spl`, which
-- every definition that moves tokens takes; `IsSpl` is the documented behaviour that theorems assume.
pub mod Moves
use basingamarket.Base.{ℕ, ◌+◌, ◌≡◌, ◌≢◌, ◌==◌, ◌&&◌, ok, if◌then◌else◌}
use basingamarket.Program.Error.{AnchorResult, require, invalid_token_account}
use basingamarket.Program.State.{Pubkey}

-- `TransferChecked` with the amount and the decimals of the call.
pub record Transfer : Type 0 where
  pub source : Pubkey
  pub mint : Pubkey
  pub destination : Pubkey
  pub authority : Pubkey
  pub amount : ℕ
  pub decimals : ℕ

-- `TokenAccount::mint`, `TokenAccount::owner`, `TokenAccount::amount`, `Mint::decimals` and
-- `token::transfer_checked`, over the token program's own state.
pub record Spl (Ledger : Type 0) : Type 0 where
  pub mint_of : Ledger → Pubkey → Pubkey
  pub owner_of : Ledger → Pubkey → Pubkey
  pub amount_of : Ledger → Pubkey → ℕ
  pub decimals_of : Ledger → Pubkey → ℕ
  pub transfer : Ledger → Transfer → AnchorResult Ledger

-- A transfer that goes through moves the amount from the source to the destination, and touches no
-- other balance.
pub record IsSpl {Ledger : Type 0} (spl : Spl Ledger) : Type 0 where
  pub debit :
      (l : Ledger) (t : Transfer) (l' : Ledger)
      → spl.transfer l t ≡ ok l'
      → t.source ≢ t.destination
      → spl.amount_of l' t.source + t.amount ≡ spl.amount_of l t.source
  pub credit :
      (l : Ledger) (t : Transfer) (l' : Ledger)
      → spl.transfer l t ≡ ok l'
      → t.source ≢ t.destination
      → spl.amount_of l' t.destination ≡ spl.amount_of l t.destination + t.amount
  pub other :
      (l : Ledger) (t : Transfer) (l' : Ledger) (k : Pubkey)
      → spl.transfer l t ≡ ok l'
      → k ≢ t.source
      → k ≢ t.destination
      → spl.amount_of l' k ≡ spl.amount_of l k

module _ {Ledger : Type 0} (spl : Spl Ledger) where
  open spl use {mint_of, owner_of, transfer}

  unfoldable pub require_token_account : Ledger → Pubkey → Pubkey → Pubkey → AnchorResult (Unit {0})
  require_token_account ledger account mint authority =
      require (mint_of ledger account == mint && owner_of ledger account == authority)
        invalid_token_account

  -- `transfer_checked` of ops.rs
  unfoldable pub transfer_checked : Ledger → Transfer → AnchorResult Ledger
  transfer_checked ledger t = if t.amount == 0 then ok ledger else transfer ledger t
