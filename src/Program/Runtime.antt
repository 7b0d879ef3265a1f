-- ===== src/Program/Runtime.antt =====
-- What the program asks of the Solana runtime and the system program, which are not part of the
-- repository: addresses derived from seeds, the rent, and the creation of an account.
use basingamarket.Base.{ℕ, List, Option}
use basingamarket.Program.Error.{AnchorResult}
use basingamarket.Program.State.{Bytes, Pubkey, PositionLot}

-- An `UncheckedAccount` that may come to hold a lot; `contents` is `none` while its data is empty.
pub record LotAccount : Type 0 where
  pub key : Pubkey
  pub lamports : ℕ
  pub contents : Option PositionLot

-- `system_instruction::create_account` with its signer seeds.
pub record CreateAccount : Type 0 where
  pub payer : Pubkey
  pub account : LotAccount
  pub lamports : ℕ
  pub space : ℕ
  pub signer_seeds : List Bytes

-- `Pubkey::find_program_address` at the program's own id, `Rent::minimum_balance`, and `invoke_signed`
-- of `create_account`, with the account as it is afterwards.
pub record Runtime : Type 0 where
  pub find_program_address : List Bytes → Pubkey × ℕ
  pub minimum_balance : ℕ → ℕ
  pub create_account : CreateAccount → AnchorResult LotAccount
