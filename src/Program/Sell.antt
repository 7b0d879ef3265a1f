-- ===== src/Program/Sell.antt =====
-- Selling a lot, or part of it, into a bid: `sell_lot_into_bid_from_vault` of
-- programs/basingamarket/src/lib.rs and `create_split_lot` of ops.rs.
pub mod Parts
pub mod Conserved
use basingamarket.Base.{
  ℕ, ◌+◌, ltb, leb, ◌==◌, ◌&&◌, not, false, List, [], ◌∷◌, ◌++◌, Option, none, some, Bool, true, ok,
  if◌then◌else◌, ◌>>=◌, ◌>>◌,
}
use basingamarket.Base.Int.{ℤ}
use basingamarket.Base.Words.{le_bytes}
use basingamarket.Program.Error.{
  AnchorResult, require, unauthorized, zero_amount, zero_ticket_amount, self_buy, already_claimed,
  invalid_lot_round, invalid_lot_pda, lot_already_initialized,
}
use basingamarket.Program.Guards.{
  require_settlement_actor, require_not_paused, require_round_tradeable,
}
use basingamarket.Program.Math.{scale, mul_div, checked_sub}
use basingamarket.Program.Runtime.{Runtime, LotAccount, CreateAccount}
use basingamarket.Program.Secondary.{SecondaryFeeTransferExecution, execute_secondary_fee_transfers}
use basingamarket.Program.State.{Bytes, Pubkey, Account, GlobalConfig, PositionLot, Round}
use basingamarket.Program.Token.{Spl}

pub record SellLotIntoBidFromVault (Ledger : Type 0) : Type 0 where
  pub global_config : Account GlobalConfig
  pub round : Account Round
  pub seller_lot : PositionLot
  pub buyer_lot : LotAccount
  pub usdc_mint : Pubkey
  pub cash_vault : Pubkey
  pub round_vault : Pubkey
  pub fee_vault : Pubkey
  pub cashier : Pubkey
  pub ledger : Ledger

pub record SellLotIntoBidFromVaultArgs : Type 0 where
  pub seller_wallet : Pubkey
  pub buyer_wallet : Pubkey
  pub buyer_lot_id : ℕ
  pub tickets_to_sell : ℕ
  pub gross_usdc : ℕ

-- `b"lot"`, and the seeds of a lot's address; a key has 32 bytes.
abbrev pub lot_seeds : Pubkey → ℕ → List Bytes
lot_seeds round_key lot_id =
    (b'l' ∷ b'o' ∷ b't' ∷ []) ∷ le_bytes 32 round_key ∷ le_bytes 8 lot_id ∷ []

-- `8 + PositionLot::INIT_SPACE`: five u64 fields, three keys, two i64 times, two booleans, the side
abbrev pub lot_space : ℕ
lot_space = 8 + 155

abbrev pub is_empty : Option PositionLot → Bool
is_empty none = true
is_empty (some lot) = false

module _ {Ledger : Type 0} (spl : Spl Ledger) (runtime : Runtime) where
  open runtime use {find_program_address, minimum_balance, create_account}

  -- The lot that the buyer gets.
  unfoldable pub split_lot :
      SellLotIntoBidFromVault Ledger → SellLotIntoBidFromVaultArgs → ℤ → AnchorResult PositionLot
  split_lot ctx args now = do
    avg_entry_price ← mul_div args.gross_usdc scale args.tickets_to_sell
    ok (record {
      lot_id = args.buyer_lot_id;
      round = ctx.round.key;
      side = ctx.seller_lot.side;
      current_owner = args.buyer_wallet;
      original_buyer = ctx.seller_lot.original_buyer;
      ticket_amount = args.tickets_to_sell;
      usdc_in = args.gross_usdc;
      avg_entry_price = avg_entry_price;
      listed = false;
      listed_price = 0;
      created_at = now;
      last_transfer_at = now;
      claimed = false;
    })

  -- The checks that the buyer's account is the lot's address, and is new.
  unfoldable pub require_new_lot :
      SellLotIntoBidFromVault Ledger → SellLotIntoBidFromVaultArgs → AnchorResult (Unit {0})
  require_new_lot ctx args = do
    require
        ((find_program_address (lot_seeds ctx.round.key args.buyer_lot_id)).0 == ctx.buyer_lot.key)
        invalid_lot_pda
    require (ctx.buyer_lot.lamports == 0 && is_empty ctx.buyer_lot.contents) lot_already_initialized

  -- The call of the system program.
  abbrev pub creation : SellLotIntoBidFromVault Ledger → SellLotIntoBidFromVaultArgs → CreateAccount
  creation ctx args =
      let seeds = lot_seeds ctx.round.key args.buyer_lot_id in
      record {
        payer = ctx.cashier;
        account = ctx.buyer_lot;
        lamports = minimum_balance lot_space;
        space = lot_space;
        signer_seeds = seeds ++ ((find_program_address seeds).1 ∷ []) ∷ [];
      }

  unfoldable pub create_split_lot :
      SellLotIntoBidFromVault Ledger → SellLotIntoBidFromVaultArgs → ℤ → AnchorResult LotAccount
  create_split_lot ctx args now = do
    require_new_lot ctx args
    created ← create_account (creation ctx args)
    buyer_lot ← split_lot ctx args now
    ok (record created { contents = some buyer_lot })

  -- The seller's lot after part of it was sold.
  unfoldable pub reduced_lot : PositionLot → ℕ → AnchorResult PositionLot
  reduced_lot lot tickets_to_sell = do
    sold_usdc_in ← mul_div lot.usdc_in tickets_to_sell lot.ticket_amount
    ticket_amount ← checked_sub lot.ticket_amount tickets_to_sell
    usdc_in ← checked_sub lot.usdc_in sold_usdc_in
    avg_entry_price ← if ticket_amount == 0 then ok 0 else mul_div usdc_in scale ticket_amount
    ok (record lot {
      ticket_amount = ticket_amount;
      usdc_in = usdc_in;
      avg_entry_price = avg_entry_price;
      listed = false;
      listed_price = 0;
    })

  abbrev pub fees_of : ℤ → SellLotIntoBidFromVault Ledger → ℕ → SecondaryFeeTransferExecution Ledger
  fees_of now ctx gross_usdc = record {
    global_config = ctx.global_config;
    round = ctx.round;
    ledger = ctx.ledger;
    usdc_mint = ctx.usdc_mint;
    cash_vault = ctx.cash_vault;
    round_vault = ctx.round_vault;
    fee_vault = ctx.fee_vault;
    cashier = ctx.cashier;
    gross_usdc = gross_usdc;
    last_transfer_at = ctx.seller_lot.last_transfer_at;
    now = now;
  }

  -- The checks before any fee is taken.
  unfoldable pub require_sale :
      ℤ → SellLotIntoBidFromVault Ledger → SellLotIntoBidFromVaultArgs → AnchorResult (Unit {0})
  require_sale now ctx args = do
    require_settlement_actor ctx.global_config.value ctx.cashier
    require_not_paused ctx.global_config.value
    require_round_tradeable now ctx.round.value
    require (ctx.seller_lot.round == ctx.round.key) invalid_lot_round
    require (ctx.seller_lot.current_owner == args.seller_wallet) unauthorized
    require (not ctx.seller_lot.claimed) already_claimed
    require (not (args.buyer_wallet == args.seller_wallet)) self_buy
    require (ltb 0 args.gross_usdc) zero_amount
    require (ltb 0 args.tickets_to_sell && leb args.tickets_to_sell ctx.seller_lot.ticket_amount)
        zero_ticket_amount

  -- What happens to the lots: the whole lot changes hands, or a new lot is split off. `ctx` is the
  -- context after the fees.
  unfoldable pub transfer_tickets :
      SellLotIntoBidFromVault Ledger
      → SellLotIntoBidFromVaultArgs
      → ℤ
      → AnchorResult (SellLotIntoBidFromVault Ledger)
  transfer_tickets ctx args now =
      if args.tickets_to_sell == ctx.seller_lot.ticket_amount
      then ok (record ctx {
        seller_lot = record ctx.seller_lot {
          current_owner = args.buyer_wallet;
          listed = false;
          listed_price = 0;
          last_transfer_at = now;
        };
      })
      else (do
        buyer_lot ← create_split_lot ctx args now
        seller_lot ← reduced_lot ctx.seller_lot args.tickets_to_sell
        ok (record ctx { seller_lot = seller_lot; buyer_lot = buyer_lot }))

  unfoldable pub sell_lot_into_bid_from_vault :
      ℤ
      → SellLotIntoBidFromVault Ledger
      → SellLotIntoBidFromVaultArgs
      → AnchorResult (SellLotIntoBidFromVault Ledger)
  sell_lot_into_bid_from_vault now ctx args = do
    require_sale now ctx args
    paid ← execute_secondary_fee_transfers spl (fees_of now ctx args.gross_usdc)
    transfer_tickets
        (record ctx {
          global_config = paid.global_config;
          round = paid.round;
          ledger = paid.ledger;
        })
        args now
