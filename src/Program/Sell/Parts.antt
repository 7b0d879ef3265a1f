-- ===== src/Program/Sell/Parts.antt =====
-- What a sale of a lot, or of a part of it, leaves: `create_split_lot` of ops.rs and the seller's
-- lot in `sell_lot_into_bid_from_vault` of lib.rs, in programs/basingamarket/src.
use basingamarket.Base.{
  ℕ, ◌+◌, ◌≤◌, ◌<◌, ◌≡◌, ◌≢◌, ◌⊎◌, true, false, some, none, inl, inr, arith, ok, Result-cases, ◌==◌,
}
use basingamarket.Base.Int.{ℤ}
use basingamarket.Program.Math.{checked_sub}
use basingamarket.Program.Runtime.{Runtime}
use basingamarket.Program.Sell.{
  SellLotIntoBidFromVault, SellLotIntoBidFromVaultArgs, require_sale, transfer_tickets,
  require_new_lot, create_split_lot, split_lot, reduced_lot,
}
use basingamarket.Program.State.{PositionLot}
use basingamarket.Program.Token.{Spl}

-- What is left of a lot, and the lot split off from it, hold its tickets and its side together; the
-- seller keeps the rest of the lot, and the buyer's is open to be claimed or listed.
pub record Split (lot rest bought : PositionLot) (args : SellLotIntoBidFromVaultArgs) : Type 0 where
  pub tickets : rest.ticket_amount + bought.ticket_amount ≡ lot.ticket_amount
  pub amount : bought.ticket_amount ≡ args.tickets_to_sell
  pub some_left : 0 < rest.ticket_amount
  pub some_sold : 0 < bought.ticket_amount
  pub rest_side : rest.side ≡ lot.side
  pub bought_side : bought.side ≡ lot.side
  pub rest_round : rest.round ≡ lot.round
  pub bought_round : bought.round ≡ lot.round
  pub rest_owner : rest.current_owner ≡ lot.current_owner
  pub bought_owner : bought.current_owner ≡ args.buyer_wallet
  pub rest_claimed : rest.claimed ≡ false
  pub bought_claimed : bought.claimed ≡ false
  pub rest_listed : rest.listed ≡ false
  pub bought_listed : bought.listed ≡ false
  pub rest_cost : rest.usdc_in ≤ lot.usdc_in
  pub bought_cost : bought.usdc_in ≡ args.gross_usdc

-- The whole lot has a new owner.
pub record HandedOver (lot lot' : PositionLot) (args : SellLotIntoBidFromVaultArgs) : Type 0 where
  pub tickets : lot'.ticket_amount ≡ lot.ticket_amount
  pub side : lot'.side ≡ lot.side
  pub round : lot'.round ≡ lot.round
  pub owner : lot'.current_owner ≡ args.buyer_wallet
  pub claimed : lot'.claimed ≡ false
  pub listed : lot'.listed ≡ false
  pub cost : lot'.usdc_in ≡ lot.usdc_in

module _ {Ledger : Type 0} (spl : Spl Ledger) (runtime : Runtime) where
  reduced_lot-rest :
      (lot : PositionLot) (n : ℕ) {rest : PositionLot}
      → reduced_lot spl runtime lot n ≡ ok rest
      → (rest.ticket_amount + n ≡ lot.ticket_amount)
        × (rest.usdc_in ≤ lot.usdc_in)
        × (rest.side ≡ lot.side)
        × (rest.round ≡ lot.round)
        × (rest.current_owner ≡ lot.current_owner)
        × (rest.claimed ≡ lot.claimed)
        × (rest.listed ≡ false)
  unfolding reduced_lot checked_sub
  reduced_lot-rest lot n h = ground arith

  pub create_split_lot-bought :
      (ctx : SellLotIntoBidFromVault Ledger) (args : SellLotIntoBidFromVaultArgs) (now : ℤ)
      {made : _}
      → create_split_lot spl runtime ctx args now ≡ ok made
      → (bought : PositionLot) × (split_lot spl runtime ctx args now ≡ ok bought)
        × (made.contents ≡ some bought)
        × (ctx.buyer_lot.lamports ≡ 0)
        × (ctx.buyer_lot.contents ≡ none)
  unfolding create_split_lot require_new_lot
  create_split_lot-bought ctx args now h =
      elim (Result-cases (split_lot spl runtime ctx args now)) [
        | inl (bought, split) ↦ (bought, split, ground (arith, split), ground arith, ground arith)
        | inr (e, bad) ↦ absurd (ground (arith, bad))
      ]

  -- What the checks of a sale have established.
  pub record MaySell (ctx : SellLotIntoBidFromVault Ledger) (args : SellLotIntoBidFromVaultArgs)
      : Type 0 where
    pub round : ctx.seller_lot.round ≡ ctx.round.key
    pub claimed : ctx.seller_lot.claimed ≡ false
    pub some_sold : 0 < args.tickets_to_sell
    pub enough : args.tickets_to_sell ≤ ctx.seller_lot.ticket_amount

  pub require_sale-MaySell :
      (now : ℤ) (ctx : SellLotIntoBidFromVault Ledger) (args : SellLotIntoBidFromVaultArgs)
      → require_sale spl runtime now ctx args ≡ ok tt
      → MaySell ctx args
  unfolding require_sale
  require_sale-MaySell now ctx args h = ground arith

  -- After a sale either the whole lot has changed hands, or it is split.
  abbrev pub Sold :
      SellLotIntoBidFromVault Ledger
      → SellLotIntoBidFromVault Ledger
      → SellLotIntoBidFromVaultArgs
      → Type 0
  Sold ctx ctx' args =
      (HandedOver ctx.seller_lot ctx'.seller_lot args × (ctx'.buyer_lot ≡ ctx.buyer_lot))
      ⊎ ((bought : PositionLot) × (ctx'.buyer_lot.contents ≡ some bought)
          × (ctx.buyer_lot.contents ≡ none)
          × Split ctx.seller_lot ctx'.seller_lot bought args)

  pub split_lot-bought :
      (ctx : SellLotIntoBidFromVault Ledger) (args : SellLotIntoBidFromVaultArgs) (now : ℤ)
      (rest bought : PositionLot)
      → MaySell ctx args
      → args.tickets_to_sell ≢ ctx.seller_lot.ticket_amount
      → split_lot spl runtime ctx args now ≡ ok bought
      → reduced_lot spl runtime ctx.seller_lot args.tickets_to_sell ≡ ok rest
      → Split ctx.seller_lot rest bought args
  unfolding split_lot
  split_lot-bought ctx args now rest bought v ne h k =
      ground (arith, reduced_lot-rest ctx.seller_lot args.tickets_to_sell k)

  pub transfer_tickets_whole :
      (ctx : SellLotIntoBidFromVault Ledger) (args : SellLotIntoBidFromVaultArgs) (now : ℤ)
      {ctx' : SellLotIntoBidFromVault Ledger}
      → MaySell ctx args
      → (args.tickets_to_sell == ctx.seller_lot.ticket_amount) ≡ true
      → transfer_tickets spl runtime ctx args now ≡ ok ctx'
      → HandedOver ctx.seller_lot ctx'.seller_lot args × (ctx'.buyer_lot ≡ ctx.buyer_lot)
  unfolding transfer_tickets
  transfer_tickets_whole ctx args now v all h = ground arith
