-- ===== src/Program/Sell/Conserved.antt =====
-- A sale into a bid neither makes nor loses tickets.
use basingamarket.Base.{
  ◌≡◌, false, inl, inr, arith, ok, err, Bool-cases, Result-cases, >>-eq-ok, >>=-eq-ok, ◌==◌,
}
use basingamarket.Base.Int.{ℤ}
use basingamarket.Program.Error.{Error}
use basingamarket.Program.Runtime.{Runtime, LotAccount}
use basingamarket.Program.Secondary.{SecondaryFeeTransferExecution, execute_secondary_fee_transfers}
use basingamarket.Program.Secondary.Balances.{execute_secondary_fee_transfers-Charged}
use basingamarket.Program.Sell.{
  SellLotIntoBidFromVault, SellLotIntoBidFromVaultArgs, sell_lot_into_bid_from_vault, require_sale,
  transfer_tickets, fees_of, create_split_lot, reduced_lot,
}
use basingamarket.Program.State.{PositionLot}
use basingamarket.Program.Token.{Spl}
use basingamarket.Program.Sell.Parts.{
  Sold, MaySell, require_sale-MaySell, create_split_lot-bought, split_lot-bought,
  transfer_tickets_whole,
}

module _ {Ledger : Type 0} (spl : Spl Ledger) (runtime : Runtime) where
  module _ (ctx : SellLotIntoBidFromVault Ledger) (args : SellLotIntoBidFromVaultArgs)
      (now : ℤ) where
    transfer_tickets_part :
        {ctx' : SellLotIntoBidFromVault Ledger} (made : LotAccount) (rest : PositionLot)
        → (args.tickets_to_sell == ctx.seller_lot.ticket_amount) ≡ false
        → create_split_lot spl runtime ctx args now ≡ ok made
        → reduced_lot spl runtime ctx.seller_lot args.tickets_to_sell ≡ ok rest
        → transfer_tickets spl runtime ctx args now ≡ ok ctx'
        → ctx' ≡ record ctx { seller_lot = rest; buyer_lot = made }
    unfolding transfer_tickets
    transfer_tickets_part made rest part create reduce h = ground arith

    transfer_tickets_unreduced :
        {ctx' : SellLotIntoBidFromVault Ledger} {e : Error} (made : LotAccount)
        → (args.tickets_to_sell == ctx.seller_lot.ticket_amount) ≡ false
        → create_split_lot spl runtime ctx args now ≡ ok made
        → reduced_lot spl runtime ctx.seller_lot args.tickets_to_sell ≡ err e
        → transfer_tickets spl runtime ctx args now ≡ ok ctx'
        → ⊥
    unfolding transfer_tickets
    transfer_tickets_unreduced made part create reduce h = ground arith

    transfer_tickets_uncreated :
        {ctx' : SellLotIntoBidFromVault Ledger} {e : Error}
        → (args.tickets_to_sell == ctx.seller_lot.ticket_amount) ≡ false
        → create_split_lot spl runtime ctx args now ≡ err e
        → transfer_tickets spl runtime ctx args now ≡ ok ctx'
        → ⊥
    unfolding transfer_tickets
    transfer_tickets_uncreated part create h = ground arith

  transfer_tickets-Sold :
      (ctx : SellLotIntoBidFromVault Ledger) (args : SellLotIntoBidFromVaultArgs) (now : ℤ)
      {ctx' : SellLotIntoBidFromVault Ledger}
      → MaySell spl runtime ctx args
      → transfer_tickets spl runtime ctx args now ≡ ok ctx'
      → Sold spl runtime ctx ctx' args
  transfer_tickets-Sold ctx args now v h =
      elim (Bool-cases (args.tickets_to_sell == ctx.seller_lot.ticket_amount)) [
        | inl all ↦ inl (transfer_tickets_whole spl runtime ctx args now v all h)
        | inr part ↦ elim (Result-cases (create_split_lot spl runtime ctx args now)) [
          | inl (made, create) ↦
              elim (Result-cases (reduced_lot spl runtime ctx.seller_lot args.tickets_to_sell)) [
                | inl (rest, reduce) ↦
                    let (bought, split, contents, _, empty) =
                      create_split_lot-bought spl runtime ctx args now create in
                    let e = transfer_tickets_part ctx args now made rest part create reduce h in
                    inr (
                      bought,
                      rw e contents,
                      empty,
                      rw e (
                          split_lot-bought spl runtime ctx args now rest bought v
                            (ground (arith, part)) split reduce),
                    )
                | inr (_, bad) ↦
                    absurd (transfer_tickets_unreduced ctx args now made part create bad h)
              ]
          | inr (_, bad) ↦ absurd (transfer_tickets_uncreated ctx args now part bad h)
        ]
      ]

  -- The context once the fees are paid.
  abbrev after_fees :
      SellLotIntoBidFromVault Ledger
      → SecondaryFeeTransferExecution Ledger
      → SellLotIntoBidFromVault Ledger
  after_fees ctx paid = record ctx {
    global_config = paid.global_config;
    round = paid.round;
    ledger = paid.ledger;
  }

  pub sale_parts :
      (now : ℤ) (ctx : SellLotIntoBidFromVault Ledger) (args : SellLotIntoBidFromVaultArgs)
      {ctx' : SellLotIntoBidFromVault Ledger}
      → sell_lot_into_bid_from_vault spl runtime now ctx args ≡ ok ctx'
      → (paid : SecondaryFeeTransferExecution Ledger) × (require_sale spl runtime now ctx args
          ≡ ok tt)
        × (execute_secondary_fee_transfers spl (fees_of spl runtime now ctx args.gross_usdc)
            ≡ ok paid)
        × (transfer_tickets spl runtime (after_fees ctx paid) args now ≡ ok ctx')
  unfolding sell_lot_into_bid_from_vault
  sale_parts now ctx args h =
      let (checked, h₁) = >>-eq-ok (require_sale spl runtime now ctx args) _ h in
      let (paid, fees, h₂) =
        >>=-eq-ok
          (execute_secondary_fee_transfers spl (fees_of spl runtime now ctx args.gross_usdc)) _
          h₁ in
      (paid, checked, fees, h₂)

  -- A sale into a bid conserves tickets. Either the whole lot goes to the buyer and keeps its tickets,
  -- side and cost, or the seller's lot keeps what was not sold, and a lot account that was empty
  -- holds exactly the tickets sold, on the same side and in the same round, for the buyer.
  pub sell_lot_into_bid_from_vault-Sold :
      (now : ℤ) (ctx : SellLotIntoBidFromVault Ledger) (args : SellLotIntoBidFromVaultArgs)
      {ctx' : SellLotIntoBidFromVault Ledger}
      → sell_lot_into_bid_from_vault spl runtime now ctx args ≡ ok ctx'
      → Sold spl runtime ctx ctx' args
  sell_lot_into_bid_from_vault-Sold now ctx args h =
      let (paid, checked, fees, moved) = sale_parts now ctx args h in
      let (_, _, charged) = execute_secondary_fee_transfers-Charged spl _ fees in
      let v = require_sale-MaySell spl runtime now ctx args checked in
      let v' : MaySell spl runtime (after_fees ctx paid) args = ground (arith, charged.round, v) in
      transfer_tickets-Sold (after_fees ctx paid) args now v' moved
