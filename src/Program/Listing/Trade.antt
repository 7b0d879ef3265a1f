-- ===== src/Program/Listing/Trade.antt =====
-- Listing a lot, taking the listing back, and selling the lot.
use basingamarket.Base.{
  ap, sym, ◌∙◌, ◌+◌, ℕ, ◌*◌, ◌/◌, ◌≤◌, ◌≡◌, ◌≢◌, true, false, arith, ok, inl, inr, Result-cases,
}
use basingamarket.Base.Int.{ℤ, ◌<ℤ◌}
use basingamarket.Program.Guards.{require_round_tradeable}
use basingamarket.Program.Listing.{
  ListingAccounts, ListTicketFromCashierArgs, list_ticket_from_cashier, cancel_listing_from_cashier,
  BuyListingFromVault, BuyListingFromVaultArgs, buy_listing_from_vault, fees_of,
}
use basingamarket.Program.Lot.{listing_total_price}
use basingamarket.Base.Words.{i64_saturating_sub}
use basingamarket.Program.Math.{scale, fee_amount, early_flip_fee}
use basingamarket.Program.Math.Exact.{mul_div-eq}
use basingamarket.Program.Secondary.{SecondaryFeeTransferExecution, execute_secondary_fee_transfers}
use basingamarket.Program.State.{opened}
use basingamarket.Program.Secondary.Balances.{
  Charged, execute_secondary_fee_transfers-Charged, pay-transfers,
}
use basingamarket.Program.Token.{Spl, Transfer, transfer_checked}

-- A listing that went through can be cancelled at the same time by the same cashier: the lot comes out
-- unlisted at price zero, and nothing else has changed.
pub cancel-list :
    (now : ℤ) (ctx : ListingAccounts) (args : ListTicketFromCashierArgs) {ctx' : ListingAccounts}
    → list_ticket_from_cashier now ctx args ≡ ok ctx'
    → cancel_listing_from_cashier now ctx' args.seller_wallet
      ≡ ok (record ctx {
        position_lot = record ctx.position_lot { listed = false; listed_price = 0 };
      })
unfolding list_ticket_from_cashier cancel_listing_from_cashier
cancel-list now ctx args h = ground arith

module _ {Ledger : Type 0} (spl : Spl Ledger) where
  -- A transfer out of the cash vault of the listing's buyer.
  abbrev from_vault : BuyListingFromVault Ledger → ℕ → ℕ → Transfer
  from_vault ctx to usdc = record {
    source = ctx.cash_vault;
    mint = ctx.usdc_mint;
    destination = to;
    authority = ctx.cashier;
    amount = usdc;
    decimals = spl.decimals_of ctx.ledger ctx.usdc_mint;
  }

  -- What a bought listing has checked, and what it did to the lot; `gross` is the price of the lot.
  pub record Sold (now : ℤ) (ctx : BuyListingFromVault Ledger) (args : BuyListingFromVaultArgs)
      (ctx' : BuyListingFromVault Ledger) (gross : ℕ) : Type 0 where
    pub price : gross ≡ ctx.position_lot.ticket_amount * ctx.position_lot.listed_price / scale
    pub listed : ctx.position_lot.listed ≡ true
    pub unclaimed : ctx.position_lot.claimed ≡ false
    pub other_owner : ctx.position_lot.current_owner ≢ args.buyer_wallet
    pub affordable : ctx.position_lot.listed_price ≤ args.max_price_per_ticket
    pub is_open : ctx.round.value.status ≡ opened
    pub running : now <ℤ ctx.round.value.end_at
    pub lot : ctx'.position_lot ≡ record ctx.position_lot {
      current_owner = args.buyer_wallet;
      listed = false;
      listed_price = 0;
      last_transfer_at = now;
    }

  module _ (now : ℤ) (ctx : BuyListingFromVault Ledger) (args : BuyListingFromVaultArgs)
      {ctx' : BuyListingFromVault Ledger}
      (h : buy_listing_from_vault spl now ctx args ≡ ok ctx') where
    price_of : (gross : ℕ) × (listing_total_price ctx.position_lot ≡ ok gross)
    unfolding buy_listing_from_vault
    price_of = ground arith

    fees_taken :
        (gross : ℕ)
        → listing_total_price ctx.position_lot ≡ ok gross
        → (paid : SecondaryFeeTransferExecution Ledger) × (execute_secondary_fee_transfers spl
              (fees_of spl now ctx gross)
            ≡ ok paid)
    unfolding buy_listing_from_vault
    fees_taken gross p =
        elim (Result-cases (execute_secondary_fee_transfers spl (fees_of spl now ctx gross))) [
          | inl paid ↦ paid
          | inr (e, bad) ↦ absurd (ground (arith, h, bad))
        ]

  -- How the fees on the price `gross` of a listing were taken: out of the cash vault, the resale fee to
  -- the fee vault and accrued, the early fee, by the time since the last transfer, to the round vault
  -- and added to the bonus. All else of the round and of the configuration stays.
  pub record Taken (now : ℤ) (ctx ctx' : BuyListingFromVault Ledger)
      (gross resale_fee early_fee : ℕ) : Type 0 where
    pub resale : fee_amount gross ctx.global_config.value.resale_fee_bps ≡ ok resale_fee
    pub early :
        early_flip_fee gross (i64_saturating_sub now ctx.position_lot.last_transfer_at)
        ≡ ok early_fee
    pub below : resale_fee + early_fee ≤ gross
    pub middle : Ledger
    pub to_protocol :
        transfer_checked spl ctx.ledger (from_vault ctx ctx.fee_vault resale_fee) ≡ ok middle
    pub to_round :
        transfer_checked spl middle (from_vault ctx ctx.round_vault early_fee) ≡ ok ctx'.ledger
    pub config : ctx'.global_config ≡ record ctx.global_config {
      value = record ctx.global_config.value {
        protocol_fee_accrued_usdc = ctx.global_config.value.protocol_fee_accrued_usdc + resale_fee;
      };
    }
    pub round : ctx'.round ≡ record ctx.round {
      value = record ctx.round.value {
        round_bonus_usdc = ctx.round.value.round_bonus_usdc + early_fee;
      };
    }

  parts-Sold :
      (now : ℤ) (ctx : BuyListingFromVault Ledger) (args : BuyListingFromVaultArgs)
      (ctx' : BuyListingFromVault Ledger) (gross : ℕ) (paid : SecondaryFeeTransferExecution Ledger)
      → buy_listing_from_vault spl now ctx args ≡ ok ctx'
      → listing_total_price ctx.position_lot ≡ ok gross
      → execute_secondary_fee_transfers spl (fees_of spl now ctx gross) ≡ ok paid
      → Sold now ctx args ctx' gross
        × (ctx'.global_config ≡ paid.global_config)
        × (ctx'.round ≡ paid.round)
        × (ctx'.ledger ≡ paid.ledger)
  unfolding buy_listing_from_vault listing_total_price require_round_tradeable
  parts-Sold now ctx args ctx' gross paid h p q = ground (
    arith,
    mul_div-eq ctx.position_lot.ticket_amount ctx.position_lot.listed_price scale {q = gross},
  )

  taken :
      (now : ℤ) (ctx ctx' : BuyListingFromVault Ledger) (gross resale_fee early_fee : ℕ)
      (paid : SecondaryFeeTransferExecution Ledger)
      → Charged spl (fees_of spl now ctx gross) paid resale_fee early_fee
      → ctx'.global_config ≡ paid.global_config
      → ctx'.round ≡ paid.round
      → ctx'.ledger ≡ paid.ledger
      → Taken now ctx ctx' gross resale_fee early_fee
  taken now ctx ctx' gross resale_fee early_fee paid c config round ledger =
      let (l₁, first, second) =
        pay-transfers spl (fees_of spl now ctx gross) resale_fee early_fee c.paid in
      record {
        resale = c.resale;
        early = c.early;
        below = c.left;
        middle = l₁;
        to_protocol = first;
        to_round = second ∙ ap ok (sym ledger);
        config = config ∙ c.config;
        round = round ∙ c.round;
      }

  -- A listed lot is bought only while it is listed and unclaimed, by somebody else than its owner, at
  -- a price within the buyer's limit, in an open round before its end. The lot changes its owner, is
  -- unlisted, and keeps its tickets. Its price is that of all its tickets, rounded down; the resale fee
  -- and the early fee are those of this price, are at most the price together, and are paid out of the
  -- cash vault, the first to the fee vault and accrued, the second to the round vault and its bonus.
  pub buy_listing_from_vault-Sold :
      (now : ℤ) (ctx : BuyListingFromVault Ledger) (args : BuyListingFromVaultArgs)
      {ctx' : BuyListingFromVault Ledger}
      → buy_listing_from_vault spl now ctx args ≡ ok ctx'
      → (gross : ℕ) × (resale_fee : ℕ) × (early_fee : ℕ) × Taken now ctx ctx' gross resale_fee
          early_fee
        × Sold now ctx args ctx' gross
  buy_listing_from_vault-Sold now ctx args {ctx'} h =
      let (gross, p) = price_of now ctx args h in
      let (paid, q) = fees_taken now ctx args h gross p in
      let (sold, config, round, ledger) = parts-Sold now ctx args ctx' gross paid h p q in
      let (resale_fee, early_fee, c) =
        execute_secondary_fee_transfers-Charged spl (fees_of spl now ctx gross) q in
      (
        gross,
        resale_fee,
        early_fee,
        taken now ctx ctx' gross resale_fee early_fee paid c config round ledger,
        sold,
      )
