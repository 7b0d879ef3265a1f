-- ===== src/Program/FreshBuy/Balances.antt =====
-- Where the money of a fresh purchase goes.
use basingamarket.Base.{ℕ, ◌+◌, ◌≤◌, ◌≡◌, ◌≢◌, arith, ok}
use basingamarket.Base.Int.{ℤ}
use basingamarket.Program.Curve.{curve_for_side}
use basingamarket.Program.Curve.Buy.{apply_buy-Bought}
use basingamarket.Program.FreshBuy.{
  FreshBuyExecution, execute_fresh_buy, pay, payment, require_accounts,
}
use basingamarket.Program.FreshBuy.Purchase.{execute_fresh_buy-Purchase}
use basingamarket.Program.Settlement.Outcome.{gross_vault}
use basingamarket.Program.Token.{Spl, IsSpl, require_token_account, transfer_checked}
use basingamarket.Program.Token.Moves.{PaidTwo, Moved-PaidTwo, transfer_checked-Moved}

module _ {Ledger : Type 0} (spl : Spl Ledger) (v : IsSpl spl) where
  open spl use {amount_of}

  -- The three authorities of the token accounts differ: the payer, the round and the configuration.
  pub record IsApart (ctx : FreshBuyExecution Ledger) : Type 0 where
    pub payer_round : ctx.source_authority ≢ ctx.round.key
    pub payer_config : ctx.source_authority ≢ ctx.global_config.key
    pub round_config : ctx.round.key ≢ ctx.global_config.key

  -- Then so do the accounts.
  apart_accounts :
      (ctx : FreshBuyExecution Ledger)
      → IsApart ctx
      → require_accounts spl ctx ≡ ok tt
      → (ctx.source_usdc_account ≢ ctx.round_vault)
        × (ctx.source_usdc_account ≢ ctx.fee_vault)
        × (ctx.round_vault ≢ ctx.fee_vault)
  unfolding require_accounts require_token_account
  apart_accounts ctx a h = ground arith

  -- What a purchase has moved: the payer has paid the round vault and the fee vault.
  abbrev pub HasPaid : FreshBuyExecution Ledger → Ledger → ℕ → ℕ → Type 0
  HasPaid ctx l' net fee =
      PaidTwo spl v ctx.ledger l' ctx.source_usdc_account ctx.round_vault ctx.fee_vault net fee

  -- A fee of zero is not transferred, and a transfer of zero does nothing.
  pay-transfers :
      (ctx : FreshBuyExecution Ledger) (net fee : ℕ) {l' : Ledger}
      → pay spl ctx net fee ≡ ok l'
      → (l₁ : Ledger) × (transfer_checked spl ctx.ledger (payment spl ctx ctx.round_vault net)
          ≡ ok l₁)
        × (transfer_checked spl l₁ (payment spl ctx ctx.fee_vault fee) ≡ ok l')
  unfolding pay transfer_checked
  pay-transfers ctx net fee h = ground arith

  pay-HasPaid :
      (ctx : FreshBuyExecution Ledger) (net fee : ℕ) {l' : Ledger}
      → ctx.source_usdc_account ≢ ctx.round_vault
      → ctx.source_usdc_account ≢ ctx.fee_vault
      → ctx.round_vault ≢ ctx.fee_vault
      → pay spl ctx net fee ≡ ok l'
      → HasPaid ctx l' net fee
  pay-HasPaid ctx net fee {l'} sr sf rf h =
      let (l₁, e₁, e₂) = pay-transfers ctx net fee h in
      Moved-PaidTwo spl v _ l₁ _ _ _ _ net fee sr sf rf (transfer_checked-Moved spl v _ _ sr e₁)
        (transfer_checked-Moved spl v _ _ sf e₂)

  -- A purchase takes the amount that was asked for from the payer, no more and no less: the fee goes
  -- to the fee vault and is accrued, the rest goes to the round vault and is booked to the round, and
  -- no other balance changes. The payer, the round and the configuration are different authorities.
  pub execute_fresh_buy_balances :
      (now : ℤ) (ctx : FreshBuyExecution Ledger) {ctx' : FreshBuyExecution Ledger}
      → IsApart ctx
      → execute_fresh_buy spl now ctx ≡ ok ctx'
      → (net : ℕ) × (fee : ℕ) × (net + fee ≡ ctx.usdc_in)
        × HasPaid ctx ctx'.ledger net fee
        × (gross_vault ctx'.round.value ≡ gross_vault ctx.round.value + net)
        × (ctx'.global_config.value.protocol_fee_accrued_usdc
            ≡ ctx.global_config.value.protocol_fee_accrued_usdc + fee)
  execute_fresh_buy_balances now ctx {ctx'} a h =
      let (fee, net, tickets, curve, p) = execute_fresh_buy-Purchase spl now ctx h in
      let (sr, sf, rf) = apart_accounts ctx a p.checked in
      let bought =
        apply_buy-Bought (curve_for_side ctx.round.value ctx.side) net tickets p.bought in
      (
        net,
        fee,
        p.divided,
        pay-HasPaid ctx net fee sr sf rf p.paid,
        ground (arith, p.round, bought.real),
        ground (arith, p.config),
      )

  -- If the round vault covers what the round has booked, it still does after a purchase.
  pub execute_fresh_buy_funded :
      (now : ℤ) (ctx : FreshBuyExecution Ledger) {ctx' : FreshBuyExecution Ledger}
      → IsApart ctx
      → gross_vault ctx.round.value ≤ amount_of ctx.ledger ctx.round_vault
      → execute_fresh_buy spl now ctx ≡ ok ctx'
      → gross_vault ctx'.round.value ≤ amount_of ctx'.ledger ctx.round_vault
  execute_fresh_buy_funded now ctx {ctx'} a funded h =
      let (net, fee, _, paid, booked, _) = execute_fresh_buy_balances now ctx a h in
      omega (arith, paid.first_credit, booked)
