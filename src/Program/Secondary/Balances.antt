-- ===== src/Program/Secondary/Balances.antt =====
-- Where the fees of a resale go.
use basingamarket.Base.{ℕ, ◌+◌, ◌≤◌, ◌≡◌, ◌≢◌, arith, ok}
use basingamarket.Program.Math.{checked_add, checked_sub, fee_amount, early_flip_fee}
use basingamarket.Base.Words.{i64_saturating_sub}
use basingamarket.Program.Secondary.{
  SecondaryFeeTransferExecution, execute_secondary_fee_transfers, pay, payment, require_accounts,
}
use basingamarket.Program.Settlement.Outcome.{gross_vault}
use basingamarket.Program.Token.{Spl, IsSpl, require_token_account, transfer_checked}
use basingamarket.Program.Token.Moves.{PaidTwo, Moved-PaidTwo, transfer_checked-Moved}

module _ {Ledger : Type 0} (spl : Spl Ledger) where
  -- The fees that were charged, and how the accounts after them come from those before.
  pub record Charged (ctx ctx' : SecondaryFeeTransferExecution Ledger) (resale_fee early_fee : ℕ)
      : Type 0 where
    pub resale : fee_amount ctx.gross_usdc ctx.global_config.value.resale_fee_bps ≡ ok resale_fee
    pub early :
        early_flip_fee ctx.gross_usdc (i64_saturating_sub ctx.now ctx.last_transfer_at)
        ≡ ok early_fee
    pub left : resale_fee + early_fee ≤ ctx.gross_usdc
    pub checked : require_accounts spl ctx ≡ ok tt
    pub paid : pay spl ctx resale_fee early_fee ≡ ok ctx'.ledger
    pub config : ctx'.global_config ≡ record ctx.global_config {
      value = record ctx.global_config.value {
        protocol_fee_accrued_usdc = ctx.global_config.value.protocol_fee_accrued_usdc + resale_fee;
      };
    }
    pub round : ctx'.round ≡ record ctx.round {
      value = record ctx.round.value {
        round_bonus_usdc = ctx.round.value.round_bonus_usdc + early_fee;
      };
    }

  fees :
      (ctx : SecondaryFeeTransferExecution Ledger) {ctx' : SecondaryFeeTransferExecution Ledger}
      → execute_secondary_fee_transfers spl ctx ≡ ok ctx'
      → (resale_fee : ℕ) × (early_fee : ℕ) × (fee_amount ctx.gross_usdc
            ctx.global_config.value.resale_fee_bps
          ≡ ok resale_fee)
        × (early_flip_fee ctx.gross_usdc (i64_saturating_sub ctx.now ctx.last_transfer_at)
            ≡ ok early_fee)
  unfolding execute_secondary_fee_transfers
  fees ctx h = ground arith

  fees-Charged :
      (ctx ctx' : SecondaryFeeTransferExecution Ledger) (resale_fee early_fee : ℕ)
      → execute_secondary_fee_transfers spl ctx ≡ ok ctx'
      → fee_amount ctx.gross_usdc ctx.global_config.value.resale_fee_bps ≡ ok resale_fee
      → early_flip_fee ctx.gross_usdc (i64_saturating_sub ctx.now ctx.last_transfer_at)
        ≡ ok early_fee
      → Charged ctx ctx' resale_fee early_fee
  unfolding execute_secondary_fee_transfers checked_add checked_sub
  fees-Charged ctx ctx' resale_fee early_fee h r e = ground arith

  pub execute_secondary_fee_transfers-Charged :
      (ctx : SecondaryFeeTransferExecution Ledger) {ctx' : SecondaryFeeTransferExecution Ledger}
      → execute_secondary_fee_transfers spl ctx ≡ ok ctx'
      → (resale_fee : ℕ) × (early_fee : ℕ) × Charged ctx ctx' resale_fee early_fee
  execute_secondary_fee_transfers-Charged ctx h =
      let (r, e, p, q) = fees ctx h in (r, e, fees-Charged ctx _ r e h p q)

  -- A fee of zero is not transferred, and a transfer of zero does nothing.
  pub pay-transfers :
      (ctx : SecondaryFeeTransferExecution Ledger) (resale_fee early_fee : ℕ) {l' : Ledger}
      → pay spl ctx resale_fee early_fee ≡ ok l'
      → (l₁ : Ledger) × (transfer_checked spl ctx.ledger (payment spl ctx ctx.fee_vault resale_fee)
          ≡ ok l₁)
        × (transfer_checked spl l₁ (payment spl ctx ctx.round_vault early_fee) ≡ ok l')
  unfolding pay transfer_checked
  pay-transfers ctx resale_fee early_fee h = ground arith

module _ {Ledger : Type 0} (spl : Spl Ledger) (v : IsSpl spl) where
  open spl use {amount_of}

  -- The three authorities of the token accounts differ: the cashier, the round and the configuration.
  pub record IsApart (ctx : SecondaryFeeTransferExecution Ledger) : Type 0 where
    pub payer_round : ctx.cashier ≢ ctx.round.key
    pub payer_config : ctx.cashier ≢ ctx.global_config.key
    pub round_config : ctx.round.key ≢ ctx.global_config.key

  apart_accounts :
      (ctx : SecondaryFeeTransferExecution Ledger)
      → IsApart ctx
      → require_accounts spl ctx ≡ ok tt
      → (ctx.cash_vault ≢ ctx.fee_vault)
        × (ctx.cash_vault ≢ ctx.round_vault)
        × (ctx.fee_vault ≢ ctx.round_vault)
  unfolding require_accounts require_token_account
  apart_accounts ctx a h = ground arith

  -- The fees of a resale are at most its price. The cash vault pays exactly them: the resale fee goes
  -- to the fee vault and is accrued, the early fee goes to the round vault and raises the round's
  -- bonus, and no other balance changes. The cashier, the round and the configuration are different
  -- authorities.
  pub execute_secondary_fee_transfers_balances :
      (ctx : SecondaryFeeTransferExecution Ledger) {ctx' : SecondaryFeeTransferExecution Ledger}
      → IsApart ctx
      → execute_secondary_fee_transfers spl ctx ≡ ok ctx'
      → (resale_fee : ℕ) × (early_fee : ℕ) × (resale_fee + early_fee ≤ ctx.gross_usdc)
        × PaidTwo spl v ctx.ledger ctx'.ledger ctx.cash_vault ctx.fee_vault ctx.round_vault
            resale_fee early_fee
        × (gross_vault ctx'.round.value ≡ gross_vault ctx.round.value + early_fee)
        × (ctx'.global_config.value.protocol_fee_accrued_usdc
            ≡ ctx.global_config.value.protocol_fee_accrued_usdc + resale_fee)
  execute_secondary_fee_transfers_balances ctx {ctx'} a h =
      let (r, e, c) = execute_secondary_fee_transfers-Charged spl ctx h in
      let (cf, cr, fr) = apart_accounts ctx a c.checked in
      let (l₁, e₁, e₂) = pay-transfers spl ctx r e c.paid in
      let paid =
        Moved-PaidTwo spl v _ l₁ _ _ _ _ r e cf cr fr (transfer_checked-Moved spl v _ _ cf e₁)
          (transfer_checked-Moved spl v _ _ cr e₂) in
      (r, e, c.left, paid, ground (arith, c.round), ground (arith, c.config))

  -- If the round vault covers what the round has booked, it still does after the fees of a resale.
  pub execute_secondary_fee_transfers_funded :
      (ctx : SecondaryFeeTransferExecution Ledger) {ctx' : SecondaryFeeTransferExecution Ledger}
      → IsApart ctx
      → gross_vault ctx.round.value ≤ amount_of ctx.ledger ctx.round_vault
      → execute_secondary_fee_transfers spl ctx ≡ ok ctx'
      → gross_vault ctx'.round.value ≤ amount_of ctx'.ledger ctx.round_vault
  execute_secondary_fee_transfers_funded ctx a funded h =
      let (r, e, _, paid, booked, _) = execute_secondary_fee_transfers_balances ctx a h in
      omega (arith, paid.second_credit, booked)
