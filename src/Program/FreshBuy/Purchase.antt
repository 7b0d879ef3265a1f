-- ===== src/Program/FreshBuy/Purchase.antt =====
-- What a fresh purchase that goes through has computed, checked and written.
use basingamarket.Base.{ℕ, ◌+◌, ◌≤◌, ◌≡◌, false, arith, ok}
use basingamarket.Base.Int.{ℤ, ◌<ℤ◌}
use basingamarket.Program.Curve.{curve_for_side, set_curve_for_side, quote_buy, apply_buy}
use basingamarket.Program.FreshBuy.{FreshBuyExecution, execute_fresh_buy, pay, require_accounts}
use basingamarket.Program.Guards.{require_not_paused, require_live_trading}
use basingamarket.Program.Lot.{init_lot}
use basingamarket.Program.Math.{fee_amount, checked_add, checked_sub}
use basingamarket.Program.State.{Curve, opened}
use basingamarket.Program.Token.{Spl}

module _ {Ledger : Type 0} (spl : Spl Ledger) where
  -- The amounts of a purchase, and how the accounts after it come from those before.
  pub record Purchase (now : ℤ) (ctx ctx' : FreshBuyExecution Ledger) (fee net_usdc tickets_out : ℕ)
      (curve : Curve) : Type 0 where
    pub unpaused : ctx.global_config.value.paused ≡ false
    pub status : ctx.round.value.status ≡ opened
    pub begun : ctx.round.value.batch_until <ℤ now
    pub running : now <ℤ ctx.round.value.end_at
    pub charged : fee_amount ctx.usdc_in ctx.global_config.value.buy_fee_bps ≡ ok fee
    pub divided : net_usdc + fee ≡ ctx.usdc_in
    pub quoted : quote_buy (curve_for_side ctx.round.value ctx.side) net_usdc ≡ ok tickets_out
    pub enough : ctx.min_tickets_out ≤ tickets_out
    pub checked : require_accounts spl ctx ≡ ok tt
    pub paid : pay spl ctx net_usdc fee ≡ ok ctx'.ledger
    pub bought : apply_buy (curve_for_side ctx.round.value ctx.side) net_usdc tickets_out ≡ ok curve
    pub config : ctx'.global_config ≡ record ctx.global_config {
      value = record ctx.global_config.value {
        protocol_fee_accrued_usdc = ctx.global_config.value.protocol_fee_accrued_usdc + fee;
      };
    }
    pub round :
        ctx'.round ≡ record ctx.round { value = set_curve_for_side ctx.round.value ctx.side curve }
    pub tickets : ctx'.position_lot.ticket_amount ≡ tickets_out
    pub cost : ctx'.position_lot.usdc_in ≡ net_usdc
    pub owner : ctx'.position_lot.current_owner ≡ ctx.position_owner
    pub side : ctx'.position_lot.side ≡ ctx.side
    pub lot_round : ctx'.position_lot.round ≡ ctx.round.key
    pub unlisted : ctx'.position_lot.listed ≡ false
    pub unclaimed : ctx'.position_lot.claimed ≡ false
    pub since : ctx'.position_lot.last_transfer_at ≡ now

  amounts :
      (now : ℤ) (ctx : FreshBuyExecution Ledger) {ctx' : FreshBuyExecution Ledger}
      → execute_fresh_buy spl now ctx ≡ ok ctx'
      → (fee : ℕ) × (net_usdc : ℕ) × (tickets_out : ℕ) × (curve : Curve) × (fee_amount ctx.usdc_in
            ctx.global_config.value.buy_fee_bps
          ≡ ok fee)
        × (checked_sub ctx.usdc_in fee ≡ ok net_usdc)
        × (quote_buy (curve_for_side ctx.round.value ctx.side) net_usdc ≡ ok tickets_out)
        × (apply_buy (curve_for_side ctx.round.value ctx.side) net_usdc tickets_out ≡ ok curve)
  unfolding execute_fresh_buy
  amounts now ctx h = ground arith

  amounts-Purchase :
      (now : ℤ) (ctx ctx' : FreshBuyExecution Ledger) (fee net_usdc tickets_out : ℕ) (curve : Curve)
      → execute_fresh_buy spl now ctx ≡ ok ctx'
      → fee_amount ctx.usdc_in ctx.global_config.value.buy_fee_bps ≡ ok fee
      → checked_sub ctx.usdc_in fee ≡ ok net_usdc
      → quote_buy (curve_for_side ctx.round.value ctx.side) net_usdc ≡ ok tickets_out
      → apply_buy (curve_for_side ctx.round.value ctx.side) net_usdc tickets_out ≡ ok curve
      → Purchase now ctx ctx' fee net_usdc tickets_out curve
  unfolding execute_fresh_buy require_not_paused require_live_trading checked_sub checked_add
      init_lot
  amounts-Purchase now ctx ctx' fee net_usdc tickets_out curve h f n q b = ground arith

  pub execute_fresh_buy-Purchase :
      (now : ℤ) (ctx : FreshBuyExecution Ledger) {ctx' : FreshBuyExecution Ledger}
      → execute_fresh_buy spl now ctx ≡ ok ctx'
      → (fee : ℕ) × (net_usdc : ℕ) × (tickets_out : ℕ) × (curve : Curve) × Purchase now ctx ctx' fee
          net_usdc tickets_out curve
  execute_fresh_buy-Purchase now ctx h =
      let (fee, net_usdc, tickets_out, curve, f, n, q, b) = amounts now ctx h in
      (
        fee,
        net_usdc,
        tickets_out,
        curve,
        amounts-Purchase now ctx _ fee net_usdc tickets_out curve h f n q b,
      )
