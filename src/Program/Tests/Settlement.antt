-- ===== src/Program/Tests/Settlement.antt =====
-- A round from its opening to its settlement, and the properties of settling at it.
use basingamarket.Base.{◌+◌, ◌≤◌, ◌≡◌, ◌⊎◌, refl, true, arith, ok, is_ok, bytes_eq}
use basingamarket.Base.Int.{pos, ◌*ℤ◌, ◌-ℤ◌}
use basingamarket.Program.Admin.{OpenRound, OpenRoundArgs, open_round}
use basingamarket.Program.Curve.{quote_buy, apply_buy, curve_for_side}
use basingamarket.Program.FreshBuy.{execute_fresh_buy, pay, require_accounts}
use basingamarket.Program.Guards.{
  require_not_paused, require_live_trading, require_settlement_actor,
}
use basingamarket.Program.Lifecycle.{
  World, fresh_buy, close, Reach, here, next, settlement_of, settled,
}
use basingamarket.Program.Lifecycle.Books.{Reach-books}
use basingamarket.Program.Lifecycle.Status.{Later, Reach-Later}
use basingamarket.Program.Lot.{init_lot}
use basingamarket.Program.Math.{
  fee_amount, mul_div, checked_add, checked_sub, seconds_to_millis, expected_close_time_ms,
}
use basingamarket.Program.Settlement.{
  SettlementAccounts, ResolveRoundArgs, apply_round_resolution, resolve_with_winner, close_round,
  resolve_round, require_snapshot, voided_round, void_round,
}
use basingamarket.Program.Settlement.Again.{resolve_round_again, void_round_resolved}
use basingamarket.Program.Settlement.Outcome.{apply_round_resolution_outcome, IsResolved, VoidCause}
use basingamarket.Program.Settlement.Total.{apply_round_resolution_total, IsInRange}
use basingamarket.Program.State.{GlobalConfig, Round, RoundOutcome, Side, closed, resolved, voided}
use basingamarket.Program.Tests.Data.{
  Balances, toy, config, market, round, sold_round, round_account, config_account, balances, symbol,
  interval,
}
use basingamarket.Program.Token.{require_token_account, transfer_checked}
use basingamarket.Program.Tests.Trading.{purchase, purchased, purchased-eq}

abbrev pub opening : OpenRound
opening = record {
  global_config = config;
  market_config = record { key = 6; value = market };
  authority = 5;
  bump = 253;
}

abbrev pub opening_args : OpenRoundArgs
opening_args = record {
  round_id = 1;
  start_at = pos 100;
  batch_until = pos 110;
  end_at = pos 200;
  start_price = 2000;
  binance_symbol = symbol;
  binance_interval = interval;
  binance_open_time_ms = pos 100000;
}

round_opens : open_round opening opening_args ≡ ok round
unfolding open_round require_settlement_actor seconds_to_millis bytes_eq ◌*ℤ◌
round_opens = refl

-- The world at the opening, after the purchase, and after the round was closed.
abbrev opened_world : World Balances
opened_world = record { global_config = config_account; round = round_account; ledger = balances }

abbrev bought_world : World Balances
bought_world = record {
  global_config = purchased.global_config;
  round = purchased.round;
  ledger = purchased.ledger;
}

abbrev closing : SettlementAccounts
closing = record (settlement_of bought_world 5) {
  round = record bought_world.round.value { status = closed };
}

purchase_closes : close_round (pos 200) (settlement_of bought_world 5) ≡ ok closing
unfolding close_round require_settlement_actor execute_fresh_buy require_not_paused
    require_live_trading fee_amount checked_sub checked_add quote_buy apply_buy require_accounts pay
    init_lot mul_div require_token_account transfer_checked
purchase_closes = refl

-- A purchase, then the end of the round.
trade_and_close : Reach toy opened_world (settled bought_world closing)
trade_and_close =
    next (next here (fresh_buy (pos 120) purchase purchased refl purchased-eq refl))
      (close (pos 200) 5 closing purchase_closes refl)

Reach-books_example :
    let curve = curve_for_side (settled bought_world closing).round.value Side.up in
    (curve.virtual_usdc ≡ 50000000000 + curve.real_usdc)
    × (curve.virtual_ticket + curve.ticket_supply ≡ 100000000000)
    × (curve.ticket_supply ≤ 100000000000)
Reach-books_example = Reach-books toy opening opening_args Side.up round_opens trade_and_close

Reach-Later_example : Later round (settled bought_world closing).round.value
Reach-Later_example = Reach-Later toy trade_and_close

-- The settled round: 300 dollars less the fee of 3, for 200 tickets.
abbrev won_round : Round
won_round = record sold_round {
  status = resolved;
  winning_side = RoundOutcome.up;
  settlement_vault = 297000000;
  payout_per_ticket = 1485000;
  protocol_vault_amount = 3000000;
}

abbrev charged : GlobalConfig
charged = record config { protocol_fee_accrued_usdc = 3000000 }

won : apply_round_resolution sold_round config 2100 ≡ ok (won_round, charged)
unfolding apply_round_resolution resolve_with_winner fee_amount mul_div checked_add checked_sub
won = refl

apply_round_resolution_outcome_example :
    IsResolved sold_round config 2100 won_round charged
    ⊎ (VoidCause sold_round config 2100
        × (won_round ≡ voided_round sold_round)
        × (charged ≡ config))
apply_round_resolution_outcome_example = apply_round_resolution_outcome sold_round config 2100 won

-- A price that stands still voids the round.
unmoved : apply_round_resolution sold_round config 2000 ≡ ok (voided_round sold_round, config)
unfolding apply_round_resolution
unmoved = refl

sold_round-IsInRange : IsInRange sold_round config
sold_round-IsInRange = record { fee = omega arith; scaled = omega arith; accrued = omega arith }

apply_round_resolution_total_example : is_ok (apply_round_resolution sold_round config 1900) ≡ true
apply_round_resolution_total_example =
    apply_round_resolution_total sold_round config 1900 sold_round-IsInRange

abbrev pub settling : SettlementAccounts
settling = record { global_config = config; round = sold_round; authority = 5 }

abbrev pub settling_args : ResolveRoundArgs
settling_args = record {
  end_price = 2100;
  binance_symbol = symbol;
  binance_interval = interval;
  binance_open_time_ms = pos 100000;
  binance_close_time_ms = pos 199999;
}

abbrev settled_accounts : SettlementAccounts
settled_accounts = record settling {
  round = record won_round { end_price = 2100; binance_close_time_ms = pos 199999 };
  global_config = charged;
}

settles : resolve_round (pos 201) settling settling_args ≡ ok settled_accounts
unfolding resolve_round require_settlement_actor require_snapshot expected_close_time_ms
    seconds_to_millis apply_round_resolution resolve_with_winner fee_amount mul_div checked_add
    checked_sub bytes_eq ◌*ℤ◌ ◌-ℤ◌
settles = refl

-- The protocol's 3 dollars are accrued twice.
resolve_round_again_example :
    let again = record settled_accounts {
      round = record settled_accounts.round { status = closed };
    } in
    (close_round (pos 300) settled_accounts ≡ ok again)
    × (resolve_round (pos 300) again settling_args
        ≡ ok (record settled_accounts {
          global_config = record charged { protocol_fee_accrued_usdc = 3000000 + 3000000 };
        }))
resolve_round_again_example =
    resolve_round_again (pos 201) (pos 300) settling settling_args (ground arith) settles refl
      (omega arith)

void_round_resolved_example :
    (after : SettlementAccounts) × (void_round settled_accounts settling_args ≡ ok after)
    × (after.round.status ≡ voided)
    × (after.round.settlement_vault ≡ 0)
    × (after.round.up ≡ sold_round.up)
    × (after.round.down ≡ sold_round.down)
    × (after.global_config.protocol_fee_accrued_usdc ≡ 3000000)
void_round_resolved_example = void_round_resolved (pos 201) settling settling_args settles
