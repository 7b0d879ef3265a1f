-- ===== src/Program/Settlement/Frame.antt =====
-- What the settlement instructions leave alone: the curves, the bonus and the window of the round.
use basingamarket.Base.{ℕ, ◌≡◌, ◌≢◌, arith, ok}
use basingamarket.Base.Int.{ℤ}
use basingamarket.Program.Settlement.{
  SettlementAccounts, ResolveRoundArgs, apply_round_resolution, resolve_with_winner,
  resolve_without_winner, close_round, resolve_round, void_round,
}
use basingamarket.Program.Settlement.Again.{resolve_round-HasPassed}
use basingamarket.Program.State.{Round, GlobalConfig, opened}

-- The same trading: both curves, the bonus, the market, the window and the starting price.
pub record SameTrading (r r' : Round) : Type 0 where
  pub up : r'.up ≡ r.up
  pub down : r'.down ≡ r.down
  pub bonus : r'.round_bonus_usdc ≡ r.round_bonus_usdc
  pub market : r'.market ≡ r.market
  pub id : r'.round_id ≡ r.round_id
  pub start : r'.start_at ≡ r.start_at
  pub batch : r'.batch_until ≡ r.batch_until
  pub end : r'.end_at ≡ r.end_at
  pub start_price : r'.start_price ≡ r.start_price
  pub over : r'.status ≢ opened

pub close_round-SameTrading :
    (now : ℤ) (ctx : SettlementAccounts) {ctx' : SettlementAccounts}
    → close_round now ctx ≡ ok ctx'
    → SameTrading ctx.round ctx'.round
unfolding close_round
close_round-SameTrading now ctx h = ground arith

pub void_round-SameTrading :
    (ctx : SettlementAccounts) (args : ResolveRoundArgs) {ctx' : SettlementAccounts}
    → void_round ctx args ≡ ok ctx'
    → SameTrading ctx.round ctx'.round
unfolding void_round
void_round-SameTrading ctx args h = ground arith

apply_round_resolution-SameTrading :
    (r : Round) (c : GlobalConfig) (e : ℕ) {r' : Round} {c' : GlobalConfig}
    → apply_round_resolution r c e ≡ ok (r', c')
    → SameTrading r r'
unfolding apply_round_resolution resolve_with_winner resolve_without_winner
apply_round_resolution-SameTrading r c e h = ground arith

pub resolve_round-SameTrading :
    (now : ℤ) (ctx : SettlementAccounts) (args : ResolveRoundArgs) {ctx' : SettlementAccounts}
    → resolve_round now ctx args ≡ ok ctx'
    → SameTrading ctx.round ctx'.round
resolve_round-SameTrading now ctx args h =
    let (_, applied, _) = resolve_round-HasPassed now ctx args h in
    let same = apply_round_resolution-SameTrading _ ctx.global_config args.end_price applied in
    record {
      up = same.up;
      down = same.down;
      bonus = same.bonus;
      market = same.market;
      id = same.id;
      start = same.start;
      batch = same.batch;
      end = same.end;
      start_price = same.start_price;
      over = same.over;
    }
