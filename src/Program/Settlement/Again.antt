-- ===== src/Program/Settlement/Again.antt =====
-- `close_round` does not look at the status, so a resolved round can be closed and resolved again,
-- and `void_round` voids a round that was resolved.
use basingamarket.Base.{ℕ, ◌+◌, ◌≤◌, ◌≡◌, ◌⊎◌, refl, arith, ok}
use basingamarket.Base.Int.{ℤ, ◌≤ℤ◌}
use basingamarket.Base.Words.{u64_max}
use basingamarket.Program.Math.{checked_add}
use basingamarket.Program.Guards.{require_settlement_actor}
use basingamarket.Program.Settlement.{
  require_snapshot, SettlementAccounts, ResolveRoundArgs, apply_round_resolution,
  resolve_with_winner, resolve_without_winner, close_round, resolve_round, void_round, voided_round,
}
use basingamarket.Program.State.{GlobalConfig, Round, opened, resolved, closed, voided}

-- the books of the protocol after the same amount is accrued once more
abbrev accrue : GlobalConfig → ℕ → GlobalConfig
accrue c n = record c { protocol_fee_accrued_usdc = c.protocol_fee_accrued_usdc + n }

apply_round_resolution_again :
    (r : Round) (c : GlobalConfig) (e : ℕ) {r' : Round} {c' : GlobalConfig}
    → apply_round_resolution r c e ≡ ok (r', c')
    → r'.status ≡ resolved
    → c'.protocol_fee_accrued_usdc + r'.protocol_vault_amount ≤ u64_max
    → apply_round_resolution (record r' { status = closed }) c' e
      ≡ ok (r', accrue c' r'.protocol_vault_amount)
unfolding apply_round_resolution resolve_with_winner resolve_without_winner checked_add
apply_round_resolution_again r c e {r'} {c'} h s fits = ground arith

-- What resolving leaves alone.
pub record IsSameRound (r r' : Round) : Type 0 where
  pub end_at : r'.end_at ≡ r.end_at
  pub start_price : r'.start_price ≡ r.start_price
  pub symbol : r'.binance_symbol ≡ r.binance_symbol
  pub interval : r'.binance_interval ≡ r.binance_interval
  pub open_time : r'.binance_open_time_ms ≡ r.binance_open_time_ms
  pub end_price : r'.end_price ≡ r.end_price
  pub close_time : r'.binance_close_time_ms ≡ r.binance_close_time_ms

apply_round_resolution_frame :
    (r : Round) (c : GlobalConfig) (e : ℕ) {r' : Round} {c' : GlobalConfig}
    → apply_round_resolution r c e ≡ ok (r', c')
    → IsSameRound r r'
      × (c'.admin ≡ c.admin)
      × (c'.trusted_settlement_actor ≡ c.trusted_settlement_actor)
unfolding apply_round_resolution resolve_with_winner resolve_without_winner checked_add
apply_round_resolution_frame r c e h = ground arith

abbrev pub snapshotted : Round → ResolveRoundArgs → Round
snapshotted r args = record r {
  end_price = args.end_price;
  binance_close_time_ms = args.binance_close_time_ms;
}

abbrev reopened : SettlementAccounts → SettlementAccounts
reopened ctx = record ctx { round = record ctx.round { status = closed } }

-- What a call of `resolve_round` that goes through has checked.
pub record HasPassed (now : ℤ) (ctx : SettlementAccounts) (args : ResolveRoundArgs) : Type 0 where
  actor : require_settlement_actor ctx.global_config ctx.authority ≡ ok tt
  unresolved : (ctx.round.status ≡ opened) ⊎ (ctx.round.status ≡ closed)
  ended : ctx.round.end_at ≤ℤ now
  snapshot : require_snapshot ctx.round args ≡ ok tt

pub resolve_round-HasPassed :
    (now : ℤ) (ctx : SettlementAccounts) (args : ResolveRoundArgs) {done : SettlementAccounts}
    → resolve_round now ctx args ≡ ok done
    → HasPassed now ctx args
      × (apply_round_resolution (snapshotted ctx.round args) ctx.global_config args.end_price
          ≡ ok (done.round, done.global_config))
      × (done.authority ≡ ctx.authority)
unfolding resolve_round
resolve_round-HasPassed now ctx args h = ground arith

HasPassed-resolve_round :
    (now : ℤ) (ctx : SettlementAccounts) (args : ResolveRoundArgs) (r : Round) (c : GlobalConfig)
    → HasPassed now ctx args
    → apply_round_resolution (snapshotted ctx.round args) ctx.global_config args.end_price
      ≡ ok (r, c)
    → resolve_round now ctx args ≡ ok (record ctx { round = r; global_config = c })
unfolding resolve_round
HasPassed-resolve_round now ctx args r c v h = ground arith

reopened-HasPassed :
    (now later : ℤ) (ctx : SettlementAccounts) (args : ResolveRoundArgs) (done : SettlementAccounts)
    → now ≤ℤ later
    → HasPassed now ctx args
    → IsSameRound (snapshotted ctx.round args) done.round
    → done.authority ≡ ctx.authority
    → done.global_config.admin ≡ ctx.global_config.admin
    → done.global_config.trusted_settlement_actor ≡ ctx.global_config.trusted_settlement_actor
    → HasPassed later (reopened done) args
unfolding require_snapshot require_settlement_actor
reopened-HasPassed now later ctx args done t v same a b c = ground arith

resnapshotted :
    (ctx : SettlementAccounts) (args : ResolveRoundArgs) (done : SettlementAccounts)
    → IsSameRound (snapshotted ctx.round args) done.round
    → snapshotted (reopened done).round args ≡ (reopened done).round
resnapshotted ctx args done same = ground arith

reopened-close_round :
    (later : ℤ) (done : SettlementAccounts) (args : ResolveRoundArgs)
    → HasPassed later (reopened done) args
    → close_round later done ≡ ok (reopened done)
unfolding close_round
reopened-close_round later done args v = ground arith

-- After a resolution that settled the round, the settlement actor can close the round and resolve it
-- again with the same arguments, at any later time: the round comes out as before, and the protocol's
-- share is accrued a second time.
pub resolve_round_again :
    (now later : ℤ) (ctx : SettlementAccounts) (args : ResolveRoundArgs) {done : SettlementAccounts}
    → now ≤ℤ later
    → resolve_round now ctx args ≡ ok done
    → done.round.status ≡ resolved
    → done.global_config.protocol_fee_accrued_usdc + done.round.protocol_vault_amount ≤ u64_max
    → (close_round later done ≡ ok (reopened done))
      × (resolve_round later (reopened done) args
          ≡ ok (record done {
            global_config = accrue done.global_config done.round.protocol_vault_amount;
          }))
resolve_round_again now later ctx args {done} t h s fits =
    let (passed, applied, signer) = resolve_round-HasPassed now ctx args h in
    let (same, admin, actor) =
      apply_round_resolution_frame _ ctx.global_config args.end_price applied in
    let repassed = reopened-HasPassed now later ctx args done t passed same signer admin actor in
    let again = apply_round_resolution_again _ ctx.global_config args.end_price applied s fits in
    (
      reopened-close_round later done args repassed,
      HasPassed-resolve_round later (reopened done) args _ _ repassed
          (rw (resnapshotted ctx args done same) again),
    )

resolved-void_round :
    (now : ℤ) (ctx : SettlementAccounts) (args : ResolveRoundArgs) (done : SettlementAccounts)
    → HasPassed now ctx args
    → IsSameRound (snapshotted ctx.round args) done.round
    → done.authority ≡ ctx.authority
    → done.global_config.admin ≡ ctx.global_config.admin
    → done.global_config.trusted_settlement_actor ≡ ctx.global_config.trusted_settlement_actor
    → void_round done args ≡ ok (record done { round = voided_round done.round })
unfolding void_round require_snapshot require_settlement_actor
resolved-void_round now ctx args done v same a b c = ground arith

-- After a round was resolved the same actor can void it with the same arguments, winners' claims and
-- all: the vault that was set aside is zeroed, both curves stay as they were resolved, and the
-- protocol keeps the share that it has accrued.
pub void_round_resolved :
    (now : ℤ) (ctx : SettlementAccounts) (args : ResolveRoundArgs) {done : SettlementAccounts}
    → resolve_round now ctx args ≡ ok done
    → (after : SettlementAccounts) × (void_round done args ≡ ok after)
      × (after.round.status ≡ voided)
      × (after.round.settlement_vault ≡ 0)
      × (after.round.up ≡ done.round.up)
      × (after.round.down ≡ done.round.down)
      × (after.global_config.protocol_fee_accrued_usdc
          ≡ done.global_config.protocol_fee_accrued_usdc)
void_round_resolved now ctx args {done} h =
    let (passed, applied, signer) = resolve_round-HasPassed now ctx args h in
    let (same, admin, actor) =
      apply_round_resolution_frame _ ctx.global_config args.end_price applied in
    (
      record done { round = voided_round done.round },
      resolved-void_round now ctx args done passed same signer admin actor,
      refl,
      refl,
      refl,
      refl,
      refl,
    )
