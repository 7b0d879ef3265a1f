-- ===== src/Domain/Settlement/Outcome.antt =====
-- What `resolve_round` of crates/domain/src/crypto_rounds/settlement.rs leaves when it returns a
-- winner.
use native.Mathlib.Nat.{div-mul-le_self}
use basingamarket.Base.{◌+◌, ◌*◌, ◌/◌, ◌≤◌, ◌<◌, ◌≡◌, some, arith, ok}
use basingamarket.Domain.Amounts.{scale, checked_mul_div, checked_mul, checked_div}
use basingamarket.Domain.Settlement.{resolve_round, settle, settle_vault, vault_of, pay_winners}
use basingamarket.Domain.State.{Amount, Side, MarketStreamConfig, RoundState, curve, resolved}

pub checked_mul_div-eq :
    (a b d : Amount) {q : Amount} → checked_mul_div a b d ≡ ok q → (q ≡ a * b / d) × (0 < d)
unfolding checked_mul_div checked_mul checked_div
checked_mul_div-eq a b d h = ground arith

abbrev pub gross_vault : RoundState → Amount
gross_vault round = round.up_curve.real_usdc + round.down_curve.real_usdc + round.round_bonus_usdc

-- The round is settled for `side`.
pub record Settled (round round' : RoundState) (side : Side) : Type 0 where
  pub status : round'.status ≡ resolved
  pub winning : round'.winning_side ≡ some side
  pub split : round'.settlement_vault + round'.protocol_vault_amount ≡ gross_vault round
  pub payout :
      round'.payout_per_ticket * (curve round side).ticket_supply ≤ round'.settlement_vault * scale
  pub up : round'.up_curve ≡ round.up_curve
  pub down : round'.down_curve ≡ round.down_curve

pay_winners-Settled :
    (round : RoundState) (config : MarketStreamConfig) (side won : Side) {round' : RoundState}
    → pay_winners round config side (gross_vault round) ≡ (round', ok (some won))
    → Settled round round' side × (won ≡ side)
unfolding pay_winners
pay_winners-Settled round config side won {round'} h = ground (
  arith,
  checked_mul_div-eq round'.settlement_vault scale (curve round side).ticket_supply
      {q = round'.payout_per_ticket},
  div-mul-le_self (round'.settlement_vault * scale) (curve round side).ticket_supply,
)

settle-Settled :
    (round : RoundState) (config : MarketStreamConfig) (side won : Side) {round' : RoundState}
    → settle round config side ≡ (round', ok (some won))
    → Settled round round' side × (won ≡ side)
unfolding settle settle_vault vault_of
settle-Settled round config side won {round'} h =
    ground (arith, pay_winners-Settled round config side won {round' = round'})

-- A resolution that returns a winner has settled the round for that side: its vault is divided without
-- rest between the winners and the protocol, and the payout rate on all winning tickets is covered.
pub resolve_round-Settled :
    (round : RoundState) (end_price : Amount) (config : MarketStreamConfig) (side : Side)
    {round' : RoundState}
    → resolve_round round end_price config ≡ (round', ok (some side))
    → Settled round round' side
unfolding resolve_round
resolve_round-Settled round end_price config side {round'} h = ground (
  arith,
  settle-Settled (record round { end_price = some end_price }) config Side.up side
      {round' = round'},
  settle-Settled (record round { end_price = some end_price }) config Side.down side
      {round' = round'},
)
