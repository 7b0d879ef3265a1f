-- ===== src/Domain/Agreement/Settlements.antt =====
-- The program and the services settle a round alike.
use basingamarket.Base.{
  some, ltb, ◌==◌, ◌||◌, if◌then◌else◌, ◌≡◌, ◌⊎◌, ◌≢◌, inl, inr, arith, ok, Bool-cases,
}
use basingamarket.Domain.Agreement.{curve_of, status_of, winner_of}
use basingamarket.Domain.Amounts.{checked_mul, checked_div, checked_mul_div, calculate_fee}
use basingamarket.Domain.Settlement.{
  resolve_round, settle, settle_vault, vault_of, pay_winners, resolve_outcome, ensure_round_active,
}
use basingamarket.Domain.State.{Amount, MarketStreamConfig, RoundState, Side, opened, closed}
use basingamarket.Program.Curve.{curve_for_side}
use basingamarket.Program.Error.{AnchorResult}
use basingamarket.Program.Math.{fee_amount, mul_div, checked_add, checked_sub}
use basingamarket.Program.Settlement.{
  voided_round, winner, apply_round_resolution, resolve_with_winner, resolve_without_winner,
}
use basingamarket.Program.State.{GlobalConfig, Round}

-- The services' record of a round of the program, over what only they know.
abbrev pub record_of : RoundState → Round → RoundState
record_of known r = record known {
  start_price = some r.start_price;
  up_curve = curve_of r.up;
  down_curve = curve_of r.down;
  round_bonus_usdc = r.round_bonus_usdc;
}

-- The settlement fee and the least amount of a side, over the rest of a market's configuration.
abbrev pub config_of : MarketStreamConfig → GlobalConfig → MarketStreamConfig
config_of known c = record known {
  settlement_fee_bps = c.settlement_fee_bps;
  min_side_real_usdc = c.min_side_real_usdc;
}

-- A record of a round with the settlement of the program's round.
abbrev pub settled_of : RoundState → Round → RoundState
settled_of round r = record round {
  status = status_of r.status;
  winning_side = winner_of r.winning_side;
  settlement_vault = r.settlement_vault;
  payout_per_ticket = r.payout_per_ticket;
  protocol_vault_amount = r.protocol_vault_amount;
}

abbrev side_of : basingamarket.Program.State.Side → Side
side_of basingamarket.Program.State.up = Side.up
side_of basingamarket.Program.State.down = Side.down

-- The branches of the program once the price has moved to `side`.
abbrev moved :
    Round
    → GlobalConfig
    → basingamarket.Program.State.Side
    → Amount
    → AnchorResult (Round × GlobalConfig)
moved r c side gross =
    if (curve_for_side r side).ticket_supply == 0
    then resolve_without_winner r c side gross
    else if ltb r.up.real_usdc c.min_side_real_usdc || ltb r.down.real_usdc c.min_side_real_usdc
    then ok (voided_round r, c)
    else resolve_with_winner r c side gross

module _ (r : Round) (c : GlobalConfig) (known : RoundState) (config : MarketStreamConfig) where
  pay_winners-settled :
      (side : basingamarket.Program.State.Side) (gross : Amount) {r' : Round} {c' : GlobalConfig}
      → resolve_with_winner r c side gross ≡ ok (r', c')
      → pay_winners (record_of known r) (config_of config c) (side_of side) gross
        ≡ (settled_of (record_of known r) r', ok (winner_of r'.winning_side))
  unfolding resolve_with_winner fee_amount mul_div checked_add checked_sub pay_winners calculate_fee
      checked_mul checked_div checked_mul_div
  pay_winners-settled basingamarket.Program.State.up gross h = ground arith
  pay_winners-settled basingamarket.Program.State.down gross h = ground arith

  settle_vault-settled :
      (side : basingamarket.Program.State.Side) (gross : Amount) {r' : Round} {c' : GlobalConfig}
      → moved r c side gross ≡ ok (r', c')
      → settle_vault (record_of known r) (config_of config c) (side_of side) gross
        ≡ (settled_of (record_of known r) r', ok (winner_of r'.winning_side))
  unfolding settle_vault ensure_round_active resolve_without_winner checked_add
  settle_vault-settled basingamarket.Program.State.up gross {r'} {c'} h =
      ground (arith, pay_winners-settled basingamarket.Program.State.up gross {r' = r'} {c' = c'})
  settle_vault-settled basingamarket.Program.State.down gross {r'} {c'} h =
      ground (arith, pay_winners-settled basingamarket.Program.State.down gross {r' = r'} {c' = c'})

  vault_of-eq :
      {a : Amount} {b : Amount}
      → checked_add r.up.real_usdc r.down.real_usdc ≡ ok a
      → checked_add a r.round_bonus_usdc ≡ ok b
      → vault_of (record_of known r) ≡ ok b
  unfolding vault_of checked_add
  vault_of-eq h k = ground arith

  settle-settled :
      (side : basingamarket.Program.State.Side) {a b : Amount} {r' : Round} {c' : GlobalConfig}
      → checked_add r.up.real_usdc r.down.real_usdc ≡ ok a
      → checked_add a r.round_bonus_usdc ≡ ok b
      → moved r c side b ≡ ok (r', c')
      → settle (record_of known r) (config_of config c) (side_of side)
        ≡ (settled_of (record_of known r) r', ok (winner_of r'.winning_side))
  unfolding settle
  settle-settled side h k m = rw (vault_of-eq h k) (settle_vault-settled side _ m)

-- The record of a round once the end price is in it.
abbrev ended : RoundState → Amount → RoundState
ended known end_price = record known { end_price = some end_price }

module _ (r : Round) (c : GlobalConfig) (end_price : Amount) where
  -- What the program has computed once the price has moved.
  apply_round_resolution-moved :
      {r' : Round} {c' : GlobalConfig}
      → end_price ≢ r.start_price
      → apply_round_resolution r c end_price ≡ ok (r', c')
      → (a : Amount) × (b : Amount) × (checked_add r.up.real_usdc r.down.real_usdc ≡ ok a)
        × (checked_add a r.round_bonus_usdc ≡ ok b)
        × (moved r c (winner r.start_price end_price) b ≡ ok (r', c'))
  unfolding apply_round_resolution
  apply_round_resolution-moved ne h = ground arith

  resolve_round-moved :
      (known : RoundState) (config : MarketStreamConfig)
      → (known.status ≡ opened) ⊎ (known.status ≡ closed)
      → end_price ≢ r.start_price
      → resolve_round (record_of known r) end_price config
        ≡ settle
            (record_of (ended known end_price) r)
            config
            (side_of (winner r.start_price end_price))
  unfolding resolve_round resolve_outcome
  resolve_round-moved known config s ne = ground arith

  apply_round_resolution-still :
      (known : RoundState) (config : MarketStreamConfig) {r' : Round} {c' : GlobalConfig}
      → (known.status ≡ opened) ⊎ (known.status ≡ closed)
      → end_price ≡ r.start_price
      → apply_round_resolution r c end_price ≡ ok (r', c')
      → resolve_round (record_of known r) end_price config
        ≡ (settled_of (record_of (ended known end_price) r) r', ok (winner_of r'.winning_side))
  unfolding apply_round_resolution resolve_round resolve_outcome
  apply_round_resolution-still known config s e h = ground arith

-- Where the program resolves an unsettled round, the services resolve their record of it, to the same
-- status, winner, vault, payout rate and share of the protocol, and return that winner.
pub resolve_round_agrees :
    (r : Round) (c : GlobalConfig) (end_price : Amount) (known : RoundState)
    (config : MarketStreamConfig) {r' : Round} {c' : GlobalConfig}
    → (known.status ≡ opened) ⊎ (known.status ≡ closed)
    → apply_round_resolution r c end_price ≡ ok (r', c')
    → resolve_round (record_of known r) end_price (config_of config c)
      ≡ (settled_of (record_of (ended known end_price) r) r', ok (winner_of r'.winning_side))
resolve_round_agrees r c end_price known config s h =
    elim (Bool-cases (end_price == r.start_price)) [
      | inl still ↦
          apply_round_resolution-still r c end_price known (config_of config c) s
            (ground (arith, still)) h
      | inr moves ↦
          let ne : end_price ≢ r.start_price = ground (arith, moves) in
          let (a, b, p, q, m) = apply_round_resolution-moved r c end_price ne h in
          rw (resolve_round-moved r c end_price known (config_of config c) s ne) (
            settle-settled r c (ended known end_price) config (winner r.start_price end_price) p q
              m)
    ]
