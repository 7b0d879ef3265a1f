-- ===== src/Domain/Tests/Plans.antt =====
-- Which rounds are opened, on the streams of the first phase.
use basingamarket.Base.{
  ℕ, List, [], ◌∷◌, ◌≡◌, refl, map, true, false, ok, is_ok, value_of, value_of-eq,
}
use basingamarket.Base.Int.{pos}
use basingamarket.Domain.Plans.{
  RoundOpenPlan, plan_round_openings, plan_stream, contains, protocol_stream_configs_for_phase,
  protocol_streams_for_phase, default_protocol_streams, protocol_stream_template, source_for,
  to_config,
}
use basingamarket.Domain.Plans.Openings.{Planned, plan_round_openings-Planned}
use basingamarket.Domain.State.{MarketStreamConfig, for_asset, from_duration_seconds}
use basingamarket.Domain.Tests.Rounds.{config}
use basingamarket.Domain.Windows.{current_round_id, round_window}

-- Three streams: one whose round exists, an inactive one, and one to be opened.
abbrev streams : List MarketStreamConfig
streams =
    config ∷ record config { market_id = 2; active = false } ∷ record config { market_id = 3 } ∷ []

abbrev existing : List (ℕ × ℕ)
existing = (1, 7) ∷ []

plans_are_made : is_ok (plan_round_openings streams existing (pos 2222)) ≡ true
unfolding plan_round_openings plan_stream contains current_round_id round_window
plans_are_made = refl

abbrev plans : List RoundOpenPlan
plans = value_of (plan_round_openings streams existing (pos 2222)) plans_are_made

plans-eq : plan_round_openings streams existing (pos 2222) ≡ ok plans
plans-eq = value_of-eq (plan_round_openings streams existing (pos 2222)) plans_are_made

-- One plan, for the round 7 of the third stream.
one_plan : map {B = ℕ × ℕ} (λ p. (p.market_id, p.round_id)) plans ≡ (3, 7) ∷ []
unfolding plan_round_openings plan_stream contains current_round_id round_window
one_plan = refl

plan_round_openings-Planned_example : Planned existing (pos 2222) streams plans
plan_round_openings-Planned_example =
    plan_round_openings-Planned streams existing (pos 2222) plans-eq

-- The default streams never run into the panic of an unsupported duration.
first_phase : is_ok (protocol_stream_configs_for_phase 1) ≡ true
unfolding protocol_stream_configs_for_phase protocol_streams_for_phase default_protocol_streams
    protocol_stream_template source_for from_duration_seconds for_asset to_config
first_phase = refl
