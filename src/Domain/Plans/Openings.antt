-- ===== src/Domain/Plans/Openings.antt =====
-- What the plans of `plan_round_openings` say.
use basingamarket.Base.{
  ℕ, List, [], ◌∷◌, true, false, ◌≡◌, ◌⊎◌, inl, inr, refl, sym, ok, ok-injective, then_of, else_of,
  Bool-cases, >>=-eq-ok,
}
use basingamarket.Base.Int.{ℤ, ◌≤ℤ◌, ◌<ℤ◌}
use basingamarket.Domain.Plans.{plan_of, RoundOpenPlan, contains, plan_stream, plan_round_openings}
use basingamarket.Domain.State.{CryptoResult, MarketStreamConfig}
use basingamarket.Domain.Windows.{current_round_id, round_window}
use basingamarket.Domain.Windows.Cover.{round_window_holds}

-- A plan for the round of a stream that is running now.
pub record IsPlan (now : ℤ) (s : MarketStreamConfig) (p : RoundOpenPlan) : Type 0 where
  pub market : p.market_id ≡ s.market_id
  pub asset : p.asset ≡ s.asset
  pub duration : p.duration_seconds ≡ s.duration_seconds
  pub source : p.settlement_source ≡ s.settlement_source
  pub id : current_round_id now s.duration_seconds ≡ ok p.round_id
  pub begun : p.start_at ≤ℤ now
  pub running : now <ℤ p.end_at

-- The plans for a list of streams, in their order: none for a stream that is inactive or whose current
-- round exists, and one for every other.
pub data Planned (existing : List (ℕ × ℕ)) (now : ℤ)
    : List MarketStreamConfig → List RoundOpenPlan → Type 0 where
  done : Planned existing now [] []
  inactive :
      {s : MarketStreamConfig} {streams : List MarketStreamConfig} {plans : List RoundOpenPlan}
      → s.active ≡ false
      → Planned existing now streams plans
      → Planned existing now (s ∷ streams) plans
  exists :
      {s : MarketStreamConfig} {streams : List MarketStreamConfig} {plans : List RoundOpenPlan}
      (id : ℕ)
      → current_round_id now s.duration_seconds ≡ ok id
      → contains existing s.market_id id ≡ true
      → Planned existing now streams plans
      → Planned existing now (s ∷ streams) plans
  plan :
      {s : MarketStreamConfig} {streams : List MarketStreamConfig} {p : RoundOpenPlan}
      {plans : List RoundOpenPlan}
      → s.active ≡ true
      → contains existing p.market_id p.round_id ≡ false
      → IsPlan now s p
      → Planned existing now streams plans
      → Planned existing now (s ∷ streams) (p ∷ plans)

-- The plan that an active stream gets, if its round does not exist.
Fresh :
    List (ℕ × ℕ)
    → ℤ
    → MarketStreamConfig
    → CryptoResult (List RoundOpenPlan)
    → List RoundOpenPlan
    → Type 0
Fresh existing now s rest plans =
    (p : RoundOpenPlan) × (others : List RoundOpenPlan) × (plans ≡ p ∷ others)
    × (rest ≡ ok others)
    × (contains existing p.market_id p.round_id ≡ false)
    × IsPlan now s p

plan_stream-cases :
    (s : MarketStreamConfig) (existing : List (ℕ × ℕ)) (now : ℤ)
    (rest : CryptoResult (List RoundOpenPlan)) {plans : List RoundOpenPlan}
    → plan_stream s existing now rest ≡ ok plans
    → (id : ℕ) × (current_round_id now s.duration_seconds ≡ ok id)
      × (((contains existing s.market_id id ≡ true) × (rest ≡ ok plans))
          ⊎ Fresh existing now s rest plans)
unfolding plan_stream Fresh
plan_stream-cases s existing now rest h =
    let (id, current, h₁) = >>=-eq-ok (current_round_id now s.duration_seconds) _ h in
    (
      id,
      current,
      elim (Bool-cases (contains existing s.market_id id)) [
        | inl known ↦ inl (known, rw known at h₁)
        | inr fresh ↦
            let ((start, end), window, h₂) =
              >>=-eq-ok (round_window id s.duration_seconds) _ (rw fresh at h₁) in
            let (others, e, h₃) = >>=-eq-ok rest _ h₂ in
            let (begun, running) = round_window_holds now s.duration_seconds current window in
            inr (
              plan_of s id start end,
              others,
              sym (ok-injective h₃),
              e,
              fresh,
              record {
                market = refl;
                asset = refl;
                duration = refl;
                source = refl;
                id = current;
                begun = begun;
                running = running;
              },
            )
      ],
    )

-- Plans that are made are one for each active stream whose current round does not exist yet, in the
-- order of the streams, each for the stream's current round, whose window holds the current time.
pub plan_round_openings-Planned :
    (streams : List MarketStreamConfig) (existing : List (ℕ × ℕ)) (now : ℤ)
    {plans : List RoundOpenPlan}
    → plan_round_openings streams existing now ≡ ok plans
    → Planned existing now streams plans
unfolding plan_round_openings Fresh
plan_round_openings-Planned [] existing now h = rw (sym (ok-injective h)) done
plan_round_openings-Planned (s ∷ streams) existing now h = elim (Bool-cases s.active) [
  | inl on ↦
      let (id, current, cases) =
        plan_stream-cases s existing now (plan_round_openings streams existing now)
          (then_of s.active _ on h) in
      elim cases [
        | inl (known, rest) ↦
            exists id current known (plan_round_openings-Planned streams existing now rest)
        | inr (p, others, e, rest, fresh, is_plan) ↦
            rw e (plan on fresh is_plan (plan_round_openings-Planned streams existing now rest))
      ]
  | inr off ↦
      inactive off (plan_round_openings-Planned streams existing now (else_of s.active _ off h))
]
