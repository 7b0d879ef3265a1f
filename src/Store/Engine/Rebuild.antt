-- ===== src/Store/Engine/Rebuild.antt =====
-- Rebuilding from the raw events gives the projections that were there.
use basingamarket.Base.{
  ℕ, Bool, true, false, List, [], ◌∷◌, ◌++◌, ◌≡◌, refl, sym, ok, err, ap, ◌∙◌, if◌then◌else◌,
  Leaves, Bool-cases, inl, inr, then_of, else_of,
}
use mathlib.Core.Path.{subst}
use basingamarket.Store.Rows.Events.{Time, Dates, Clock}
use basingamarket.Store.State.{ProjectionState, Outcome}
use basingamarket.Store.Engine.Event.{EventEnvelope, RawEventRecord, raw_key, contains}
use basingamarket.Store.Engine.Apply.{apply_event}
use basingamarket.Store.Engine.Dated.{AreDates, AreDates-last, apply_event-same, replay-same}
use basingamarket.Store.Engine.Profiles.{apply_event-Profiles}
use basingamarket.Store.Engine.Replay.{
  EngineState, Arrival, clock_at, apply_raw_event, insert_raw_event, add_raw_event,
  project_inserted, project, with_projections, replay, or_stop, raw_record, meta_of,
  clear_projections, update_cursor, rebuild_from_raw_events, with_replay, sort_events,
}

module _ (dates : Dates) where
  -- The engine receives events one after the other, and each of them is projected.
  pub data Receives : EngineState → EngineState → Type 0 where
    start : {engine : EngineState} → Receives engine engine
    receive :
        {first engine after : EngineState} (arrival : Arrival) (told : List EventEnvelope)
        → Receives first engine
        → apply_raw_event dates arrival engine ≡ (after, ok told)
        → Receives first after

-- With a clock that stands still, which is all that dated events see of any clock.
module _ (dates : Dates) (at : Time) where
  abbrev still : Clock
  still = clock_at dates at

  abbrev replay_still : List RawEventRecord → ProjectionState → Outcome (Unit {0})
  replay_still events state = replay dates (λ k. at) events state

  -- What the raw events lead to, from nothing, where their slots are dates.
  abbrev Replayed : EngineState → Type 0
  Replayed engine =
      AreDates dates engine.raw_events
      → replay_still engine.raw_events (clear_projections engine.projections)
        ≡ (engine.projections, ok tt)

  or_stop-++ :
      (second : List RawEventRecord) (short long : ProjectionState → Outcome (Unit {0}))
      (middle : ProjectionState)
      → ((state : ProjectionState)
          → short state ≡ (middle, ok tt)
          → long state ≡ replay_still second middle)
      → (projected : Outcome (List EventEnvelope)) → or_stop projected short ≡ (middle, ok tt)
      → or_stop projected long ≡ replay_still second middle
  or_stop-++ second short long middle longer (state, ok told) run = longer state run
  or_stop-++ second short long middle longer (state, err e) run = cc

  replay-++ :
      (first second : List RawEventRecord) (state middle : ProjectionState)
      → replay_still first state ≡ (middle, ok tt)
      → replay_still (first ++ second) state ≡ replay_still second middle
  unfolding replay
  replay-++ [] second state middle run = ap (λ o. replay_still second o.0) run
  replay-++ (raw ∷ first) second state middle run = elim (Bool-cases raw.canonical) [
    | inl counts ↦
        ap
          (λ b.
            if b
            then or_stop (project raw.key.slot (apply_event still (meta_of raw) raw.event state))
                (λ projected. replay_still (first ++ second) projected)
            else replay_still (first ++ second) state)
          counts
        ∙ or_stop-++ second (λ projected. replay_still first projected)
            (λ projected. replay_still (first ++ second) projected) middle
            (λ projected. replay-++ first second projected middle)
            (project raw.key.slot (apply_event still (meta_of raw) raw.event state))
            (then_of raw.canonical _ counts run)
    | inr skipped ↦
        ap
          (λ b.
            if b
            then or_stop (project raw.key.slot (apply_event still (meta_of raw) raw.event state))
                (λ projected. replay_still (first ++ second) projected)
            else replay_still (first ++ second) state)
          skipped
        ∙ replay-++ first second state middle (else_of raw.canonical _ skipped run)
  ]

  clear-profiles :
      (before after : ProjectionState)
      → after.profiles ≡ before.profiles
      → clear_projections after ≡ clear_projections before
  unfolding clear_projections
  clear-profiles before after same = cc

  project-profiles :
      (slot : ℕ) (before : ProjectionState) (outcome : Outcome (List EventEnvelope))
      (after : ProjectionState) (told : List EventEnvelope)
      → Leaves (λ left. left.profiles ≡ before.profiles) outcome
      → project slot outcome ≡ (after, ok told)
      → after.profiles ≡ before.profiles
  unfolding project update_cursor Leaves
  project-profiles slot before (state, err e) after told same run = cc
  project-profiles slot before (state, ok value) after told same run =
      let moved : state.profiles ≡ after.profiles = ap (λ o. o.0.profiles) run in sym moved ∙ same

  -- One more event at the end.
  replay-last :
      (raw : RawEventRecord) (told : List EventEnvelope) (events : List RawEventRecord)
      (before after : ProjectionState)
      → raw.canonical ≡ true
      → replay_still events (clear_projections before) ≡ (before, ok tt)
      → project raw.key.slot (apply_event still (meta_of raw) raw.event before) ≡ (after, ok told)
      → replay_still (events ++ raw ∷ []) (clear_projections after) ≡ (after, ok tt)
  unfolding replay
  replay-last raw told events before after counts replayed run =
      ap (replay_still (events ++ raw ∷ [])) (
        clear-profiles before after (
          project-profiles raw.key.slot before (apply_event still (meta_of raw) raw.event before)
            after told (apply_event-Profiles still (meta_of raw) raw.event before) run))
      ∙ replay-++ events (raw ∷ []) (clear_projections before) before replayed
      ∙ ap
          (λ b.
            if b
            then or_stop (project raw.key.slot (apply_event still (meta_of raw) raw.event before))
                (λ projected. (projected, ok tt))
            else (before, ok tt))
          counts
      ∙ ap (λ o. or_stop o (λ projected. (projected, ok tt))) run

  projected_part :
      (arrival : Arrival) (told : List EventEnvelope) (engine after : EngineState)
      (projected : Outcome (List EventEnvelope))
      → project arrival.meta.slot
          (apply_event (clock_at dates arrival.now) arrival.meta arrival.event engine.projections)
        ≡ projected
      → Replayed engine
      → with_projections
          (add_raw_event arrival.stored_at arrival.meta arrival.event engine)
          projected
        ≡ (after, ok told)
      → Replayed after
  projected_part arrival told engine after (state, err e) run replayed received = λ dated. cc
  projected_part arrival told engine after (state, ok value) run replayed received =
      let raw = raw_record arrival.stored_at arrival.meta arrival.event in
      let same : record (add_raw_event arrival.stored_at arrival.meta arrival.event engine) {
        projections = state;
      }
          ≡ after =
        ap (λ o. o.0) received in
      subst Replayed same (λ dated.
        let parts = AreDates-last dates engine.raw_events raw dated in
        replay-last raw value engine.raw_events engine.projections state refl (replayed parts.0) (
          ap (project arrival.meta.slot) (
            apply_event-same dates at arrival.now arrival.meta parts.1 arrival.event
              engine.projections)
          ∙ run))

  received_part :
      (arrival : Arrival) (told : List EventEnvelope) (engine after : EngineState) (known : Bool)
      → Replayed engine
      → project_inserted dates arrival (
          if known
          then (engine, false)
          else (add_raw_event arrival.stored_at arrival.meta arrival.event engine, true))
        ≡ (after, ok told)
      → Replayed after
  received_part arrival told engine after true replayed run =
      let same : engine ≡ after = ap (λ o. o.0) run in subst Replayed same replayed
  received_part arrival told engine after false replayed run =
      projected_part arrival told engine after _ refl replayed run

  pub Receives-Replayed :
      {first last : EngineState} → Receives dates first last → Replayed first → Replayed last
  unfolding apply_raw_event insert_raw_event
  Receives-Replayed start replayed = replayed
  Receives-Replayed (receive {engine = engine} {after = after} arrival told earlier run) replayed =
      received_part arrival told engine after
        (contains (raw_key arrival.meta) engine.raw_event_keys) (Receives-Replayed earlier replayed)
        run

module _ (dates : Dates) where
  -- An engine without events that has received events since, each of them projected, gets by a rebuild
  -- exactly the state it has, if the slots of the events are dates, and if they came in the order of
  -- their slots and instructions. The clock reads whatever it reads at each event and at each step of
  -- the rebuild.
  pub rebuild_from_raw_events-Receives :
      (first last : EngineState) (readings : ℕ → Time)
      → first.raw_events ≡ []
      → clear_projections first.projections ≡ first.projections
      → Receives dates first last
      → AreDates dates last.raw_events
      → sort_events last.raw_events ≡ last.raw_events
      → rebuild_from_raw_events dates readings last ≡ (last, ok tt)
  unfolding rebuild_from_raw_events replay
  rebuild_from_raw_events-Receives first last readings empty clean received dated sorted =
      ap
        (λ events.
          with_replay last (replay dates readings events (clear_projections last.projections)))
        sorted
      ∙ ap (with_replay last) (
          replay-same dates readings (λ k. readings 0) last.raw_events
            (clear_projections last.projections) dated)
      ∙ ap (with_replay last) (
          Receives-Replayed dates (readings 0) received
            (λ none_yet.
              ap
                (λ events.
                  replay dates (λ k. readings 0) events (clear_projections first.projections))
                empty
              ∙ ap (λ state. (state, ok tt)) clean)
            dated)
