-- ===== src/Store/Engine/Once.antt =====
-- An event is projected at most once, whatever came of it.
use basingamarket.Base.{
  Bool, true, false, List, [], ◌∷◌, ◌≡◌, refl, ok, arith, ap, ◌∙◌, if◌then◌else◌,
}
use basingamarket.Store.Key.{text_eq_refl}
use basingamarket.Store.Rows.Events.{Dates, EventMeta, Time}
use basingamarket.Store.Rows.Error.{DbResult}
use basingamarket.Store.State.{ProjectionState}
use basingamarket.Store.Engine.Event.{
  ProtocolEvent, EventEnvelope, RawEventKey, raw_key, key_eq, contains,
}
use basingamarket.Store.Engine.Replay.{
  EngineState, Arrival, clock_at, apply_raw_event, apply_raw_events, insert_raw_event,
  add_raw_event, project_inserted, project, with_projections,
}
use basingamarket.Store.Engine.Apply.{apply_event}

key_eq_refl : (key : RawEventKey) → key_eq key key ≡ true
key_eq_refl key = ground (arith, text_eq_refl key.cluster)

-- A key that was inserted is contained, and one that was contained stays so.
insert_raw_event-contains :
    (now : Time) (meta : EventMeta) (event : ProtocolEvent) (engine : EngineState)
    → contains (raw_key meta) (insert_raw_event now meta event engine).0.raw_event_keys ≡ true
unfolding insert_raw_event contains
insert_raw_event-contains now meta event engine = ground (arith, key_eq_refl (raw_key meta))

insert_raw_event-keeps :
    (key : RawEventKey) (now : Time) (meta : EventMeta) (event : ProtocolEvent)
    (engine : EngineState)
    → contains key engine.raw_event_keys ≡ true
    → contains key (insert_raw_event now meta event engine).0.raw_event_keys ≡ true
unfolding insert_raw_event contains
insert_raw_event-keeps key now meta event engine known = ground (arith, known)

module _ (dates : Dates) where
  project_inserted-keys :
      (arrival : Arrival) (inserted : EngineState × Bool)
      → (project_inserted dates arrival inserted).0.raw_event_keys ≡ inserted.0.raw_event_keys
  project_inserted-keys arrival (engine, false) = refl
  project_inserted-keys arrival (engine, true) = with_projections-keys engine (
      project arrival.meta.slot
        (apply_event (clock_at dates arrival.now) arrival.meta arrival.event engine.projections))
    where
      with_projections-keys :
          (engine : EngineState) (projected : ProjectionState × DbResult (List EventEnvelope))
          → (with_projections engine projected).0.raw_event_keys ≡ engine.raw_event_keys
      with_projections-keys engine (state, result) = refl

  apply_raw_event-contains :
      (arrival : Arrival) (engine : EngineState)
      → contains (raw_key arrival.meta) (apply_raw_event dates arrival engine).0.raw_event_keys
        ≡ true
  unfolding apply_raw_event
  apply_raw_event-contains arrival engine =
      ap (contains (raw_key arrival.meta)) (
        project_inserted-keys arrival
          (insert_raw_event arrival.stored_at arrival.meta arrival.event engine))
      ∙ insert_raw_event-contains arrival.stored_at arrival.meta arrival.event engine

  apply_raw_event-keeps :
      (key : RawEventKey) (arrival : Arrival) (engine : EngineState)
      → contains key engine.raw_event_keys ≡ true
      → contains key (apply_raw_event dates arrival engine).0.raw_event_keys ≡ true
  unfolding apply_raw_event
  apply_raw_event-keeps key arrival engine known =
      ap (contains key) (
        project_inserted-keys arrival
          (insert_raw_event arrival.stored_at arrival.meta arrival.event engine))
      ∙ insert_raw_event-keeps key arrival.stored_at arrival.meta arrival.event engine known

  apply_raw_events-keeps :
      (key : RawEventKey) (arrivals : List Arrival) (engine : EngineState)
      → contains key engine.raw_event_keys ≡ true
      → contains key (apply_raw_events dates arrivals engine).raw_event_keys ≡ true
  unfolding apply_raw_events
  apply_raw_events-keeps key [] engine known = known
  apply_raw_events-keeps key (arrival ∷ arrivals) engine known =
      apply_raw_events-keeps key arrivals (apply_raw_event dates arrival engine).0
        (apply_raw_event-keeps key arrival engine known)

  known_event :
      (arrival : Arrival) (engine : EngineState)
      → contains (raw_key arrival.meta) engine.raw_event_keys ≡ true
      → apply_raw_event dates arrival engine ≡ (engine, ok [])
  unfolding apply_raw_event insert_raw_event
  known_event arrival engine known =
      ap
        (λ b. project_inserted dates arrival (
          if b
          then (engine, false)
          else (add_raw_event arrival.stored_at arrival.meta arrival.event engine, true)))
        known

  -- An event with the cluster, the slot and the instruction of an earlier one changes nothing and
  -- reports nothing, whatever events came in between, whatever else the two events are, their
  -- signatures and programs included, and also where the earlier one failed to be projected.
  pub apply_raw_event_again :
      (first second : Arrival) (between : List Arrival) (engine : EngineState)
      → second.meta.cluster ≡ first.meta.cluster
      → second.meta.slot ≡ first.meta.slot
      → second.meta.instruction_index ≡ first.meta.instruction_index
      → let before = apply_raw_events dates between (apply_raw_event dates first engine).0 in
        apply_raw_event dates second before ≡ (before, ok [])
  apply_raw_event_again first second between engine cluster slot instruction =
      let same : raw_key second.meta ≡ raw_key first.meta = cc in
      let before = apply_raw_events dates between (apply_raw_event dates first engine).0 in
      known_event second before (
        ap (λ key. contains key before.raw_event_keys) same
        ∙ apply_raw_events-keeps (raw_key first.meta) between (apply_raw_event dates first engine).0
            (apply_raw_event-contains first engine))
