-- ===== src/Store/Engine/Replay.antt =====
-- `apply_raw_event` and `rebuild_from_raw_events` of crates/db/src/engine.rs, with the raw events and
-- `clear_projections` of crates/db/src/memory.rs.
use basingamarket.Base.{
  ℕ, suc, Bool, true, false, List, [], ◌∷◌, ◌++◌, some, none, ok, err, ◌==◌, ltb, leb, ◌&&◌, ◌||◌,
  if◌then◌else◌,
}
use basingamarket.Store.Rows.Events.{Time, Dates, Clock, EventMeta}
use basingamarket.Store.Rows.Error.{DbResult}
use basingamarket.Store.State.{ProjectionState, Outcome}
use basingamarket.Store.Engine.Event.{
  ProtocolEvent, EventEnvelope, RawEventKey, RawEventRecord, raw_key, contains,
}
use basingamarket.Store.Engine.Apply.{apply_event}

-- The store with the raw events in it: their keys and their records.
pub record EngineState : Type 0 where
  pub raw_event_keys : List RawEventKey
  pub raw_events : List RawEventRecord
  pub projections : ProjectionState

-- Everything but the raw events and the profiles.
unfoldable pub clear_projections : ProjectionState → ProjectionState
clear_projections state = record {
  markets = [];
  outcomes = [];
  tickets = [];
  transfers = [];
  positions = [];
  canvas_objects = [];
  payout_claims = [];
  profiles = state.profiles;
  cash_balances = [];
  busdc_mints = [];
  cash_trade_reservations = [];
  cash_trades = [];
  cash_bids = [];
  cash_resales = [];
  cash_deposits = [];
  sol_deposit_quotes = [];
  sol_deposits = [];
  transfer_deposit_quotes = [];
  transfer_deposits = [];
  cash_withdrawal_quotes = [];
  cash_withdrawals = [];
  share_cards = [];
  indexer_cursor = none;
}

unfoldable pub update_cursor : ℕ → ProjectionState → ProjectionState
update_cursor slot state = record state { indexer_cursor = some slot }

abbrev pub raw_record : Time → EventMeta → ProtocolEvent → RawEventRecord
raw_record now meta raw_event = record {
  key = raw_key meta;
  program_id = meta.program_id;
  block_hash = meta.block_hash;
  signature = meta.signature;
  event = raw_event;
  canonical = true;
  inserted_at = now;
}

abbrev pub add_raw_event : Time → EventMeta → ProtocolEvent → EngineState → EngineState
add_raw_event now meta raw_event engine = record engine {
  raw_event_keys = raw_key meta ∷ engine.raw_event_keys;
  raw_events = engine.raw_events ++ raw_record now meta raw_event ∷ [];
}

unfoldable pub insert_raw_event :
    Time → EventMeta → ProtocolEvent → EngineState → EngineState × Bool
insert_raw_event now meta raw_event engine =
    if contains (raw_key meta) engine.raw_event_keys
    then (engine, false)
    else (add_raw_event now meta raw_event engine, true)

-- The projection of an event, and the cursor if it went well.
unfoldable pub project : {A : Type 0} → ℕ → Outcome A → ProjectionState × DbResult A
project slot (state, ok value) = (update_cursor slot state, ok value)
project slot (state, err e) = (state, err e)

abbrev pub with_projections :
    EngineState
    → ProjectionState × DbResult (List EventEnvelope)
    → EngineState × DbResult (List EventEnvelope)
with_projections engine (state, result) = (record engine { projections = state }, result)

-- `sort_by_key` on (slot, instruction_index), which is stable.
abbrev pub comes_before : RawEventRecord → RawEventRecord → Bool
comes_before a b =
    ltb a.key.slot b.key.slot
    || (a.key.slot == b.key.slot && leb a.key.instruction_index b.key.instruction_index)

unfoldable pub insert_event : RawEventRecord → List RawEventRecord → List RawEventRecord
insert_event event [] = event ∷ []
insert_event event (other ∷ others) =
    let rest = insert_event event others in
    if comes_before event other then event ∷ other ∷ others else other ∷ rest

unfoldable pub sort_events : List RawEventRecord → List RawEventRecord
sort_events [] = []
sort_events (event ∷ events) = insert_event event (sort_events events)

abbrev pub meta_of : RawEventRecord → EventMeta
meta_of raw = record {
  cluster = raw.key.cluster;
  program_id = raw.program_id;
  slot = raw.key.slot;
  block_hash = raw.block_hash;
  signature = raw.signature;
  instruction_index = raw.key.instruction_index;
}

abbrev pub or_stop :
    Outcome (List EventEnvelope) → (ProjectionState → Outcome (Unit {0})) → Outcome (Unit {0})
or_stop (state, ok value) rest = rest state
or_stop (state, err e) rest = (state, err e)

abbrev pub with_replay : EngineState → Outcome (Unit {0}) → EngineState × DbResult (Unit {0})
with_replay engine (state, result) = (record engine { projections = state }, result)

-- An event that comes in, with what the clock reads when it is stored and when it is projected; each
-- projection of an event reads it at most once.
pub record Arrival : Type 0 where
  pub meta : EventMeta
  pub event : ProtocolEvent
  pub stored_at : Time
  pub now : Time

module _ (dates : Dates) where
  abbrev pub clock_at : Time → Clock
  clock_at at = record { now = at; from_timestamp = dates }

  abbrev pub project_inserted :
      Arrival → EngineState × Bool → EngineState × DbResult (List EventEnvelope)
  project_inserted arrival (engine, false) = (engine, ok [])
  project_inserted arrival (engine, true) = with_projections engine (
      project arrival.meta.slot
        (apply_event (clock_at arrival.now) arrival.meta arrival.event engine.projections))

  unfoldable pub apply_raw_event :
      Arrival → EngineState → EngineState × DbResult (List EventEnvelope)
  apply_raw_event arrival engine =
      project_inserted arrival
        (insert_raw_event arrival.stored_at arrival.meta arrival.event engine)

  -- One after the other, whatever each of them gives.
  unfoldable pub apply_raw_events : List Arrival → EngineState → EngineState
  apply_raw_events [] engine = engine
  apply_raw_events (arrival ∷ arrivals) engine =
      apply_raw_events arrivals (apply_raw_event arrival engine).0

  -- `readings` are what the clock reads at the first event, at the second one, and so on.
  unfoldable pub replay :
      (readings : ℕ → Time) → List RawEventRecord → ProjectionState → Outcome (Unit {0})
  replay readings [] state = (state, ok tt)
  replay readings (raw ∷ events) state =
      if raw.canonical
      then or_stop
          (project raw.key.slot (apply_event (clock_at (readings 0)) (meta_of raw) raw.event state))
          (λ projected. replay (λ k. readings (suc k)) events projected)
      else replay (λ k. readings (suc k)) events state

  unfoldable pub rebuild_from_raw_events :
      (ℕ → Time) → EngineState → EngineState × DbResult (Unit {0})
  rebuild_from_raw_events readings engine =
      with_replay engine
        (replay readings (sort_events engine.raw_events) (clear_projections engine.projections))
