-- ===== src/Store/Tests/Events.antt =====
-- Events of a market and of a ticket in it, received in order, and the properties of the engine at them.
use basingamarket.Base.{ℕ, ◌+◌, bytes_eq, List, [], ◌∷◌, ◌≡◌, refl, ok, some, none}
use basingamarket.Store.Map.{get, insert}
use basingamarket.Store.Tickets.{
  insert_market, insert_outcomes, insert_ticket, insert_ticket_into, stake_added, shares_added,
  add_ticket,
}
use basingamarket.Store.Canvas.{insert_canvas_object, canvas_layout_for_ticket}
use basingamarket.Store.Rows.Events.{Time, projected_at}
use basingamarket.Base.Int.{pos}
use basingamarket.Store.Engine.Event.{
  ProtocolEvent, EventEnvelope, contains, envelope, market_updated, ticket_created, canvas_updated,
}
use basingamarket.Store.Engine.Apply.{apply_event, ticket_minted_at, new_outcomes, digits}
use basingamarket.Store.Engine.Replay.{
  EngineState, Arrival, apply_raw_event, apply_raw_events, insert_raw_event, project, update_cursor,
  clear_projections, sort_events, insert_event, rebuild_from_raw_events,
}
use basingamarket.Store.Engine.Dated.{AreDates}
use basingamarket.Store.Engine.Once.{apply_raw_event_again}
use basingamarket.Store.Engine.Rebuild.{Receives, start, receive, rebuild_from_raw_events-Receives}
use basingamarket.Store.Tests.Data.{empty, alice, dates, meta_at}

abbrev fresh : EngineState
fresh = record { raw_event_keys = []; raw_events = []; projections = empty }

abbrev market_event : ProtocolEvent
market_event = ProtocolEvent.market_created 1 (81 ∷ []) 2 0 100

abbrev ticket_event : ProtocolEvent
ticket_event = ProtocolEvent.ticket_minted 9 1 7 alice 1 5000 6000 1200000 80 1

-- The clock reads another time at each event.
abbrev market_arrives : Arrival
market_arrives = record {
  meta = meta_at 10;
  event = market_event;
  stored_at = pos 3000;
  now = pos 3001;
}

abbrev ticket_arrives : Arrival
ticket_arrives = record {
  meta = meta_at 11;
  event = ticket_event;
  stored_at = pos 3010;
  now = pos 3011;
}

abbrev with_market : EngineState
with_market = (apply_raw_event dates market_arrives fresh).0

abbrev with_ticket : EngineState
with_ticket = (apply_raw_event dates ticket_arrives with_market).0

abbrev told_market : List EventEnvelope
told_market = envelope market_updated (meta_at 10) (some 1) none ∷ []

market-ok : apply_raw_event dates market_arrives fresh ≡ (with_market, ok told_market)
unfolding apply_raw_event insert_raw_event contains project update_cursor apply_event insert_market
    insert_outcomes new_outcomes digits insert_ticket insert_ticket_into stake_added shares_added
    add_ticket insert_canvas_object canvas_layout_for_ticket ticket_minted_at projected_at get
    insert bytes_eq envelope
market-ok = refl

abbrev told_ticket : List EventEnvelope
told_ticket =
    envelope ticket_created (meta_at 11) (some 1) (some 9)
    ∷ envelope canvas_updated (meta_at 11) (some 1) (some 9)
    ∷ []

ticket-ok : apply_raw_event dates ticket_arrives with_market ≡ (with_ticket, ok told_ticket)
unfolding apply_raw_event insert_raw_event contains project update_cursor apply_event insert_market
    insert_outcomes new_outcomes digits insert_ticket insert_ticket_into stake_added shares_added
    add_ticket insert_canvas_object canvas_layout_for_ticket ticket_minted_at projected_at get
    insert bytes_eq envelope
ticket-ok = refl

received : Receives dates fresh with_ticket
received =
    receive ticket_arrives told_ticket (receive market_arrives told_market start market-ok)
      ticket-ok

in_order : sort_events with_ticket.raw_events ≡ with_ticket.raw_events
unfolding apply_raw_event insert_raw_event contains project update_cursor apply_event insert_market
    insert_outcomes new_outcomes digits insert_ticket insert_ticket_into stake_added shares_added
    add_ticket insert_canvas_object canvas_layout_for_ticket ticket_minted_at projected_at get
    insert bytes_eq envelope sort_events insert_event
in_order = refl

dated : AreDates dates with_ticket.raw_events
unfolding apply_raw_event insert_raw_event contains project update_cursor apply_event insert_market
    insert_outcomes new_outcomes digits insert_ticket insert_ticket_into stake_added shares_added
    add_ticket insert_canvas_object canvas_layout_for_ticket ticket_minted_at projected_at get
    insert bytes_eq envelope AreDates
dated = ((pos 10, refl), ((pos 11, refl), tt))

clean : clear_projections empty ≡ empty
unfolding clear_projections
clean = refl

-- The rebuild takes place later.
abbrev later : ℕ → Time
later k = pos (9000 + k)

rebuild_from_raw_events-Receives_example :
    rebuild_from_raw_events dates later with_ticket ≡ (with_ticket, ok tt)
rebuild_from_raw_events-Receives_example =
    rebuild_from_raw_events-Receives dates fresh with_ticket later refl clean received dated
      in_order

-- The listing of a ticket that is not there fails. The ticket then comes in by another transaction of
-- the same slot, at the same instruction, and is lost, though the market came in between.
abbrev listing_arrives : Arrival
listing_arrives = record ticket_arrives { event = ProtocolEvent.ticket_listed 9 alice 5 }

abbrev other_signature : Arrival
other_signature = record ticket_arrives {
  meta = record (meta_at 11) { signature = 90 ∷ []; block_hash = 91 ∷ [] };
}

abbrev before : EngineState
before =
    apply_raw_events dates (market_arrives ∷ []) (apply_raw_event dates listing_arrives fresh).0

apply_raw_event_again_example : apply_raw_event dates other_signature before ≡ (before, ok [])
apply_raw_event_again_example =
    apply_raw_event_again dates listing_arrives other_signature (market_arrives ∷ []) fresh refl
      refl refl
