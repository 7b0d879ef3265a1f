-- ===== src/Store/Canvas.antt =====
-- The canvas on which a market's tickets are drawn (`insert_canvas_object`, `canvas_layout_for_ticket`
-- and `get_canvas` of crates/db/src/memory.rs). The coordinates, i32 in the source, are never negative.
use basingamarket.Base.{
  ℕ, Bool, true, false, List, [], ◌∷◌, Option, some, none, ◌==◌, ltb, leb, ◌+◌, ◌*◌, ◌%◌, ◌/◌,
  if◌then◌else◌, ◌||◌, ◌&&◌,
}
use basingamarket.Store.Key.{pair_key}
use basingamarket.Store.Map.{get, insert, values}
use basingamarket.Store.Rows.Events.{TicketRow, CanvasObjectRow}
use basingamarket.Store.State.{ProjectionState}

abbrev pub is_some : {A : Type 0} → Option A → Bool
is_some none = false
is_some (some a) = true

-- `ticket_id % i32::MAX as u64` fits an i32, and so do the other two.
unfoldable pub canvas_layout_for_ticket : ℕ → ℕ × ℕ × ℕ
canvas_layout_for_ticket ticket_id =
    (96 + (ticket_id % 960) * 53 % 960, 300 + (ticket_id % 240) * 37 % 240, ticket_id % 2147483647)

abbrev pub radius_of : ℕ → ℕ
radius_of confidence = 22 + (if leb confidence 100 then confidence else 100) / 10

abbrev pub object_at : TicketRow → ℕ × ℕ × ℕ → CanvasObjectRow
object_at ticket (x_at, y_at, z_at) = record {
  market_id = ticket.market_id;
  ticket_id = ticket.ticket_id;
  x = x_at;
  y = y_at;
  radius = radius_of ticket.confidence;
  avatar_url = none;
  mood = ticket.mood;
  confidence = ticket.confidence;
  listed = is_some ticket.listed_price;
  current_owner = ticket.current_owner;
  original_caller = ticket.original_caller;
  z_index = z_at;
  updated_at = ticket.updated_at;
}

unfoldable pub insert_canvas_object : TicketRow → ProjectionState → ProjectionState
insert_canvas_object ticket state = record state {
  canvas_objects =
      insert (ticket.market_id, ticket.ticket_id)
        (object_at ticket (canvas_layout_for_ticket ticket.ticket_id)) state.canvas_objects;
}

-- `if let Some(canvas) = canvas_objects.get_mut(&key)`
unfoldable pub edit_canvas :
    ℕ × ℕ → (CanvasObjectRow → CanvasObjectRow) → ProjectionState → ProjectionState
edit_canvas key edit state = elim (get key state.canvas_objects) [
  | none ↦ state
  | some canvas ↦ record state { canvas_objects = insert key (edit canvas) state.canvas_objects }
]

unfoldable pub objects_of_market : ℕ → List CanvasObjectRow → List CanvasObjectRow
objects_of_market market_id [] = []
objects_of_market market_id (object ∷ objects) =
    let rest = objects_of_market market_id objects in
    if object.market_id == market_id then object ∷ rest else rest

-- `sort_by_key` on (z_index, ticket_id), which is stable.
abbrev pub drawn_before : CanvasObjectRow → CanvasObjectRow → Bool
drawn_before a b =
    ltb a.z_index b.z_index || (a.z_index == b.z_index && leb a.ticket_id b.ticket_id)

unfoldable pub insert_drawn : CanvasObjectRow → List CanvasObjectRow → List CanvasObjectRow
insert_drawn object [] = object ∷ []
insert_drawn object (other ∷ others) =
    let rest = insert_drawn object others in
    if drawn_before object other then object ∷ other ∷ others else other ∷ rest

unfoldable pub sort_drawn : List CanvasObjectRow → List CanvasObjectRow
sort_drawn [] = []
sort_drawn (object ∷ objects) = insert_drawn object (sort_drawn objects)

unfoldable pub get_canvas : ℕ → ProjectionState → List CanvasObjectRow
get_canvas market_id state = sort_drawn (objects_of_market market_id (values state.canvas_objects))
