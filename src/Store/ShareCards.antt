-- ===== src/Store/ShareCards.antt =====
-- Share cards of tickets (crates/db/src/memory.rs). The random id of a new card is an argument.
use basingamarket.Base.{ℕ, Option, some, none, ok, or_return, ok_or}
use basingamarket.Store.Key.{Text, nat_key}
use basingamarket.Store.Map.{get, insert}
use basingamarket.Store.Rows.Events.{Time, ShareCardRow, ShareCardStatus}
use basingamarket.Store.Rows.Error.{share_card_not_found}
use basingamarket.Store.State.{ProjectionState, Outcome}
use basingamarket.Store.Tickets.{find_ticket}

abbrev pub pending_card : Time → ℕ → ℕ → ShareCardRow
pending_card now new_id ticket = record {
  id = new_id;
  ticket_id = ticket;
  status = ShareCardStatus.pending;
  svg_hash = none;
  png_url = none;
  error_message = none;
  created_at = now;
  updated_at = now;
}

unfoldable pub create_share_card : Time → ℕ → ℕ → ProjectionState → Outcome ShareCardRow
create_share_card now new_id ticket_id state =
    or_return (find_ticket ticket_id state) state (λ ticket. (
      record state {
        share_cards = insert new_id (pending_card now new_id ticket_id) state.share_cards;
      },
      ok (pending_card now new_id ticket_id),
    ))

unfoldable pub get_share_card : ℕ → ProjectionState → Option ShareCardRow
get_share_card id state = get id state.share_cards

-- `if new.is_some() { field = new }`
abbrev pub or_keep : Option Text → Option Text → Option Text
or_keep none old = old
or_keep (some new) old = some new

abbrev pub updated_card :
    Time → ShareCardStatus → Option Text → Option Text → Option Text → ShareCardRow → ShareCardRow
updated_card now new_status svg png message row = record row {
  status = new_status;
  svg_hash = or_keep svg row.svg_hash;
  png_url = or_keep png row.png_url;
  error_message = message;
  updated_at = now;
}

unfoldable pub update_share_card :
    Time
    → ℕ
    → ShareCardStatus
    → Option Text
    → Option Text
    → Option Text
    → ProjectionState
    → Outcome ShareCardRow
update_share_card now id new_status svg png message state =
    or_return (ok_or (get id state.share_cards) (share_card_not_found id)) state (λ row. (
      record state {
        share_cards = insert id (updated_card now new_status svg png message row) state.share_cards;
      },
      ok (updated_card now new_status svg png message row),
    ))

unfoldable pub mark_share_card_processing : Time → ℕ → ProjectionState → Outcome ShareCardRow
mark_share_card_processing now id state =
    update_share_card now id ShareCardStatus.processing none none none state

unfoldable pub mark_share_card_completed :
    Time → ℕ → Text → Text → ProjectionState → Outcome ShareCardRow
mark_share_card_completed now id svg_hash png_url state =
    update_share_card now id ShareCardStatus.completed (some svg_hash) (some png_url) none state

unfoldable pub mark_share_card_failed : Time → ℕ → Text → ProjectionState → Outcome ShareCardRow
mark_share_card_failed now id error_message state =
    update_share_card now id ShareCardStatus.failed none none (some error_message) state
