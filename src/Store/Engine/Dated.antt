-- ===== src/Store/Engine/Dated.antt =====
-- Where the slot of an event is a date, its projection does not read the clock.
use basingamarket.Base.{
  ℕ, suc, Bool, true, false, List, [], ◌∷◌, ◌++◌, ◌≡◌, refl, some, ok, err, ap, ◌∙◌, arith,
  if◌then◌else◌,
}
use basingamarket.Store.Rows.Events.{Time, Dates, EventMeta, projected_at}
use basingamarket.Base.Words.{i64_of_residue}
use basingamarket.Store.Tickets.{
  list_ticket, cancel_ticket_listing, sell_ticket, close_market, claim_payout,
}
use basingamarket.Store.State.{ProjectionState, Outcome}
use basingamarket.Store.Settlement.{resolve_market, resolve_market_inner, resolve_found}
use basingamarket.Store.Engine.Event.{ProtocolEvent, EventEnvelope, RawEventRecord}
use basingamarket.Store.Engine.Apply.{apply_event, lot_bought, ticket_minted_at, round_resolved_to}
use basingamarket.Store.Engine.Replay.{clock_at, meta_of, replay, or_stop, project}

-- The slot, read as seconds, is a time that the library for dates can name.
abbrev pub IsDate : Dates → ℕ → Type 0
IsDate dates slot = (time : Time) × (dates (i64_of_residue slot) 0 ≡ some time)

unfoldable pub AreDates : Dates → List RawEventRecord → Type 0
AreDates dates [] = Unit
AreDates dates (raw ∷ events) = IsDate dates raw.key.slot × AreDates dates events

module _ (dates : Dates) (a b : Time) (meta : EventMeta) (dated : IsDate dates meta.slot) where
  projected_at-same : projected_at (clock_at dates a) meta ≡ projected_at (clock_at dates b) meta
  unfolding projected_at
  projected_at-same = ground (arith, dated.1)

  pub apply_event-same :
      (event : ProtocolEvent) (state : ProjectionState)
      → apply_event (clock_at dates a) meta event state
        ≡ apply_event (clock_at dates b) meta event state
  unfolding apply_event list_ticket cancel_ticket_listing sell_ticket close_market claim_payout
      resolve_market resolve_market_inner resolve_found lot_bought ticket_minted_at
      round_resolved_to
  apply_event-same
        (ProtocolEvent.market_config_created market asset duration source fee resale_fee minimum)
        state =
      rw projected_at-same
  apply_event-same (ProtocolEvent.market_created market question outcomes opens trades_until)
        state =
      rw projected_at-same
  apply_event-same
        (ProtocolEvent.ticket_minted ticket market round owner outcome stake shares odds trust mood)
        state =
      rw projected_at-same
  apply_event-same (ProtocolEvent.round_opened market round start batch end price symbol interval)
        state =
      refl
  apply_event-same (ProtocolEvent.opening_order_submitted market round order user side net) state =
      refl
  apply_event-same (ProtocolEvent.opening_side_finalized market round side net tickets) state = refl
  apply_event-same
        (ProtocolEvent.fresh_bought lot market round owner side usdc fee net tickets price after)
        state =
      rw projected_at-same
  apply_event-same
        (ProtocolEvent.opening_order_claimed market round order lot owner side tickets usdc price)
        state =
      rw projected_at-same
  apply_event-same (ProtocolEvent.ticket_listed ticket seller price) state = rw projected_at-same
  apply_event-same (ProtocolEvent.listing_cancelled lot market owner) state = rw projected_at-same
  apply_event-same (ProtocolEvent.ticket_sold ticket from to price) state = rw projected_at-same
  apply_event-same (ProtocolEvent.listing_bought lot market round from to price fee early_fee)
        state =
      rw projected_at-same
  apply_event-same (ProtocolEvent.market_closed market) state = rw projected_at-same
  apply_event-same (ProtocolEvent.round_closed market round) state = refl
  apply_event-same (ProtocolEvent.market_resolved market winner) state = rw projected_at-same
  apply_event-same (ProtocolEvent.round_resolved market round start end side vault payout protocol)
        state =
      rw projected_at-same
  apply_event-same (ProtocolEvent.round_voided market round start end) state = rw projected_at-same
  apply_event-same (ProtocolEvent.payout_claimed ticket claimer amount) state = rw projected_at-same
  apply_event-same (ProtocolEvent.winning_lot_claimed lot market round claimer amount) state =
      rw projected_at-same
  apply_event-same (ProtocolEvent.void_lot_claimed lot market round claimer amount) state =
      rw projected_at-same

module _ (dates : Dates) where
  pub AreDates-last :
      (events : List RawEventRecord) (raw : RawEventRecord)
      → AreDates dates (events ++ raw ∷ [])
      → AreDates dates events × IsDate dates raw.key.slot
  unfolding AreDates
  AreDates-last [] raw dated = (tt, dated.0)
  AreDates-last (event ∷ events) raw dated =
      let later = AreDates-last events raw dated.1 in ((dated.0, later.0), later.1)

  or_stop-same :
      (one other : Outcome (List EventEnvelope)) (short long : ProjectionState → Outcome (Unit {0}))
      → one ≡ other
      → ((state : ProjectionState) → short state ≡ long state)
      → or_stop one short ≡ or_stop other long
  or_stop-same (state, ok value) other short long same later =
      later state ∙ ap (λ o. or_stop o long) same
  or_stop-same (state, err e) other short long same later = ap (λ o. or_stop o long) same

  -- A replay of dated events does not depend on the readings of the clock.
  pub replay-same :
      (one other : ℕ → Time) (events : List RawEventRecord) (state : ProjectionState)
      → AreDates dates events
      → replay dates one events state ≡ replay dates other events state
  unfolding replay AreDates
  replay-same one other [] state dated = refl
  replay-same one other (raw ∷ events) state dated =
      if-same raw.canonical
        (or_stop-same _ _ _ _
          (ap (project raw.key.slot)
            (apply_event-same dates (one 0) (other 0) (meta_of raw) dated.0 raw.event state))
          (λ projected.
            replay-same (λ k. one (suc k)) (λ k. other (suc k)) events projected dated.1))
        (replay-same (λ k. one (suc k)) (λ k. other (suc k)) events state dated.1)
    where
      if-same :
          {A : Type 0} (b : Bool) {x y u v : A}
          → x ≡ y
          → u ≡ v
          → (if b then x else u) ≡ (if b then y else v)
      if-same true left right = left
      if-same false left right = right
