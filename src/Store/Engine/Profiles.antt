-- ===== src/Store/Engine/Profiles.antt =====
-- The engine's events do not touch the profiles, the one part that a rebuild keeps.
use basingamarket.Base.{
  ℕ, List, [], ◌∷◌, ◌≡◌, refl, Option, ok, err, arith, ◌∙◌, ok_or, some, none, or_return-Leaves,
  Leaves, leaves, if-keeps,
}
use basingamarket.Store.Key.{Text, nat_key, pair_key}
use basingamarket.Store.Rows.Events.{
  Clock, EventMeta, TicketRow, OutcomeRow, CanvasObjectRow, Time, MarketRow,
}
use basingamarket.Store.Rows.Error.{DbResult, market_not_found}
use basingamarket.Store.State.{ProjectionState, Outcome}
use basingamarket.Store.Map.{BTreeMap, get, contains_key}
use basingamarket.Store.Tickets.{
  insert_market, insert_ticket, insert_ticket_into, stake_added, shares_added, add_ticket,
  list_ticket, cancel_ticket_listing, sell_ticket, close_market, claim_payout,
}
use basingamarket.Store.Canvas.{insert_canvas_object, edit_canvas}
use basingamarket.Store.Settlement.{
  resolve_market, resolve_market_inner, settle_round_tickets, finish_settlement, unlist_all,
  RoundSettlement, resolve_found,
}
use basingamarket.Store.Engine.Event.{ProtocolEvent, Topic, EventEnvelope}
use basingamarket.Store.Engine.Apply.{
  apply_event, tells, lot_bought, ticket_minted_at, round_resolved_to, side_of_event, about_market,
  about_ticket, settlement_of, new_ticket,
}

-- Projecting an event leaves the profiles alone.
abbrev Profiles : ProjectionState → ProjectionState → Type 0
Profiles before after = after.profiles ≡ before.profiles

edit_canvas-Profiles :
    (key : ℕ × ℕ) (edit : CanvasObjectRow → CanvasObjectRow) (state : ProjectionState)
    → Profiles state (edit_canvas key edit state)
unfolding edit_canvas
edit_canvas-Profiles key edit state = ground arith

shares_added-Profiles :
    (row : TicketRow) (meta : EventMeta) (outcome : OutcomeRow) (shares : DbResult ℕ)
    (state : ProjectionState)
    → Leaves (Profiles state) (shares_added row meta outcome shares state)
unfolding shares_added insert_canvas_object Leaves add_ticket
shares_added-Profiles row meta outcome (err e) state = refl
shares_added-Profiles row meta outcome (ok shares) state = refl

stake_added-Profiles :
    (row : TicketRow) (meta : EventMeta) (outcome : OutcomeRow) (stake : DbResult ℕ)
    (state : ProjectionState)
    → Leaves (Profiles state) (stake_added row meta outcome stake state)
unfolding stake_added
stake_added-Profiles row meta outcome (err e) state = leaves (Profiles state) _ refl
stake_added-Profiles row meta outcome (ok stake) state = shares_added-Profiles row meta _ _ state

insert_ticket_into-Profiles :
    (row : TicketRow) (meta : EventMeta) (outcome : Option OutcomeRow) (state : ProjectionState)
    → Leaves (Profiles state) (insert_ticket_into row meta outcome state)
unfolding insert_ticket_into
insert_ticket_into-Profiles row meta none state = leaves (Profiles state) _ refl
insert_ticket_into-Profiles row meta (some outcome) state =
    stake_added-Profiles row meta outcome _ state

insert_ticket-Profiles :
    (row : TicketRow) (meta : EventMeta) (state : ProjectionState)
    → Leaves (Profiles state) (insert_ticket row meta state)
unfolding insert_ticket
insert_ticket-Profiles row meta state =
    if-keeps (Leaves (Profiles state)) (contains_key row.market_id state.markets)
      (insert_ticket_into-Profiles row meta (get (row.market_id, row.outcome_id) state.outcomes)
        state)
      (leaves (Profiles state) _ refl)

unlist_all-Profiles :
    (market : ℕ) (at : Time) (ids : List ℕ) (state : ProjectionState)
    → Profiles state (unlist_all market at ids state)
unfolding unlist_all
unlist_all-Profiles market at [] state = refl
unlist_all-Profiles market at (id ∷ ids) state =
    unlist_all-Profiles market at ids _ ∙ edit_canvas-Profiles (market, id) _ state

finish_settlement-Profiles :
    (market : ℕ) (at : Time) (loop : BTreeMap ℕ TicketRow × DbResult (List ℕ))
    (state : ProjectionState)
    → Leaves (Profiles state) (finish_settlement market at loop state)
unfolding finish_settlement Leaves
finish_settlement-Profiles market at (tickets, err e) state = refl
finish_settlement-Profiles market at (tickets, ok ids) state =
    unlist_all-Profiles market at ids (record state { tickets = tickets })

module _ (clock : Clock) where
  tells-Profiles :
      {A : Type 0} (envelopes : A → List EventEnvelope) (outcome : Outcome A)
      (state : ProjectionState)
      → Leaves (Profiles state) outcome
      → Leaves (Profiles state) (tells clock envelopes outcome)
  unfolding Leaves
  tells-Profiles envelopes (after, ok value) state same = same
  tells-Profiles envelopes (after, err e) state same = same

  settle-Profiles :
      (market round : ℕ) (settlement : RoundSettlement) (state : ProjectionState)
      → Leaves (Profiles state) (settle_round_tickets market round settlement state)
  unfolding settle_round_tickets Leaves
  settle-Profiles market round settlement state = finish_settlement-Profiles market _ _ state

  resolve_found-Profiles :
      (market winner : ℕ) (payout : Option ℕ) (meta : EventMeta) (row : MarketRow)
      (state : ProjectionState)
      → Leaves (Profiles state) (resolve_found clock market winner payout meta row state)
  unfolding resolve_found Leaves
  resolve_found-Profiles market winner payout meta row state = refl

  resolve-Profiles :
      (market winner : ℕ) (meta : EventMeta) (state : ProjectionState)
      → Leaves (Profiles state) (resolve_market clock market winner meta state)
  unfolding resolve_market resolve_market_inner
  resolve-Profiles market winner meta state =
      or_return-Leaves (Profiles state) (ok_or (get market state.markets) (market_not_found market))
        state (λ row. resolve_found clock market winner none meta row state) refl
        (λ row. resolve_found-Profiles market winner none meta row state)

  lot_bought-Profiles :
      (meta : EventMeta) (lot market round : ℕ) (owner side : Text) (tickets usdc_in price : ℕ)
      (state : ProjectionState)
      → Leaves
          (Profiles state)
          (lot_bought clock meta lot market round owner side tickets usdc_in price state)
  unfolding lot_bought
  lot_bought-Profiles meta lot market round owner side tickets usdc_in price state =
      or_return-Leaves (Profiles state) (side_of_event side) state
        (λ outcome.
          tells clock (λ unit. about_ticket clock Topic.ticket_created meta market lot)
            (insert_ticket
              (new_ticket clock meta lot market round owner outcome tickets tickets price usdc_in 50
                0)
              meta state))
        refl (λ outcome. tells-Profiles _ _ state (insert_ticket-Profiles _ meta state))

  list-Profiles :
      (ticket price : ℕ) (meta : EventMeta) (state : ProjectionState)
      → Leaves (Profiles state) (list_ticket clock ticket price meta state)
  unfolding list_ticket edit_canvas Leaves
  list-Profiles ticket price meta state = ground arith

  unlist-Profiles :
      (ticket : ℕ) (meta : EventMeta) (state : ProjectionState)
      → Leaves (Profiles state) (cancel_ticket_listing clock ticket meta state)
  unfolding cancel_ticket_listing edit_canvas Leaves
  unlist-Profiles ticket meta state = ground arith

  sell-Profiles :
      (ticket : ℕ) (from to : Text) (price : ℕ) (meta : EventMeta) (state : ProjectionState)
      → Leaves (Profiles state) (sell_ticket clock ticket from to price meta state)
  unfolding sell_ticket edit_canvas Leaves
  sell-Profiles ticket from to price meta state = ground arith

  close-Profiles :
      (market : ℕ) (meta : EventMeta) (state : ProjectionState)
      → Leaves (Profiles state) (close_market clock market meta state)
  unfolding close_market Leaves
  close-Profiles market meta state = ground arith

  claim-Profiles :
      (ticket : ℕ) (claimer : Text) (amount : ℕ) (meta : EventMeta) (state : ProjectionState)
      → Leaves (Profiles state) (claim_payout clock ticket claimer amount meta state)
  unfolding claim_payout Leaves
  claim-Profiles ticket claimer amount meta state = ground arith

  round_resolved-Profiles :
      (meta : EventMeta) (market round : ℕ) (side : Text) (payout : ℕ) (state : ProjectionState)
      → Leaves (Profiles state) (round_resolved_to clock meta market round side payout state)
  unfolding round_resolved_to
  round_resolved-Profiles meta market round side payout state =
      or_return-Leaves (Profiles state) (side_of_event side) state
        (λ winner.
          tells clock (λ settled. about_market clock Topic.market_resolved meta market)
            (settle_round_tickets market round
              (settlement_of clock meta (some winner) (some payout)) state))
        refl (λ winner. tells-Profiles _ _ state (settle-Profiles market round _ state))

  pub apply_event-Profiles :
      (meta : EventMeta) (event : ProtocolEvent) (state : ProjectionState)
      → Leaves (Profiles state) (apply_event clock meta event state)
  unfolding apply_event insert_market ticket_minted_at
  apply_event-Profiles meta
        (ProtocolEvent.market_config_created market asset duration source fee resale_fee minimum)
        state =
      leaves (Profiles state) _ refl
  apply_event-Profiles meta
        (ProtocolEvent.market_created market question outcomes opens trades_until) state =
      leaves (Profiles state) _ refl
  apply_event-Profiles meta
        (ProtocolEvent.ticket_minted ticket market round owner outcome stake shares odds trust mood)
        state =
      tells-Profiles _ _ state (insert_ticket-Profiles _ meta state)
  apply_event-Profiles meta
        (ProtocolEvent.round_opened market round start batch end price symbol interval) state =
      leaves (Profiles state) _ refl
  apply_event-Profiles meta (ProtocolEvent.opening_order_submitted market round order user side net)
        state =
      leaves (Profiles state) _ refl
  apply_event-Profiles meta (ProtocolEvent.opening_side_finalized market round side net tickets)
        state =
      leaves (Profiles state) _ refl
  apply_event-Profiles meta
        (ProtocolEvent.fresh_bought lot market round owner side usdc fee net tickets price after)
        state =
      lot_bought-Profiles meta _ _ _ _ _ _ _ _ state
  apply_event-Profiles meta
        (ProtocolEvent.opening_order_claimed market round order lot owner side tickets usdc price)
        state =
      lot_bought-Profiles meta _ _ _ _ _ _ _ _ state
  apply_event-Profiles meta (ProtocolEvent.ticket_listed ticket seller price) state =
      tells-Profiles _ _ state (list-Profiles _ _ meta state)
  apply_event-Profiles meta (ProtocolEvent.listing_cancelled lot market owner) state =
      tells-Profiles _ _ state (unlist-Profiles _ meta state)
  apply_event-Profiles meta (ProtocolEvent.ticket_sold ticket from to price) state =
      tells-Profiles _ _ state (sell-Profiles _ _ _ _ meta state)
  apply_event-Profiles meta
        (ProtocolEvent.listing_bought lot market round from to price fee early_fee) state =
      tells-Profiles _ _ state (sell-Profiles _ _ _ _ meta state)
  apply_event-Profiles meta (ProtocolEvent.market_closed market) state =
      tells-Profiles _ _ state (close-Profiles _ meta state)
  apply_event-Profiles meta (ProtocolEvent.round_closed market round) state =
      leaves (Profiles state) _ refl
  apply_event-Profiles meta (ProtocolEvent.market_resolved market winner) state =
      tells-Profiles _ _ state (resolve-Profiles _ _ meta state)
  apply_event-Profiles meta
        (ProtocolEvent.round_resolved market round start end side vault payout protocol) state =
      round_resolved-Profiles meta _ _ _ _ state
  apply_event-Profiles meta (ProtocolEvent.round_voided market round start end) state =
      tells-Profiles _ _ state (settle-Profiles _ _ _ state)
  apply_event-Profiles meta (ProtocolEvent.payout_claimed ticket claimer amount) state =
      tells-Profiles _ _ state (claim-Profiles _ _ _ meta state)
  apply_event-Profiles meta (ProtocolEvent.winning_lot_claimed lot market round claimer amount)
        state =
      tells-Profiles _ _ state (claim-Profiles _ _ _ meta state)
  apply_event-Profiles meta (ProtocolEvent.void_lot_claimed lot market round claimer amount) state =
      tells-Profiles _ _ state (claim-Profiles _ _ _ meta state)
