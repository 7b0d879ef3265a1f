-- ===== src/Store/Settled/Loop.antt =====
-- The loop over the tickets settles each ticket of the round, and no other.
use basingamarket.Base.{
  ℕ, true, false, ◌++◌, List, [], ◌∷◌, Option, some, none, ok, err, ◌≡◌, refl, arith, ap,
  Bool-cases, inl, inr, then_of, else_of, ◌∙◌, sym, >>=-eq-ok, ok-injective,
}
use basingamarket.Store.Key.{nat_key, pair_key}
use basingamarket.Store.Map.{BTreeMap, get, map_values, total}
use basingamarket.Store.Rows.Events.{TicketRow, Time, CanvasObjectRow}
use basingamarket.Store.Rows.Error.{DbResult}
use basingamarket.Store.State.{ProjectionState}
use basingamarket.Store.Prices.{settlement_total}
use basingamarket.Store.Canvas.{edit_canvas}
use basingamarket.Store.Settlement.{
  RoundSettlement, settles, settled, settled_value, total_at, settle_tickets, kept_before,
  settled_status, count, refund_total, settle_ticket, settle_round_tickets, finish_settlement,
  unlist_all,
}
use basingamarket.Store.Settled.{
  at_price, won_value, refund_value, worth, is_due, settle_one, one_if_due,
}

settlement_total-ok :
    (price shares value : ℕ)
    → settlement_total price shares ≡ ok value
    → value ≡ at_price price shares
unfolding settlement_total
settlement_total-ok price shares value h = ground arith

total_at-ok :
    (price : Option ℕ) (shares : ℕ) (value : Option ℕ)
    → total_at price shares ≡ ok value
    → value ≡ won_value price shares
total_at-ok none shares value h = cc
total_at-ok (some price) shares value h =
    let parts = >>=-eq-ok (settlement_total price shares) (λ v. ok (some v)) h in
    sym (ok-injective parts.2) ∙ ap some (settlement_total-ok price shares parts.0 parts.1)

refund_total-ok :
    (price : Option ℕ) (ticket : TicketRow) (value : Option ℕ)
    → refund_total price ticket ≡ ok value
    → value ≡ refund_value price ticket
refund_total-ok none ticket value h = cc
refund_total-ok (some price) ticket value h = total_at-ok (some price) ticket.reward_shares value h

settled_value-ok :
    (winning : Option ℕ) (settlement : RoundSettlement) (ticket : TicketRow) (value : Option ℕ)
    → settled_value winning settlement ticket ≡ ok value
    → value ≡ worth winning settlement ticket
unfolding settled_value
settled_value-ok none settlement ticket value h =
    refund_total-ok (get ticket.outcome_id settlement.refund_per_ticket_by_outcome) ticket value h
settled_value-ok (some winner) settlement ticket value h =
    ground (arith, total_at-ok settlement.payout_per_ticket ticket.reward_shares value)

-- The tests of the loop and of the description agree.
pub settles-is_due :
    (market_id round_id : ℕ) (ticket : TicketRow)
    → settles market_id round_id ticket ≡ is_due market_id round_id ticket
unfolding is_due
settles-is_due market_id round_id ticket = ground arith

-- The row that the loop writes is the one described.
settled-settle_one :
    (market_id round_id : ℕ) (settlement : RoundSettlement) (ticket : TicketRow)
    → settles market_id round_id ticket ≡ true
    → settled settlement ticket (worth settlement.winning_outcome settlement ticket)
      ≡ settle_one market_id round_id settlement ticket
unfolding settle_one settled_status
settled-settle_one market_id round_id settlement ticket due =
    ground (arith, settles-is_due market_id round_id ticket, due)

-- The rest of the loop went well, and the entry is kept before it.
kept_before-ok :
    (entry : ℕ × TicketRow) (own : List ℕ) (rest : BTreeMap ℕ TicketRow × DbResult (List ℕ))
    (tickets : BTreeMap ℕ TicketRow) (ids : List ℕ)
    → kept_before entry own rest ≡ (tickets, ok ids)
    → (others : List ℕ) × (rest ≡ (rest.0, ok others))
      × (tickets ≡ entry ∷ rest.0)
      × (ids ≡ own ++ others)
kept_before-ok entry own (left, err e) tickets ids run = cc
kept_before-ok entry own (left, ok others) tickets ids run =
    (others, refl, sym (ap (λ o. o.0) run), sym (ok-injective (ap (λ o. o.1) run)))

settle_ticket-ok :
    (settlement : RoundSettlement) (id : ℕ) (ticket : TicketRow) (left : BTreeMap ℕ TicketRow)
    (rest : BTreeMap ℕ TicketRow × DbResult (List ℕ)) (found : DbResult (Option ℕ))
    (tickets : BTreeMap ℕ TicketRow) (ids : List ℕ)
    → settled_value settlement.winning_outcome settlement ticket ≡ found
    → settle_ticket settlement (id, ticket) left rest found ≡ (tickets, ok ids)
    → (others : List ℕ) × (rest ≡ (rest.0, ok others))
      × (tickets
          ≡ (id, settled settlement ticket (worth settlement.winning_outcome settlement ticket))
            ∷ rest.0)
      × (ids ≡ ticket.ticket_id ∷ others)
settle_ticket-ok settlement id ticket left rest (err e) tickets ids at run = cc
settle_ticket-ok settlement id ticket left rest (ok value) tickets ids at run =
    let parts =
      kept_before-ok (id, settled settlement ticket value) (ticket.ticket_id ∷ []) rest tickets ids
        run in
    (
      parts.0,
      parts.1,
      parts.2
          ∙ ap (λ v. (id, settled settlement ticket v) ∷ rest.0)
              (settled_value-ok settlement.winning_outcome settlement ticket value at),
      parts.3,
    )

-- A ticket that is not due is kept as it is.
kept-settle_one :
    (market_id round_id : ℕ) (settlement : RoundSettlement) (ticket : TicketRow)
    → settles market_id round_id ticket ≡ false
    → ticket ≡ settle_one market_id round_id settlement ticket
unfolding settle_one
kept-settle_one market_id round_id settlement ticket kept =
    ground (arith, settles-is_due market_id round_id ticket, kept)

settle_tickets-ok :
    (market_id round_id : ℕ) (settlement : RoundSettlement) (before tickets : BTreeMap ℕ TicketRow)
    (ids : List ℕ)
    → settle_tickets market_id round_id settlement before ≡ (tickets, ok ids)
    → (tickets ≡ map_values (settle_one market_id round_id settlement) before)
      × (count ids ≡ total (one_if_due market_id round_id) before)
unfolding settle_tickets map_values total count one_if_due
settle_tickets-ok market_id round_id settlement [] tickets ids run =
    (sym (ap (λ o. o.0) run), ap count (sym (ok-injective (ap (λ o. o.1) run))))
settle_tickets-ok market_id round_id settlement ((id, ticket) ∷ before) tickets ids run =
    let rest = settle_tickets market_id round_id settlement before in
    elim (Bool-cases (settles market_id round_id ticket)) [
      | inl due ↦
          let parts =
            settle_ticket-ok settlement id ticket before rest _ tickets ids refl
              (then_of (settles market_id round_id ticket) _ due run) in
          let later =
            settle_tickets-ok market_id round_id settlement before rest.0 parts.0 parts.1 in
          (
            parts.2
                ∙ ap (λ t. (id, t) ∷ rest.0)
                    (settled-settle_one market_id round_id settlement ticket due)
                ∙ ap (λ m. (id, settle_one market_id round_id settlement ticket) ∷ m) later.0,
            ground (arith, parts.3, later.1, settles-is_due market_id round_id ticket, due),
          )
      | inr kept ↦
          let parts =
            kept_before-ok (id, ticket) [] rest tickets ids
              (else_of (settles market_id round_id ticket) _ kept run) in
          let later =
            settle_tickets-ok market_id round_id settlement before rest.0 parts.0 parts.1 in
          (
            parts.2
                ∙ ap (λ t. (id, t) ∷ rest.0)
                    (kept-settle_one market_id round_id settlement ticket kept)
                ∙ ap (λ m. (id, settle_one market_id round_id settlement ticket) ∷ m) later.0,
            ground (arith, parts.3, later.1, settles-is_due market_id round_id ticket, kept),
          )
    ]

edit_canvas-tickets :
    (key : ℕ × ℕ) (edit : CanvasObjectRow → CanvasObjectRow) (state : ProjectionState)
    → (edit_canvas key edit state).tickets ≡ state.tickets
unfolding edit_canvas
edit_canvas-tickets key edit state = ground arith

unlist_all-tickets :
    (market : ℕ) (at : Time) (ids : List ℕ) (state : ProjectionState)
    → (unlist_all market at ids state).tickets ≡ state.tickets
unfolding unlist_all
unlist_all-tickets market at [] state = refl
unlist_all-tickets market at (id ∷ ids) state =
    unlist_all-tickets market at ids _ ∙ edit_canvas-tickets (market, id) _ state

finished-tickets :
    (market_id round_id : ℕ) (settlement : RoundSettlement) (state after : ProjectionState)
    (updated : ℕ) (loop : BTreeMap ℕ TicketRow × DbResult (List ℕ))
    → settle_tickets market_id round_id settlement state.tickets ≡ loop
    → finish_settlement market_id settlement.settled_at loop state ≡ (after, ok updated)
    → (after.tickets ≡ map_values (settle_one market_id round_id settlement) state.tickets)
      × (updated ≡ total (one_if_due market_id round_id) state.tickets)
unfolding finish_settlement
finished-tickets market_id round_id settlement state after updated (tickets, err e) at run = cc
finished-tickets market_id round_id settlement state after updated (tickets, ok ids) at run =
    let parts = settle_tickets-ok market_id round_id settlement state.tickets tickets ids at in
    (
      sym (ap (λ o. o.0.tickets) run)
          ∙ unlist_all-tickets market_id settlement.settled_at ids
              (record state { tickets = tickets })
          ∙ parts.0,
      sym (ok-injective (ap (λ o. o.1) run)) ∙ parts.1,
    )

-- Settling a round that succeeds changes every ticket of the round that is neither claimed nor
-- cancelled, and no other: it can be claimed on the winning side, has lost on the other one, or is
-- refundable where nobody won; it gets its worth, rounded down, and the time of the settlement, and is
-- no longer listed. The result is the number of these tickets.
pub settle_round_tickets-settle_one :
    (market_id round_id : ℕ) (settlement : RoundSettlement) (state after : ProjectionState)
    (updated : ℕ)
    → settle_round_tickets market_id round_id settlement state ≡ (after, ok updated)
    → (after.tickets ≡ map_values (settle_one market_id round_id settlement) state.tickets)
      × (updated ≡ total (one_if_due market_id round_id) state.tickets)
unfolding settle_round_tickets
settle_round_tickets-settle_one market_id round_id settlement state after updated run =
    finished-tickets market_id round_id settlement state after updated _ refl run
