-- ===== src/Store/Tickets.antt =====
-- The tickets of on-chain markets (crates/db/src/memory.rs): markets, minting, listing, selling,
-- resolving and claiming, as the engine applies them.
use basingamarket.Base.{
  ℕ, true, false, List, [], ◌∷◌, ◌++◌, Option, some, none, ok, err, or_return, ok_or, ◌==◌,
  if◌then◌else◌,
}
use basingamarket.Base.Words.{u128_checked_add}
use basingamarket.Store.Key.{Text, nat_key, pair_key}
use basingamarket.Store.Map.{BTreeMap, get, insert, values, contains_key}
use basingamarket.Store.Rows.Events.{
  Clock, EventMeta, MarketRow, OutcomeRow, TicketRow, projected_at, TicketStatus, MarketStatus,
}
use basingamarket.Store.Rows.Error.{
  DbResult, projection, market_not_found, ticket_not_found, outcome_not_found,
  outcome_total_stake_overflow, outcome_reward_share_overflow,
}
use basingamarket.Store.State.{ProjectionState, Outcome}
use basingamarket.Store.Canvas.{insert_canvas_object, edit_canvas}
use basingamarket.Store.Prices.{mint_text}

unfoldable pub insert_outcomes :
    List OutcomeRow → BTreeMap (ℕ × ℕ) OutcomeRow → BTreeMap (ℕ × ℕ) OutcomeRow
insert_outcomes [] outcomes = outcomes
insert_outcomes (row ∷ rows) outcomes =
    insert_outcomes rows (insert (row.market_id, row.outcome_id) row outcomes)

unfoldable pub insert_market : MarketRow → List OutcomeRow → ProjectionState → ProjectionState
insert_market row outcomes state = record state {
  markets = insert row.market_id row state.markets;
  outcomes = insert_outcomes outcomes state.outcomes;
}

unfoldable pub get_market : ℕ → ProjectionState → Option MarketRow
get_market market_id state = get market_id state.markets

unfoldable pub get_ticket : ℕ → ProjectionState → Option TicketRow
get_ticket ticket_id state = get ticket_id state.tickets

unfoldable pub outcomes_of_market : ℕ → List OutcomeRow → List OutcomeRow
outcomes_of_market market_id [] = []
outcomes_of_market market_id (row ∷ rows) =
    let rest = outcomes_of_market market_id rows in
    if row.market_id == market_id then row ∷ rest else rest

unfoldable pub get_outcomes : ℕ → ProjectionState → List OutcomeRow
get_outcomes market_id state = outcomes_of_market market_id (values state.outcomes)

unfoldable pub tickets_of_market : ℕ → List TicketRow → List TicketRow
tickets_of_market market_id [] = []
tickets_of_market market_id (row ∷ rows) =
    let rest = tickets_of_market market_id rows in
    if row.market_id == market_id then row ∷ rest else rest

unfoldable pub get_tickets_for_market : ℕ → ProjectionState → List TicketRow
get_tickets_for_market market_id state = tickets_of_market market_id (values state.tickets)

-- The outcome's totals grow one after the other: the first stays if the second overflows.
abbrev pub put_outcome : TicketRow → OutcomeRow → ProjectionState → ProjectionState
put_outcome row outcome state = record state {
  outcomes = insert (row.market_id, row.outcome_id) outcome state.outcomes;
}

unfoldable pub add_ticket : TicketRow → EventMeta → ProjectionState → ProjectionState
add_ticket row meta state =
    let drawn = insert_canvas_object row (record state {
      positions =
          state.positions
          ++ record {
            wallet_address = row.current_owner;
            market_id = row.market_id;
            ticket_id = row.ticket_id;
            action = mint_text;
            outcome_id = row.outcome_id;
            amount = row.stake_amount;
            slot = meta.slot;
            created_at = row.created_at;
          }
            ∷ [];
    }) in
    record drawn { tickets = insert row.ticket_id row drawn.tickets }

unfoldable pub shares_added :
    TicketRow → EventMeta → OutcomeRow → DbResult ℕ → ProjectionState → Outcome (Unit {0})
shares_added row meta outcome (err e) state = (put_outcome row outcome state, err e)
shares_added row meta outcome (ok shares) state = (
  add_ticket row meta (
      put_outcome row
        (record outcome { total_reward_shares = shares; current_odds = row.entry_odds }) state),
  ok tt,
)

unfoldable pub stake_added :
    TicketRow → EventMeta → OutcomeRow → DbResult ℕ → ProjectionState → Outcome (Unit {0})
stake_added row meta outcome (err e) state = (state, err e)
stake_added row meta outcome (ok stake) state =
    shares_added row meta (record outcome { total_stake = stake })
      (ok_or (u128_checked_add outcome.total_reward_shares row.reward_shares)
        (projection outcome_reward_share_overflow))
      state

unfoldable pub insert_ticket_into :
    TicketRow → EventMeta → Option OutcomeRow → ProjectionState → Outcome (Unit {0})
insert_ticket_into row meta none state =
    (state, err (projection (outcome_not_found row.outcome_id)))
insert_ticket_into row meta (some outcome) state =
    stake_added row meta outcome
      (ok_or (u128_checked_add outcome.total_stake row.stake_amount)
        (projection outcome_total_stake_overflow))
      state

unfoldable pub insert_ticket : TicketRow → EventMeta → ProjectionState → Outcome (Unit {0})
insert_ticket row meta state =
    if contains_key row.market_id state.markets
    then insert_ticket_into row meta (get (row.market_id, row.outcome_id) state.outcomes) state
    else (state, err (market_not_found row.market_id))

abbrev pub put_ticket : TicketRow → ProjectionState → ProjectionState
put_ticket ticket state = record state { tickets = insert ticket.ticket_id ticket state.tickets }

-- `tickets.get_mut(&ticket_id)`: the row is written back under the key it was found at.
abbrev pub set_ticket : ℕ → TicketRow → ProjectionState → ProjectionState
set_ticket ticket_id ticket state = record state { tickets = insert ticket_id ticket state.tickets }

abbrev pub find_ticket : ℕ → ProjectionState → DbResult TicketRow
find_ticket ticket_id state = ok_or (get ticket_id state.tickets) (ticket_not_found ticket_id)

module _ (clock : Clock) where
  unfoldable pub list_ticket : ℕ → ℕ → EventMeta → ProjectionState → Outcome ℕ
  list_ticket ticket_id price meta state = or_return (find_ticket ticket_id state) state (λ ticket.
      let at = projected_at clock meta in
      (
        edit_canvas (ticket.market_id, ticket_id)
            (λ canvas. record canvas { listed = true; updated_at = at })
            (set_ticket ticket_id
              (record ticket {
                status = TicketStatus.listed;
                listed_price = some price;
                updated_at = at;
              })
              state),
        ok ticket.market_id,
      ))

  unfoldable pub cancel_ticket_listing : ℕ → EventMeta → ProjectionState → Outcome ℕ
  cancel_ticket_listing ticket_id meta state =
      or_return (find_ticket ticket_id state) state (λ ticket.
        let at = projected_at clock meta in
        (
          edit_canvas (ticket.market_id, ticket_id)
              (λ canvas. record canvas { listed = false; updated_at = at })
              (set_ticket ticket_id
                (record ticket {
                  status = TicketStatus.active;
                  listed_price = none;
                  updated_at = at;
                })
                state),
          ok ticket.market_id,
        ))

  unfoldable pub sell_ticket : ℕ → Text → Text → ℕ → EventMeta → ProjectionState → Outcome ℕ
  sell_ticket ticket_id from to price meta state =
      or_return (find_ticket ticket_id state) state (λ ticket.
        let at = projected_at clock meta in
        let sold =
          set_ticket ticket_id
            (record ticket {
              current_owner = to;
              status = TicketStatus.active;
              listed_price = none;
              updated_at = at;
            })
            state in
        (
          edit_canvas (ticket.market_id, ticket_id)
              (λ canvas. record canvas { current_owner = to; listed = false; updated_at = at })
              (record sold {
                transfers =
                    sold.transfers
                    ++ record {
                      ticket_id = ticket_id;
                      from_address = from;
                      to_address = to;
                      price = price;
                      slot = meta.slot;
                      signature = meta.signature;
                      created_at = at;
                    }
                      ∷ [];
              }),
          ok ticket.market_id,
        ))

  unfoldable pub close_market : ℕ → EventMeta → ProjectionState → Outcome (Unit {0})
  close_market market_id meta state =
      or_return (ok_or (get market_id state.markets) (market_not_found market_id)) state (λ market.
        (
          record state {
            markets =
                insert market_id
                  (record market {
                    status = MarketStatus.closed;
                    updated_at = projected_at clock meta;
                  })
                  state.markets;
          },
          ok tt,
        ))

  unfoldable pub claim_payout : ℕ → Text → ℕ → EventMeta → ProjectionState → Outcome ℕ
  claim_payout ticket_id claimer amount meta state =
      or_return (find_ticket ticket_id state) state (λ ticket.
        let at = projected_at clock meta in
        let marked =
          set_ticket ticket_id
            (record ticket { claimed = true; status = TicketStatus.claimed; updated_at = at })
            state in
        (
          record marked {
            payout_claims =
                insert ticket_id
                  (record {
                    ticket_id = ticket_id;
                    claimer = claimer;
                    amount = amount;
                    slot = meta.slot;
                    signature = meta.signature;
                    created_at = at;
                  })
                  marked.payout_claims;
          },
          ok ticket.market_id,
        ))
