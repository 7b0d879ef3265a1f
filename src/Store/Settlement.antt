-- ===== src/Store/Settlement.antt =====
-- Settling the tickets of a round, resolving a market and paying a ticket out to cash
-- (crates/db/src/memory_settlement.rs, and `resolve_market` of memory.rs).
use basingamarket.Base.{
  ℕ, Bool, true, false, List, [], ◌∷◌, Option, some, none, ok, err, or_return, ok_or, ◌==◌, not,
  ◌||◌, ◌&&◌, if◌then◌else◌, ◌>>=◌, ◌+◌, ◌++◌,
}
use basingamarket.Store.Key.{Text, text_key, nat_key, pair_key}
use basingamarket.Store.Map.{BTreeMap, get, insert}
use basingamarket.Store.Rows.Events.{
  Time, Clock, EventMeta, TicketRow, TicketStatus, MarketStatus, MarketRow, PayoutClaimRow,
  projected_at,
}
use basingamarket.Store.Rows.Cash.{TicketClaimResult}
use basingamarket.Store.Rows.Error.{DbResult, market_not_found}
use basingamarket.Store.State.{ProjectionState, Outcome}
use basingamarket.Store.Balances.{balance_or_zero, credited, upsert_cash_balance}
use basingamarket.Store.Canvas.{edit_canvas}
use basingamarket.Store.Prices.{settlement_total, entry_total}
use basingamarket.Store.Tickets.{find_ticket, set_ticket}

-- What a round was settled to.
pub record RoundSettlement : Type 0 where
  pub winning_outcome : Option ℕ
  pub payout_per_ticket : Option ℕ
  pub refund_per_ticket_by_outcome : BTreeMap ℕ ℕ
  pub settled_at : Time

abbrev pub is_claimed : TicketStatus → Bool
is_claimed TicketStatus.claimed = true
is_claimed _ = false

abbrev pub is_cancelled : TicketStatus → Bool
is_cancelled TicketStatus.cancelled = true
is_cancelled _ = false

abbrev pub settles : ℕ → ℕ → TicketRow → Bool
settles market_id round_id ticket =
    ticket.market_id == market_id
    && ticket.round_id == round_id
    && not (ticket.claimed || is_claimed ticket.status)
    && not (is_cancelled ticket.status)

unfoldable pub settled_status : Option ℕ → ℕ → TicketStatus
settled_status none outcome_id = TicketStatus.refundable
settled_status (some winner) outcome_id =
    if outcome_id == winner then TicketStatus.claimable else TicketStatus.lost

-- `.map(...).transpose()`
abbrev pub total_at : Option ℕ → ℕ → DbResult (Option ℕ)
total_at none shares = ok none
total_at (some price) shares = do value ← settlement_total price shares; ok (some value)

abbrev pub refund_total : Option ℕ → TicketRow → DbResult (Option ℕ)
refund_total none ticket = ok (some ticket.cost_basis_usdc)
refund_total (some price) ticket = total_at (some price) ticket.reward_shares

unfoldable pub settled_value : Option ℕ → RoundSettlement → TicketRow → DbResult (Option ℕ)
settled_value none settlement ticket =
    refund_total (get ticket.outcome_id settlement.refund_per_ticket_by_outcome) ticket
settled_value (some winner) settlement ticket =
    if ticket.outcome_id == winner
    then total_at settlement.payout_per_ticket ticket.reward_shares
    else ok (some 0)

abbrev pub marked : RoundSettlement → TicketRow → TicketRow
marked settlement ticket = record ticket {
  listed_price = none;
  status = settled_status settlement.winning_outcome ticket.outcome_id;
}

abbrev pub settled : RoundSettlement → TicketRow → Option ℕ → TicketRow
settled settlement ticket value = record (marked settlement ticket) {
  settlement_value_usdc = value;
  updated_at = settlement.settled_at;
}

-- The loop over the tickets. An error ends it: the tickets before it are settled, its own is
-- marked, those after it are as they were. The ids are those of the settled tickets.
abbrev pub kept_before :
    ℕ × TicketRow
    → List ℕ
    → BTreeMap ℕ TicketRow × DbResult (List ℕ)
    → BTreeMap ℕ TicketRow × DbResult (List ℕ)
kept_before entry ids (tickets, ok rest) = (entry ∷ tickets, ok (ids ++ rest))
kept_before entry ids (tickets, err e) = (entry ∷ tickets, err e)

abbrev pub settle_ticket :
    RoundSettlement
    → ℕ × TicketRow
    → BTreeMap ℕ TicketRow
    → BTreeMap ℕ TicketRow × DbResult (List ℕ)
    → DbResult (Option ℕ)
    → BTreeMap ℕ TicketRow × DbResult (List ℕ)
settle_ticket settlement (id, ticket) tickets rest (err e) =
    ((id, marked settlement ticket) ∷ tickets, err e)
settle_ticket settlement (id, ticket) tickets rest (ok value) =
    kept_before (id, settled settlement ticket value) (ticket.ticket_id ∷ []) rest

unfoldable pub settle_tickets :
    ℕ → ℕ → RoundSettlement → BTreeMap ℕ TicketRow → BTreeMap ℕ TicketRow × DbResult (List ℕ)
settle_tickets market_id round_id settlement [] = ([], ok [])
settle_tickets market_id round_id settlement ((id, ticket) ∷ tickets) =
    let rest = settle_tickets market_id round_id settlement tickets in
    if settles market_id round_id ticket
    then settle_ticket settlement (id, ticket) tickets rest
        (settled_value settlement.winning_outcome settlement ticket)
    else kept_before (id, ticket) [] rest

unfoldable pub unlist_all : ℕ → Time → List ℕ → ProjectionState → ProjectionState
unlist_all market_id at [] state = state
unlist_all market_id at (id ∷ ids) state = unlist_all market_id at ids (
    edit_canvas (market_id, id) (λ canvas. record canvas { listed = false; updated_at = at }) state)

unfoldable pub count : List ℕ → ℕ
count [] = 0
count (id ∷ ids) = 1 + count ids

unfoldable pub finish_settlement :
    ℕ → Time → BTreeMap ℕ TicketRow × DbResult (List ℕ) → ProjectionState → Outcome ℕ
finish_settlement market_id at (tickets, err e) state = (record state { tickets = tickets }, err e)
finish_settlement market_id at (tickets, ok ids) state =
    (unlist_all market_id at ids (record state { tickets = tickets }), ok (count ids))

unfoldable pub settle_round_tickets : ℕ → ℕ → RoundSettlement → ProjectionState → Outcome ℕ
settle_round_tickets market_id round_id settlement state =
    finish_settlement market_id settlement.settled_at
      (settle_tickets market_id round_id settlement state.tickets) state

-- `resolve_market_inner`: the value of a ticket when the market is resolved to `winner`.
unfoldable pub resolved_value : ℕ → Option ℕ → TicketRow → DbResult (Option ℕ)
resolved_value winner none ticket = ok ticket.settlement_value_usdc
resolved_value winner (some payout) ticket =
    if ticket.outcome_id == winner
    then (entry_total payout ticket.reward_shares >>= (λ value. ok (some value)))
    else ok (some 0)

abbrev pub decided : ℕ → TicketRow → TicketRow
decided winner ticket = record ticket {
  status = if ticket.outcome_id == winner then TicketStatus.claimable else TicketStatus.lost;
}

abbrev pub kept_ticket_before :
    ℕ × TicketRow
    → BTreeMap ℕ TicketRow × DbResult (Unit {0})
    → BTreeMap ℕ TicketRow × DbResult (Unit {0})
kept_ticket_before entry (tickets, result) = (entry ∷ tickets, result)

unfoldable pub resolve_tickets :
    ℕ → ℕ → Option ℕ → Time → BTreeMap ℕ TicketRow → BTreeMap ℕ TicketRow × DbResult (Unit {0})
resolve_tickets market_id winner payout at [] = ([], ok tt)
resolve_tickets market_id winner payout at ((id, ticket) ∷ tickets) =
    let rest = resolve_tickets market_id winner payout at tickets in
    if ticket.market_id == market_id
    then elim (resolved_value winner payout ticket) [
      | err e ↦ ((id, decided winner ticket) ∷ tickets, err e)
      | ok value ↦
          kept_ticket_before
            (id, record (decided winner ticket) { settlement_value_usdc = value; updated_at = at })
            rest
    ]
    else kept_ticket_before (id, ticket) rest

abbrev pub with_tickets :
    BTreeMap ℕ TicketRow × DbResult (Unit {0}) → ProjectionState → Outcome (Unit {0})
with_tickets loop state = (record state { tickets = loop.0 }, loop.1)

module _ (clock : Clock) where
  unfoldable pub resolve_found :
      ℕ → ℕ → Option ℕ → EventMeta → MarketRow → ProjectionState → Outcome (Unit {0})
  resolve_found market_id winner payout meta market state =
      with_tickets (resolve_tickets market_id winner payout (projected_at clock meta) state.tickets)
        (record state {
          markets =
              insert market_id
                (record market {
                  status = MarketStatus.resolved;
                  winning_outcome = some winner;
                  updated_at = projected_at clock meta;
                })
                state.markets;
        })

  unfoldable pub resolve_market_inner :
      ℕ → ℕ → Option ℕ → EventMeta → ProjectionState → Outcome (Unit {0})
  resolve_market_inner market_id winner payout meta state =
      or_return (ok_or (get market_id state.markets) (market_not_found market_id)) state
        (λ market. resolve_found market_id winner payout meta market state)

  unfoldable pub resolve_market : ℕ → ℕ → EventMeta → ProjectionState → Outcome (Unit {0})
  resolve_market market_id winner meta state = resolve_market_inner market_id winner none meta state

  abbrev pub payout_claim : ℕ → Text → ℕ → EventMeta → PayoutClaimRow
  payout_claim id wallet paid meta = record {
    ticket_id = id;
    claimer = wallet;
    amount = paid;
    slot = meta.slot;
    signature = meta.signature;
    created_at = projected_at clock meta;
  }

  -- The ticket is marked before the balance is credited, and stays marked if that overflows.
  unfoldable pub claim_marked :
      ℕ → Text → ℕ → EventMeta → TicketRow → ProjectionState → Outcome TicketClaimResult
  claim_marked id claimer paid meta row state =
      or_return (credited claimer paid (projected_at clock meta) state) state (λ balance. (
        record (upsert_cash_balance balance state) {
          payout_claims = insert id (payout_claim id claimer paid meta) state.payout_claims;
        },
        ok (record { ticket = row; cash_balance = balance; amount = paid; credited = true }),
      ))

  unfoldable pub claim_again :
      ℕ → Text → EventMeta → PayoutClaimRow → ProjectionState → Outcome TicketClaimResult
  claim_again id claimer meta existing state = or_return (find_ticket id state) state (λ row. (
    state,
    ok (record {
      ticket = row;
      cash_balance = balance_or_zero claimer (projected_at clock meta) state;
      amount = existing.amount;
      credited = false;
    }),
  ))

  abbrev pub claimed_row : EventMeta → TicketRow → TicketRow
  claimed_row meta row = record row {
    claimed = true;
    status = TicketStatus.claimed;
    updated_at = projected_at clock meta;
  }

  unfoldable pub claim_once :
      ℕ → Text → ℕ → EventMeta → Option PayoutClaimRow → ProjectionState → Outcome TicketClaimResult
  claim_once id claimer paid meta (some existing) state = claim_again id claimer meta existing state
  claim_once id claimer paid meta none state = or_return (find_ticket id state) state (λ row.
      claim_marked id claimer paid meta (claimed_row meta row)
        (set_ticket id (claimed_row meta row) state))

  unfoldable pub claim_ticket_to_cash :
      ℕ → Text → ℕ → EventMeta → ProjectionState → Outcome TicketClaimResult
  claim_ticket_to_cash id claimer paid meta state =
      claim_once id claimer paid meta (get id state.payout_claims) state
