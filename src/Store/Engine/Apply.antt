-- ===== src/Store/Engine/Apply.antt =====
-- `apply_event` of crates/db/src/engine.rs. The strings that it builds are built here, the payloads of
-- the envelopes are not.
use basingamarket.Base.{
  ℕ, zero, suc, false, List, [], ◌∷◌, ◌++◌, Option, some, none, ok, err, or_return, ◌==◌, leb, ◌&&◌,
  ◌+◌, ◌-◌, ◌/◌, ◌%◌, if◌then◌else◌, bytes_eq,
}
use basingamarket.Base.Words.{u64_max}
use basingamarket.Store.Key.{Text}
use basingamarket.Store.Rows.Events.{
  Clock, EventMeta, MarketRow, OutcomeRow, TicketRow, MarketStatus, TicketStatus, projected_at,
}
use basingamarket.Store.Rows.Error.{DbResult, projection, unsupported_side}
use basingamarket.Store.State.{ProjectionState, Outcome}
use basingamarket.Store.Prices.{up_text, down_text}
use basingamarket.Store.Tickets.{
  insert_market, insert_ticket, list_ticket, cancel_ticket_listing, sell_ticket, close_market,
  claim_payout,
}
use basingamarket.Store.Settlement.{RoundSettlement, resolve_market, settle_round_tickets}
use basingamarket.Store.Engine.Event.{
  ProtocolEvent, Topic, EventEnvelope, envelope, market_updated, ticket_created, ticket_listed,
  ticket_sold, market_resolved, canvas_updated,
}

-- A number printed in decimal: u64 values have at most twenty digits.
unfoldable pub digits : ℕ → ℕ → Text
digits zero n = []
digits (suc fuel) n =
    let rest = digits fuel (n / 10) in (if n / 10 == 0 then [] else rest) ++ (48 + n % 10) ∷ []

abbrev pub decimal : ℕ → Text
decimal n = digits 20 n

-- "m Crypto Round" and "Outcome "
abbrev pub crypto_round_text : Text
crypto_round_text =
    109 ∷ 32 ∷ 67 ∷ 114 ∷ 121 ∷ 112 ∷ 116 ∷ 111 ∷ 32 ∷ 82 ∷ 111 ∷ 117 ∷ 110 ∷ 100 ∷ []

abbrev pub outcome_text : Text
outcome_text = 79 ∷ 117 ∷ 116 ∷ 99 ∷ 111 ∷ 109 ∷ 101 ∷ 32 ∷ []

-- `to_ascii_uppercase`
abbrev pub upper_byte : ℕ → ℕ
upper_byte byte = if leb 97 byte && leb byte 122 then byte - 32 else byte

unfoldable pub uppercase : Text → Text
uppercase [] = []
uppercase (byte ∷ bytes) = upper_byte byte ∷ uppercase bytes

unfoldable pub side_of_event : Text → DbResult ℕ
side_of_event side =
    if bytes_eq (uppercase side) up_text
    then ok 0
    else if bytes_eq (uppercase side) down_text
    then ok 1
    else err (projection (unsupported_side side))

abbrev pub new_outcome : ℕ → ℕ → Text → ℕ → OutcomeRow
new_outcome market outcome name odds = record {
  market_id = market;
  outcome_id = outcome;
  label = name;
  total_stake = 0;
  total_reward_shares = 0;
  current_odds = odds;
}

-- `(0..outcome_count).map(...)`
unfoldable pub new_outcomes : ℕ → ℕ → List OutcomeRow
new_outcomes market zero = []
new_outcomes market (suc n) =
    new_outcomes market n ++ new_outcome market n (outcome_text ++ decimal n) 0 ∷ []

module _ (clock : Clock) where
  abbrev pub new_market : EventMeta → ℕ → Text → MarketStatus → ℕ → ℕ → ℕ → MarketRow
  new_market meta market question_text state outcomes opens trades_until = record {
    market_id = market;
    question_hash = question_text;
    status = state;
    outcome_count = outcomes;
    open_at = opens;
    trade_until = trades_until;
    winning_outcome = none;
    created_slot = meta.slot;
    created_at = projected_at clock meta;
    updated_at = projected_at clock meta;
  }

  abbrev pub new_ticket : EventMeta → ℕ → ℕ → ℕ → Text → ℕ → ℕ → ℕ → ℕ → ℕ → ℕ → ℕ → TicketRow
  new_ticket meta ticket market round owner outcome stake shares odds cost trust mood_of = record {
    ticket_id = ticket;
    market_id = market;
    round_id = round;
    outcome_id = outcome;
    original_caller = owner;
    current_owner = owner;
    stake_amount = stake;
    reward_shares = shares;
    entry_odds = odds;
    cost_basis_usdc = cost;
    settlement_value_usdc = none;
    listed_price = none;
    status = TicketStatus.active;
    claimed = false;
    confidence = trust;
    mood = mood_of;
    created_slot = meta.slot;
    created_at = projected_at clock meta;
    updated_at = projected_at clock meta;
  }

  -- The envelopes of a projection that went well.
  abbrev pub tells :
      {A : Type 0} → (A → List EventEnvelope) → Outcome A → Outcome (List EventEnvelope)
  tells envelopes (state, ok value) = (state, ok (envelopes value))
  tells envelopes (state, err e) = (state, err e)

  abbrev pub about_market : Topic → EventMeta → ℕ → List EventEnvelope
  about_market topic meta market = envelope topic meta (some market) none ∷ []

  abbrev pub about_ticket : Topic → EventMeta → ℕ → ℕ → List EventEnvelope
  about_ticket topic meta market ticket = envelope topic meta (some market) (some ticket) ∷ []

  -- The arms of `FreshBought | OpeningOrderClaimed`, `TicketMinted` and `RoundResolved`.
  unfoldable pub lot_bought :
      EventMeta
      → ℕ
      → ℕ
      → ℕ
      → Text
      → Text
      → ℕ
      → ℕ
      → ℕ
      → ProjectionState
      → Outcome (List EventEnvelope)
  lot_bought meta lot market round owner side tickets usdc_in price state =
      or_return (side_of_event side) state (λ outcome.
        tells (λ unit. about_ticket ticket_created meta market lot)
          (insert_ticket
            (new_ticket meta lot market round owner outcome tickets tickets price usdc_in 50 0) meta
            state))

  unfoldable pub ticket_minted_at :
      EventMeta → TicketRow → ProjectionState → Outcome (List EventEnvelope)
  ticket_minted_at meta row state =
      tells
        (λ unit.
          envelope ticket_created meta (some row.market_id) (some row.ticket_id)
          ∷ envelope canvas_updated meta (some row.market_id) (some row.ticket_id)
          ∷ [])
        (insert_ticket row meta state)

  abbrev pub settlement_of : EventMeta → Option ℕ → Option ℕ → RoundSettlement
  settlement_of meta winner payout = record {
    winning_outcome = winner;
    payout_per_ticket = payout;
    refund_per_ticket_by_outcome = [];
    settled_at = projected_at clock meta;
  }

  unfoldable pub round_resolved_to :
      EventMeta → ℕ → ℕ → Text → ℕ → ProjectionState → Outcome (List EventEnvelope)
  round_resolved_to meta market round side payout state =
      or_return (side_of_event side) state (λ winner.
        tells (λ settled. about_market market_resolved meta market)
          (settle_round_tickets market round (settlement_of meta (some winner) (some payout))
            state))

  unfoldable pub apply_event :
      EventMeta → ProtocolEvent → ProjectionState → Outcome (List EventEnvelope)
  apply_event meta
        (ProtocolEvent.market_config_created market asset duration source fee resale_fee minimum)
        state =
      (
        insert_market
            (new_market meta market
              (asset ++ 32 ∷ [] ++ decimal (duration / 60) ++ crypto_round_text) MarketStatus.opened
              2 0 u64_max)
            (new_outcome market 0 up_text 500000 ∷ new_outcome market 1 down_text 500000 ∷ [])
            state,
        ok (about_market market_updated meta market),
      )
  apply_event meta (ProtocolEvent.market_created market question outcomes opens trades_until)
        state =
      (
        insert_market
            (new_market meta market question
              (if opens == 0 then MarketStatus.opened else MarketStatus.scheduled) outcomes opens
              trades_until)
            (new_outcomes market outcomes) state,
        ok (about_market market_updated meta market),
      )
  apply_event meta
        (ProtocolEvent.ticket_minted ticket market round owner outcome stake shares odds trust mood)
        state =
      ticket_minted_at meta
        (new_ticket meta ticket market round owner outcome stake shares odds stake trust mood) state
  apply_event meta (ProtocolEvent.round_opened market round start batch end price symbol interval)
        state =
      (state, ok (about_market market_updated meta market))
  apply_event meta (ProtocolEvent.opening_order_submitted market round order user side net) state =
      (state, ok (about_market market_updated meta market))
  apply_event meta (ProtocolEvent.opening_side_finalized market round side net tickets) state =
      (state, ok (about_market market_updated meta market))
  apply_event meta
        (ProtocolEvent.fresh_bought lot market round owner side usdc fee net tickets price after)
        state =
      lot_bought meta lot market round owner side tickets usdc price state
  apply_event meta
        (ProtocolEvent.opening_order_claimed market round order lot owner side tickets usdc price)
        state =
      lot_bought meta lot market round owner side tickets usdc price state
  apply_event meta (ProtocolEvent.ticket_listed ticket seller price) state =
      tells (λ market. about_ticket ticket_listed meta market ticket)
        (list_ticket clock ticket price meta state)
  apply_event meta (ProtocolEvent.listing_cancelled lot market owner) state =
      tells (λ projected. about_ticket ticket_listed meta projected lot)
        (cancel_ticket_listing clock lot meta state)
  apply_event meta (ProtocolEvent.ticket_sold ticket from to price) state =
      tells (λ market. about_ticket ticket_sold meta market ticket)
        (sell_ticket clock ticket from to price meta state)
  apply_event meta (ProtocolEvent.listing_bought lot market round from to price fee early_fee)
        state =
      tells (λ projected. about_ticket ticket_sold meta projected lot)
        (sell_ticket clock lot from to price meta state)
  apply_event meta (ProtocolEvent.market_closed market) state =
      tells (λ unit. about_market Topic.market_closed meta market)
        (close_market clock market meta state)
  apply_event meta (ProtocolEvent.round_closed market round) state =
      (state, ok (about_market market_updated meta market))
  apply_event meta (ProtocolEvent.market_resolved market winner) state =
      tells (λ unit. about_market Topic.market_resolved meta market)
        (resolve_market clock market winner meta state)
  apply_event meta (ProtocolEvent.round_resolved market round start end side vault payout protocol)
        state =
      round_resolved_to meta market round side payout state
  apply_event meta (ProtocolEvent.round_voided market round start end) state =
      tells (λ settled. about_market Topic.market_resolved meta market)
        (settle_round_tickets market round (settlement_of meta none none) state)
  apply_event meta (ProtocolEvent.payout_claimed ticket claimer amount) state =
      tells (λ market. about_ticket market_updated meta market ticket)
        (claim_payout clock ticket claimer amount meta state)
  apply_event meta (ProtocolEvent.winning_lot_claimed lot market round claimer amount) state =
      tells (λ projected. about_ticket market_updated meta projected lot)
        (claim_payout clock lot claimer amount meta state)
  apply_event meta (ProtocolEvent.void_lot_claimed lot market round claimer amount) state =
      tells (λ projected. about_ticket market_updated meta projected lot)
        (claim_payout clock lot claimer amount meta state)
