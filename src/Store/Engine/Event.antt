-- ===== src/Store/Engine/Event.antt =====
-- `ProtocolEvent` of crates/protocol-events/src/lib.rs, and what the engine tells of an event: the
-- envelope of crates/realtime/src/lib.rs without its JSON payload, its random id and its time.
use basingamarket.Base.{ℕ, Option, Bool, false, List, [], ◌∷◌, ◌==◌, bytes_eq, ◌&&◌, ◌||◌}
use basingamarket.Base.Int.{ℤ}
use basingamarket.Store.Key.{Text}
use basingamarket.Store.Rows.Events.{Time, EventMeta}

pub data ProtocolEvent : Type 0 where
  market_created :
      (market_id : ℕ) (question_hash : Text) (outcome_count open_at trade_until : ℕ) → ProtocolEvent
  market_config_created :
      (market_id : ℕ) (asset : Text) (duration_seconds : ℕ) (settlement_source : Text)
      (buy_fee_bps resale_fee_bps min_side_real_usdc : ℕ)
      → ProtocolEvent
  round_opened :
      (market_id round_id : ℕ) (start_at batch_until end_at : ℤ) (start_price : ℕ)
      (binance_symbol binance_interval : Text)
      → ProtocolEvent
  opening_order_submitted :
      (market_id round_id order_id : ℕ) (user side : Text) (net_usdc : ℕ) → ProtocolEvent
  opening_side_finalized :
      (market_id round_id : ℕ) (side : Text) (total_net_usdc total_tickets_out : ℕ) → ProtocolEvent
  opening_order_claimed :
      (market_id round_id order_id lot_id : ℕ) (owner side : Text)
      (ticket_amount usdc_in avg_entry_price : ℕ)
      → ProtocolEvent
  fresh_bought :
      (lot_id market_id round_id : ℕ) (owner side : Text)
      (usdc_in fee net_usdc tickets_out avg_entry_price fresh_price_after : ℕ)
      → ProtocolEvent
  ticket_minted :
      (ticket_id market_id round_id : ℕ) (owner : Text)
      (outcome_id stake_amount reward_shares entry_odds confidence mood : ℕ)
      → ProtocolEvent
  ticket_listed : (ticket_id : ℕ) (seller : Text) (price : ℕ) → ProtocolEvent
  listing_cancelled : (lot_id market_id : ℕ) (owner : Text) → ProtocolEvent
  ticket_sold : (ticket_id : ℕ) (from to : Text) (price : ℕ) → ProtocolEvent
  listing_bought :
      (lot_id market_id round_id : ℕ) (from to : Text) (price resale_fee early_flip_fee : ℕ)
      → ProtocolEvent
  market_closed : (market_id : ℕ) → ProtocolEvent
  round_closed : (market_id round_id : ℕ) → ProtocolEvent
  market_resolved : (market_id winning_outcome : ℕ) → ProtocolEvent
  round_resolved :
      (market_id round_id start_price end_price : ℕ) (winning_side : Text)
      (settlement_vault payout_per_ticket protocol_vault_amount : ℕ)
      → ProtocolEvent
  round_voided : (market_id round_id start_price end_price : ℕ) → ProtocolEvent
  payout_claimed : (ticket_id : ℕ) (claimer : Text) (amount : ℕ) → ProtocolEvent
  winning_lot_claimed :
      (lot_id market_id round_id : ℕ) (claimer : Text) (amount : ℕ) → ProtocolEvent
  void_lot_claimed : (lot_id market_id round_id : ℕ) (claimer : Text) (amount : ℕ) → ProtocolEvent

pub data Topic : Type 0 where
  market_updated ticket_created ticket_listed ticket_sold market_closed : Topic
  market_resolved canvas_updated : Topic

pub record EventEnvelope : Type 0 where
  pub event_type : Topic
  pub cluster : Text
  pub slot : ℕ
  pub signature : Text
  pub market_id : Option ℕ
  pub ticket_id : Option ℕ

unfoldable pub envelope : Topic → EventMeta → Option ℕ → Option ℕ → EventEnvelope
envelope topic meta market ticket = record {
  event_type = topic;
  cluster = meta.cluster;
  slot = meta.slot;
  signature = meta.signature;
  market_id = market;
  ticket_id = ticket;
}

pub record RawEventKey : Type 0 where
  pub cluster : Text
  pub slot : ℕ
  pub instruction_index : ℕ

abbrev pub raw_key : EventMeta → RawEventKey
raw_key meta = record {
  cluster = meta.cluster;
  slot = meta.slot;
  instruction_index = meta.instruction_index;
}

abbrev pub key_eq : RawEventKey → RawEventKey → Bool
key_eq a b =
    bytes_eq a.cluster b.cluster && a.slot == b.slot && a.instruction_index == b.instruction_index

unfoldable pub contains : RawEventKey → List RawEventKey → Bool
contains key [] = false
contains key (other ∷ others) = key_eq key other || contains key others

pub record RawEventRecord : Type 0 where
  pub key : RawEventKey
  pub program_id : Text
  pub block_hash : Text
  pub signature : Text
  pub event : ProtocolEvent
  pub canonical : Bool
  pub inserted_at : Time
