-- ===== src/Store/Rows/Events.antt =====
-- The rows of markets, tickets and what is drawn of them (crates/db/src/rows.rs) and the statuses of
-- crates/domain/src/lib.rs. A time is the number of nanoseconds since 1970, a wallet is its string.
use basingamarket.Base.{ℕ, Bool, Option, some, none}
use basingamarket.Base.Int.{ℤ}
use basingamarket.Base.Words.{i64_of_residue}
use basingamarket.Store.Key.{Text}

abbrev pub Time : Type 0
Time = ℤ

-- `MarketStatus::Open` is `opened`.
pub data MarketStatus : Type 0 where
  scheduled opened closed resolved cancelled : MarketStatus

pub data TicketStatus : Type 0 where
  active listed claimable refundable claimed lost cancelled : TicketStatus

pub data ShareCardStatus : Type 0 where
  pending processing completed failed : ShareCardStatus

pub record EventMeta : Type 0 where
  pub cluster : Text
  pub program_id : Text
  pub slot : ℕ
  pub block_hash : Text
  pub signature : Text
  pub instruction_index : ℕ

pub record MarketRow : Type 0 where
  pub market_id : ℕ
  pub question_hash : Text
  pub status : MarketStatus
  pub outcome_count : ℕ
  pub open_at : ℕ
  pub trade_until : ℕ
  pub winning_outcome : Option ℕ
  pub created_slot : ℕ
  pub created_at : Time
  pub updated_at : Time

pub record OutcomeRow : Type 0 where
  pub market_id : ℕ
  pub outcome_id : ℕ
  pub label : Text
  pub total_stake : ℕ
  pub total_reward_shares : ℕ
  pub current_odds : ℕ

pub record TicketRow : Type 0 where
  pub ticket_id : ℕ
  pub market_id : ℕ
  pub round_id : ℕ
  pub outcome_id : ℕ
  pub original_caller : Text
  pub current_owner : Text
  pub stake_amount : ℕ
  pub reward_shares : ℕ
  pub entry_odds : ℕ
  pub cost_basis_usdc : ℕ
  pub settlement_value_usdc : Option ℕ
  pub listed_price : Option ℕ
  pub status : TicketStatus
  pub claimed : Bool
  pub confidence : ℕ
  pub mood : ℕ
  pub created_slot : ℕ
  pub created_at : Time
  pub updated_at : Time

pub record TicketTransferRow : Type 0 where
  pub ticket_id : ℕ
  pub from_address : Text
  pub to_address : Text
  pub price : ℕ
  pub slot : ℕ
  pub signature : Text
  pub created_at : Time

pub record PositionHistoryRow : Type 0 where
  pub wallet_address : Text
  pub market_id : ℕ
  pub ticket_id : ℕ
  pub action : Text
  pub outcome_id : ℕ
  pub amount : ℕ
  pub slot : ℕ
  pub created_at : Time

pub record CanvasObjectRow : Type 0 where
  pub market_id : ℕ
  pub ticket_id : ℕ
  pub x : ℕ
  pub y : ℕ
  pub radius : ℕ
  pub avatar_url : Option Text
  pub mood : ℕ
  pub confidence : ℕ
  pub listed : Bool
  pub current_owner : Text
  pub original_caller : Text
  pub z_index : ℕ
  pub updated_at : Time

pub record PayoutClaimRow : Type 0 where
  pub ticket_id : ℕ
  pub claimer : Text
  pub amount : ℕ
  pub slot : ℕ
  pub signature : Text
  pub created_at : Time

pub record ShareCardRow : Type 0 where
  pub id : ℕ
  pub ticket_id : ℕ
  pub status : ShareCardStatus
  pub svg_hash : Option Text
  pub png_url : Option Text
  pub error_message : Option Text
  pub created_at : Time
  pub updated_at : Time

-- chrono's `from_timestamp`, and one reading of the clock of the machine with it: what one call of
-- `Utc::now` gives.
abbrev pub Dates : Type 0
Dates = ℤ → ℕ → Option Time

pub record Clock : Type 0 where
  pub now : Time
  pub from_timestamp : Dates

unfoldable pub projected_at : Clock → EventMeta → Time
projected_at clock meta = elim (clock.from_timestamp (i64_of_residue meta.slot) 0) [
  | none ↦ clock.now
  | some t ↦ t
]
