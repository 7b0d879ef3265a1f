-- ===== src/Program/State.antt =====
-- The accounts of the program: the structs and enums of programs/basingamarket/src/lib.rs. A Pubkey
-- is the number that its 32 bytes spell, so `Pubkey::default()` is 0; a timestamp is an i64.
use basingamarket.Base.{ℕ, Bool, List, true, false}
use basingamarket.Base.Int.{ℤ}

abbrev pub Pubkey : Type 0
Pubkey = ℕ

abbrev pub default_pubkey : Pubkey
default_pubkey = 0

-- The fixed byte arrays `[u8; 16]` and `[u8; 8]`
abbrev pub Bytes : Type 0
Bytes = List ℕ

pub data Asset : Type 0 where
  btc eth sol xrp doge : Asset

pub data Side : Type 0 where
  up down : Side

pub data RoundOutcome : Type 0 where
  none up down void : RoundOutcome

-- `RoundStatus::Open` is `opened`.
pub data RoundStatus : Type 0 where
  opened closed resolved voided : RoundStatus

abbrev pub side_eq : Side → Side → Bool
side_eq Side.up Side.up = true
side_eq Side.down Side.down = true
side_eq _ _ = false

abbrev pub outcome_eq : RoundOutcome → RoundOutcome → Bool
outcome_eq RoundOutcome.none RoundOutcome.none = true
outcome_eq RoundOutcome.up RoundOutcome.up = true
outcome_eq RoundOutcome.down RoundOutcome.down = true
outcome_eq RoundOutcome.void RoundOutcome.void = true
outcome_eq _ _ = false

abbrev pub status_eq : RoundStatus → RoundStatus → Bool
status_eq opened opened = true
status_eq closed closed = true
status_eq resolved resolved = true
status_eq voided voided = true
status_eq _ _ = false

-- `impl From<Side> for RoundOutcome`
abbrev pub outcome_of_side : Side → RoundOutcome
outcome_of_side Side.up = RoundOutcome.up
outcome_of_side Side.down = RoundOutcome.down

pub record GlobalConfig : Type 0 where
  pub admin : Pubkey
  pub protocol_treasury : Pubkey
  pub usdc_mint : Pubkey
  pub trusted_settlement_actor : Pubkey
  pub buy_fee_bps : ℕ
  pub resale_fee_bps : ℕ
  pub settlement_fee_bps : ℕ
  pub min_side_real_usdc : ℕ
  pub protocol_fee_accrued_usdc : ℕ
  pub paused : Bool
  pub bump : ℕ

pub record MarketConfig : Type 0 where
  pub market_id : ℕ
  pub asset : Asset
  pub duration_seconds : ℕ
  pub binance_symbol : Bytes
  pub binance_interval : Bytes
  pub virtual_usdc_start : ℕ
  pub virtual_ticket_start : ℕ
  pub opening_batch_seconds : ℕ
  pub opening_wallet_side_cap_usdc : ℕ
  pub active : Bool
  pub bump : ℕ

pub record Curve : Type 0 where
  pub virtual_usdc : ℕ
  pub virtual_ticket : ℕ
  pub real_usdc : ℕ
  pub ticket_supply : ℕ

-- `Curve::new`
abbrev pub new_curve : ℕ → ℕ → Curve
new_curve virtual_usdc virtual_ticket = record {
  virtual_usdc = virtual_usdc;
  virtual_ticket = virtual_ticket;
  real_usdc = 0;
  ticket_supply = 0;
}

pub record Round : Type 0 where
  pub market : Pubkey
  pub round_id : ℕ
  pub start_at : ℤ
  pub batch_until : ℤ
  pub end_at : ℤ
  pub start_price : ℕ
  pub end_price : ℕ
  pub status : RoundStatus
  pub winning_side : RoundOutcome
  pub up : Curve
  pub down : Curve
  pub round_bonus_usdc : ℕ
  pub payout_per_ticket : ℕ
  pub settlement_vault : ℕ
  pub protocol_vault_amount : ℕ
  pub binance_symbol : Bytes
  pub binance_interval : Bytes
  pub binance_open_time_ms : ℤ
  pub binance_close_time_ms : ℤ
  pub bump : ℕ

pub record OpeningOrder : Type 0 where
  pub round : Pubkey
  pub user : Pubkey
  pub side : Side
  pub net_usdc : ℕ
  pub claimed : Bool
  pub bump : ℕ

pub record OpeningAggregate : Type 0 where
  pub round : Pubkey
  pub side : Side
  pub total_net_usdc : ℕ
  pub total_tickets_out : ℕ
  pub finalized : Bool

pub record PositionLot : Type 0 where
  pub lot_id : ℕ
  pub round : Pubkey
  pub side : Side
  pub current_owner : Pubkey
  pub original_buyer : Pubkey
  pub ticket_amount : ℕ
  pub usdc_in : ℕ
  pub avg_entry_price : ℕ
  pub listed : Bool
  pub listed_price : ℕ
  pub created_at : ℤ
  pub last_transfer_at : ℤ
  pub claimed : Bool

-- Anchor's `Account<T>`: the key of the account and what it holds.
pub record Account (A : Type 0) : Type 0 where
  pub key : Pubkey
  pub value : A
