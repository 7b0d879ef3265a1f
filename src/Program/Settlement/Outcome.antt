-- ===== src/Program/Settlement/Outcome.antt =====
-- What resolving a round does to its books and to the protocol's: `apply_round_resolution`.
use native.Mathlib.Nat.{div-mul-le_self}
use basingamarket.Base.{ℕ, ◌+◌, ◌*◌, ◌≤◌, ◌<◌, ◌≡◌, ◌≢◌, ◌⊎◌, arith, ok}
use basingamarket.Program.Curve.{curve_for_side}
use basingamarket.Program.Math.{scale, checked_add, checked_sub}
use basingamarket.Program.Math.Exact.{mul_div-eq}
use basingamarket.Program.Settlement.{
  apply_round_resolution, resolve_with_winner, resolve_without_winner, voided_round, winner,
}
use basingamarket.Program.State.{GlobalConfig, Round, outcome_of_side, resolved}

-- Everything that the round has taken in.
abbrev pub gross_vault : Round → ℕ
gross_vault r = r.up.real_usdc + r.down.real_usdc + r.round_bonus_usdc

-- The round was resolved: its winner is the side that the price moved to, its vault is split between
-- the winners and the protocol, and the protocol's share is accrued.
pub record IsResolved (r : Round) (c : GlobalConfig) (e : ℕ) (r' : Round) (c' : GlobalConfig)
    : Type 0 where
  pub moved : e ≢ r.start_price
  pub status : r'.status ≡ resolved
  pub winning : r'.winning_side ≡ outcome_of_side (winner r.start_price e)
  pub split : r'.settlement_vault + r'.protocol_vault_amount ≡ gross_vault r
  pub accrued :
      c'.protocol_fee_accrued_usdc ≡ c.protocol_fee_accrued_usdc + r'.protocol_vault_amount
  pub payout :
      r'.payout_per_ticket * (curve_for_side r (winner r.start_price e)).ticket_supply
      ≤ r'.settlement_vault * scale
  pub up : r'.up ≡ r.up
  pub down : r'.down ≡ r.down

-- Why a round is voided: the price did not move, or there are winning tickets and a side holds too
-- little.
abbrev pub VoidCause : Round → GlobalConfig → ℕ → Type 0
VoidCause r c e =
    (e ≡ r.start_price)
    ⊎ (((curve_for_side r (winner r.start_price e)).ticket_supply ≢ 0)
        × ((r.up.real_usdc < c.min_side_real_usdc) ⊎ (r.down.real_usdc < c.min_side_real_usdc)))

resolve_without_winner-IsResolved :
    (r : Round) (c : GlobalConfig) (e : ℕ) {r' : Round} {c' : GlobalConfig}
    → e ≢ r.start_price
    → (curve_for_side r (winner r.start_price e)).ticket_supply ≡ 0
    → resolve_without_winner r c (winner r.start_price e) (gross_vault r) ≡ ok (r', c')
    → IsResolved r c e r' c'
unfolding resolve_without_winner checked_add
resolve_without_winner-IsResolved r c e moved none_won h = ground arith

resolve_with_winner-IsResolved :
    (r : Round) (c : GlobalConfig) (e : ℕ) {r' : Round} {c' : GlobalConfig}
    → e ≢ r.start_price
    → resolve_with_winner r c (winner r.start_price e) (gross_vault r) ≡ ok (r', c')
    → IsResolved r c e r' c'
unfolding resolve_with_winner checked_add checked_sub
resolve_with_winner-IsResolved r c e {r'} {c'} moved h =
    let supply = (curve_for_side r (winner r.start_price e)).ticket_supply in
    ground (
      arith,
      mul_div-eq r'.settlement_vault scale supply {q = r'.payout_per_ticket},
      div-mul-le_self (r'.settlement_vault * scale) supply,
    )

-- Resolving a round that goes through either settles it, dividing the whole vault between winners
-- and protocol and accruing the protocol's part, or voids it for one of the causes and accrues
-- nothing.
pub apply_round_resolution_outcome :
    (r : Round) (c : GlobalConfig) (e : ℕ) {r' : Round} {c' : GlobalConfig}
    → apply_round_resolution r c e ≡ ok (r', c')
    → IsResolved r c e r' c' ⊎ (VoidCause r c e × (r' ≡ voided_round r) × (c' ≡ c))
unfolding apply_round_resolution checked_add
apply_round_resolution_outcome r c e {r'} {c'} h = ground (
  arith,
  resolve_without_winner-IsResolved r c e {r' = r'} {c' = c'},
  resolve_with_winner-IsResolved r c e {r' = r'} {c' = c'},
)
