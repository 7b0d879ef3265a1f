-- ===== src/Store/Settled.antt =====
-- What settling a round does to its tickets, said without the machine's arithmetic.
pub mod Loop
pub mod Payable
use basingamarket.Base.{
  ℕ, Bool, true, false, Option, some, none, ◌==◌, ◌&&◌, ◌||◌, ◌*◌, ◌/◌, if◌then◌else◌,
}
use basingamarket.Store.Key.{nat_key}
use basingamarket.Store.Map.{get}
use basingamarket.Store.Rows.Events.{TicketRow, TicketStatus}
use basingamarket.Store.Prices.{scale}
use basingamarket.Store.Settlement.{RoundSettlement}

-- `a * b / SCALE`, rounded down.
abbrev pub at_price : ℕ → ℕ → ℕ
at_price price shares = price * shares / scale

abbrev pub won_value : Option ℕ → ℕ → Option ℕ
won_value none shares = none
won_value (some payout) shares = some (at_price payout shares)

abbrev pub refund_value : Option ℕ → TicketRow → Option ℕ
refund_value none ticket = some ticket.cost_basis_usdc
refund_value (some price) ticket = some (at_price price ticket.reward_shares)

-- A winner gets the payout for its shares, a loser nothing, and a ticket of a voided round its refund or
-- its cost.
abbrev pub worth : Option ℕ → RoundSettlement → TicketRow → Option ℕ
worth none settlement ticket =
    refund_value (get ticket.outcome_id settlement.refund_per_ticket_by_outcome) ticket
worth (some winner) settlement ticket =
    if ticket.outcome_id == winner
    then won_value settlement.payout_per_ticket ticket.reward_shares
    else some 0

-- A ticket is due in a round of its market unless it was claimed or cancelled.
abbrev pub is_over : TicketStatus → Bool
is_over TicketStatus.active = false
is_over TicketStatus.listed = false
is_over TicketStatus.lost = false
is_over TicketStatus.claimable = false
is_over TicketStatus.refundable = false
is_over _ = true

unfoldable pub is_due : ℕ → ℕ → TicketRow → Bool
is_due market_id round_id ticket =
    if ticket.claimed || is_over ticket.status
    then false
    else ticket.round_id == round_id && ticket.market_id == market_id

-- Winners can claim, losers have lost, and a voided round is refunded.
abbrev pub status_after : Option ℕ → ℕ → TicketStatus
status_after none outcome = TicketStatus.refundable
status_after (some winner) outcome =
    if outcome == winner then TicketStatus.claimable else TicketStatus.lost

unfoldable pub settle_one : ℕ → ℕ → RoundSettlement → TicketRow → TicketRow
settle_one market_id round_id settlement ticket =
    if is_due market_id round_id ticket
    then record ticket {
      status = status_after settlement.winning_outcome ticket.outcome_id;
      listed_price = none;
      settlement_value_usdc = worth settlement.winning_outcome settlement ticket;
      updated_at = settlement.settled_at;
    }
    else ticket

-- One for each ticket that is due.
unfoldable pub one_if_due : ℕ → ℕ → TicketRow → ℕ
one_if_due market_id round_id ticket = if is_due market_id round_id ticket then 1 else 0
