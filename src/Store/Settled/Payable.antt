-- ===== src/Store/Settled/Payable.antt =====
-- What the tickets of a settled round can be paid, against the payout of their shares.
use basingamarket.Base.{
  ℕ, Bool, true, false, [], ◌∷◌, Option, some, none, ok, ◌≡◌, ◌==◌, ◌&&◌, ◌+◌, ◌*◌, ◌≤◌,
  if◌then◌else◌, arith, sym,
}
use mathlib.Core.Path.{subst}
use native.Mathlib.Nat.{add-mul, mul-add}
use basingamarket.Store.Key.{nat_key}
use basingamarket.Store.Map.{BTreeMap, total, map_values}
use basingamarket.Store.Rows.Events.{TicketRow, TicketStatus}
use basingamarket.Store.State.{ProjectionState}
use basingamarket.Store.Prices.{scale}
use basingamarket.Store.Settlement.{RoundSettlement, settles, settle_round_tickets}
use basingamarket.Store.Settled.{settle_one}
use basingamarket.Store.Settled.Loop.{settles-is_due, settle_round_tickets-settle_one}

abbrev pub is_claimable : TicketStatus → Bool
is_claimable TicketStatus.claimable = true
is_claimable _ = false

abbrev pub amount_in : Option ℕ → ℕ
amount_in none = 0
amount_in (some amount) = amount

-- What a ticket that may be claimed is worth, and the shares that a ticket has in a win.
unfoldable pub claimable_value : ℕ → ℕ → TicketRow → ℕ
claimable_value market_id round_id ticket =
    if settles market_id round_id ticket && is_claimable ticket.status
    then amount_in ticket.settlement_value_usdc
    else 0

unfoldable pub winning_shares : ℕ → ℕ → ℕ → TicketRow → ℕ
winning_shares market_id round_id winner ticket =
    if settles market_id round_id ticket && ticket.outcome_id == winner
    then ticket.reward_shares
    else 0

sum_below : (a b d p c e : ℕ) → a * d ≤ p * c → b * d ≤ p * e → (a + b) * d ≤ p * (c + e)
sum_below a b d p c e h k = ground (arith, add-mul a b d, mul-add p c e)

module _ (market_id round_id winner payout : ℕ) (settlement : RoundSettlement)
    (won : settlement.winning_outcome ≡ some winner)
    (paid : settlement.payout_per_ticket ≡ some payout) where
  one_ticket :
      (ticket : TicketRow)
      → claimable_value market_id round_id (settle_one market_id round_id settlement ticket) * scale
        ≤ payout * winning_shares market_id round_id winner ticket
  unfolding claimable_value settle_one winning_shares
  one_ticket ticket = ground (
    arith,
    won,
    paid,
    settles-is_due market_id round_id ticket,
    settles-is_due market_id round_id (settle_one market_id round_id settlement ticket),
  )

  all_tickets :
      (tickets : BTreeMap ℕ TicketRow)
      → total
            (claimable_value market_id round_id)
            (map_values (settle_one market_id round_id settlement) tickets)
          * scale
        ≤ payout * total (winning_shares market_id round_id winner) tickets
  unfolding total map_values
  all_tickets [] = omega arith
  all_tickets ((id, ticket) ∷ tickets) =
      sum_below _ _ scale payout _ _ (one_ticket ticket) (all_tickets tickets)

  -- After a round is settled to a winner, all that its tickets can claim is at most the payout for the
  -- shares that the winning tickets have, at the scale of prices.
  pub settle_round_tickets-claimable_value :
      (state after : ProjectionState) (updated : ℕ)
      → settle_round_tickets market_id round_id settlement state ≡ (after, ok updated)
      → total (claimable_value market_id round_id) after.tickets * scale
        ≤ payout * total (winning_shares market_id round_id winner) state.tickets
  settle_round_tickets-claimable_value state after updated run =
      subst
        (λ tickets.
          total (claimable_value market_id round_id) tickets * scale
          ≤ payout * total (winning_shares market_id round_id winner) state.tickets)
        (sym
          (settle_round_tickets-settle_one market_id round_id settlement state after updated run).0)
        (all_tickets state.tickets)
