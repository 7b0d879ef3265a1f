-- ===== src/Store/Ledger/Once/Claims.antt =====
-- A ticket is paid out once.
use basingamarket.Base.{
  ℕ, true, false, ◌≡◌, refl, ap, Option, some, none, ok, err, or_return, ok_or,
}
use mathlib.Core.Path.{subst}
use basingamarket.Store.Key.{Text, text_key, nat_key}
use basingamarket.Store.Map.{get, insert}
use basingamarket.Store.Map.Laws.{get-insert}
use basingamarket.Store.Rows.Events.{Clock, EventMeta, TicketRow, PayoutClaimRow, projected_at}
use basingamarket.Store.Rows.Error.{DbResult, ticket_not_found}
use basingamarket.Store.Rows.Cash.{TicketClaimResult}
use basingamarket.Store.State.{ProjectionState}
use basingamarket.Store.Balances.{upsert_cash_balance, credited, balance_or_zero}
use basingamarket.Store.Tickets.{find_ticket, set_ticket}
use basingamarket.Store.Settlement.{
  claim_marked, claim_again, claim_once, claim_ticket_to_cash, claimed_row, payout_claim,
}
use basingamarket.Store.Ledger.Once.{Known}
use basingamarket.Store.Ledger.Holdings.{or_return-lands}

module _ (clock : Clock) (id : ℕ) (claimer : Text) (amount : ℕ) (meta : EventMeta) where
  -- A claim and its ticket are there.
  abbrev ClaimKnown : ProjectionState → Type 0
  ClaimKnown state = Known (get id state.payout_claims) × Known (get id state.tickets)

  claim_found-Known :
      (found : DbResult TicketRow) (state after : ProjectionState) (reply : TicketClaimResult)
      → or_return found state (λ row.
        claim_marked clock id claimer amount meta
          (claimed_row clock meta row)
          (set_ticket id (claimed_row clock meta row) state))
        ≡ (after, ok reply)
      → ClaimKnown after
  unfolding claim_marked upsert_cash_balance
  claim_found-Known (err e) state after reply run = cc
  claim_found-Known (ok row) state after reply run =
      let marked = set_ticket id (claimed_row clock meta row) state in
      let claim = payout_claim clock id claimer amount meta in
      or_return-lands ClaimKnown marked (credited claimer amount (projected_at clock meta) marked)
        (λ balance. record (upsert_cash_balance balance marked) {
          payout_claims = insert id claim state.payout_claims;
        })
        (λ balance. record {
          ticket = claimed_row clock meta row;
          cash_balance = balance;
          amount = amount;
          credited = true;
        })
        (λ balance h. (
          (claim, get-insert id claim state.payout_claims),
          (claimed_row clock meta row, get-insert id (claimed_row clock meta row) state.tickets),
        ))
        run

  again-Known :
      (found : Option TicketRow) (state after : ProjectionState) (reply : TicketClaimResult)
      (value : TicketRow → TicketClaimResult)
      → Known (get id state.payout_claims)
      → get id state.tickets ≡ found
      → or_return (ok_or found (ticket_not_found id)) state (λ row. (state, ok (value row)))
        ≡ (after, ok reply)
      → ClaimKnown after
  again-Known none state after reply value known at run = cc
  again-Known (some row) state after reply value known at run =
      let same : state ≡ after = cc in subst ClaimKnown same (known, (row, at))

  claim_once-Known :
      (known : Option PayoutClaimRow) (state after : ProjectionState) (reply : TicketClaimResult)
      → get id state.payout_claims ≡ known
      → claim_once clock id claimer amount meta known state ≡ (after, ok reply)
      → ClaimKnown after
  unfolding claim_once claim_again
  claim_once-Known (some existing) state after reply at run =
      again-Known (get id state.tickets) state after reply _ (existing, at) refl run
  claim_once-Known none state after reply at run =
      claim_found-Known (find_ticket id state) state after reply run

  claim_once_again :
      (state : ProjectionState) (found : Option PayoutClaimRow) (ticket : Option TicketRow)
      → Known found
      → get id state.tickets ≡ ticket
      → Known ticket
      → (reply : TicketClaimResult) × (claim_once clock id claimer amount meta found state
          ≡ (state, ok reply))
        × (reply.credited ≡ false)
  unfolding claim_once claim_again
  claim_once_again state none ticket (existing, h) at there = cc
  claim_once_again state (some existing) none known at (row, h) = cc
  claim_once_again state (some existing) (some row) known at there = (
    record {
      ticket = row;
      cash_balance = balance_or_zero claimer (projected_at clock meta) state;
      amount = existing.amount;
      credited = false;
    },
    ap
        (λ t. or_return (ok_or t (ticket_not_found id)) state (λ found_row. (
          state,
          ok (record {
            ticket = found_row;
            cash_balance = balance_or_zero claimer (projected_at clock meta) state;
            amount = existing.amount;
            credited = false;
          }),
        )))
        at,
    refl,
  )

  pub claim_ticket_to_cash_again :
      (state after : ProjectionState) (reply : TicketClaimResult)
      → claim_ticket_to_cash clock id claimer amount meta state ≡ (after, ok reply)
      → (again : TicketClaimResult) × (claim_ticket_to_cash clock id claimer amount meta after
          ≡ (after, ok again))
        × (again.credited ≡ false)
  unfolding claim_ticket_to_cash
  claim_ticket_to_cash_again state after reply run =
      let there = claim_once-Known (get id state.payout_claims) state after reply refl run in
      claim_once_again after (get id after.payout_claims) (get id after.tickets) there.0 refl
        there.1
