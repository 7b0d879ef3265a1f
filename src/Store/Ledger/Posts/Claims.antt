-- ===== src/Store/Ledger/Posts/Claims.antt =====
-- The entry of a ticket that is paid out to cash.
use basingamarket.Base.{ℕ, true, ◌≡◌, Option, some, none, ok, err, or_return}
use basingamarket.Store.Key.{Text, text_key, nat_key}
use basingamarket.Store.Map.{get, insert}
use basingamarket.Store.Rows.Events.{Clock, EventMeta, TicketRow, PayoutClaimRow, projected_at}
use basingamarket.Store.Rows.Error.{DbResult}
use basingamarket.Store.Rows.Cash.{TicketClaimResult}
use basingamarket.Store.State.{ProjectionState}
use basingamarket.Store.Balances.{upsert_cash_balance, credited}
use basingamarket.Store.Tickets.{find_ticket, set_ticket}
use basingamarket.Store.Settlement.{
  claim_marked, claim_again, claim_once, claim_ticket_to_cash, claimed_row, payout_claim,
}
use basingamarket.Store.Ledger.{credit, nothing, holdings, Posts, unless_known}
use basingamarket.Store.Ledger.Holdings.{credit-Posts, or_return-Posts, unchanged-Posts}

module _ (clock : Clock) (id : ℕ) (claimer : Text) (amount : ℕ) (meta : EventMeta) where
  claim_found-Posts :
      (found : DbResult TicketRow) (state after : ProjectionState) (reply : TicketClaimResult)
      → or_return found state (λ row.
        claim_marked clock id claimer amount meta
          (claimed_row clock meta row)
          (set_ticket id (claimed_row clock meta row) state))
        ≡ (after, ok reply)
      → Posts (credit claimer amount) state after
  unfolding claim_marked Posts holdings upsert_cash_balance
  claim_found-Posts (err e) state after reply run = cc
  claim_found-Posts (ok row) state after reply run =
      let marked = set_ticket id (claimed_row clock meta row) state in
      or_return-Posts (credit claimer amount) state marked
        (credited claimer amount (projected_at clock meta) marked)
        (λ balance. record (upsert_cash_balance balance marked) {
          payout_claims = insert id (payout_claim clock id claimer amount meta) state.payout_claims;
        })
        (λ balance. record {
          ticket = claimed_row clock meta row;
          cash_balance = balance;
          amount = amount;
          credited = true;
        })
        (credit-Posts claimer amount (projected_at clock meta) marked) run

  claim_again-Posts :
      (existing : PayoutClaimRow) (found : DbResult TicketRow) (state after : ProjectionState)
      (reply : TicketClaimResult) (value : TicketRow → TicketClaimResult)
      → or_return found state (λ row. (state, ok (value row))) ≡ (after, ok reply)
      → Posts nothing state after
  claim_again-Posts existing (err e) state after reply value run = cc
  claim_again-Posts existing (ok row) state after reply value run = unchanged-Posts run

  claim_once-Posts :
      (known : Option PayoutClaimRow) (state after : ProjectionState) (reply : TicketClaimResult)
      → claim_once clock id claimer amount meta known state ≡ (after, ok reply)
      → Posts (unless_known known (credit claimer amount)) state after
  unfolding claim_once claim_again
  claim_once-Posts (some existing) state after reply run =
      claim_again-Posts existing (find_ticket id state) state after reply _ run
  claim_once-Posts none state after reply run =
      claim_found-Posts (find_ticket id state) state after reply run

  pub claim_ticket_to_cash-Posts :
      (state after : ProjectionState) (reply : TicketClaimResult)
      → claim_ticket_to_cash clock id claimer amount meta state ≡ (after, ok reply)
      → Posts (unless_known (get id state.payout_claims) (credit claimer amount)) state after
  unfolding claim_ticket_to_cash
  claim_ticket_to_cash-Posts state after reply run =
      claim_once-Posts (get id state.payout_claims) state after reply run
