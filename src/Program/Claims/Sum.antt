-- ===== src/Program/Claims/Sum.antt =====
-- The claims on several lots of a round, added up.
use basingamarket.Base.{ℕ, ◌+◌, ◌*◌, ◌/◌, ◌≤◌, ◌≡◌, List, [], ◌∷◌, arith, ok, >>=-eq-ok, ◌>>=◌}
use basingamarket.Base.Div.{div-add-le}
use basingamarket.Program.Claims.{ClaimLot}
use basingamarket.Program.Error.{AnchorResult}
use basingamarket.Program.State.{Round, PositionLot, Side}

-- Each lot is claimed by its owner with the instruction `claim`; the sum of the amounts.
unfoldable pub claim_all :
    (ClaimLot → AnchorResult (ClaimLot × ℕ)) → Round → List PositionLot → AnchorResult ℕ
claim_all claim round [] = ok 0
claim_all claim round (lot ∷ lots) = do
  (_, paid) ← claim (record { round = round; position_lot = lot; owner = lot.current_owner })
  rest ← claim_all claim round lots
  ok (paid + rest)

-- The tickets of the lots on one side.
unfoldable pub tickets_on : Side → PositionLot → ℕ
tickets_on Side.up lot = elim lot.side [ Side.up ↦ lot.ticket_amount | Side.down ↦ 0 ]
tickets_on Side.down lot = elim lot.side [ Side.up ↦ 0 | Side.down ↦ lot.ticket_amount ]

unfoldable pub total_on : Side → List PositionLot → ℕ
total_on side [] = 0
total_on side (lot ∷ lots) = tickets_on side lot + total_on side lots

-- shares of `n / d` for each of two amounts of tickets
pub share-add : (a b n d : ℕ) → a * n / d + b * n / d ≤ (a + b) * n / d
share-add a b n d = grind (arith, div-add-le (a * n) (b * n) d)

pub claim_all-cons :
    (claim : ClaimLot → AnchorResult (ClaimLot × ℕ)) (r : Round) (lot : PositionLot)
    (lots : List PositionLot) {total : ℕ}
    → claim_all claim r (lot ∷ lots) ≡ ok total
    → (after : ClaimLot) × (paid : ℕ) × (rest : ℕ) × (claim
          (record { round = r; position_lot = lot; owner = lot.current_owner })
        ≡ ok (after, paid))
      × (claim_all claim r lots ≡ ok rest)
      × (total ≡ paid + rest)
unfolding claim_all
claim_all-cons claim r lot lots {total} h =
    let (step, e, h₁) =
      >>=-eq-ok (claim (record { round = r; position_lot = lot; owner = lot.current_owner })) _ h in
    let (rest, e₁, h₂) = >>=-eq-ok (claim_all claim r lots) _ h₁ in
    (step.0, step.1, rest, e, e₁, ground (arith, h₂))
