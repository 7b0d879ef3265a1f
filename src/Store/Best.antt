-- ===== src/Store/Best.antt =====
-- The best bid of a round is the best: no open bid on its side offers more.
use basingamarket.Base.{
  ℕ, Bool, true, false, List, [], ◌∷◌, Option, some, none, ◌≡◌, refl, ◌≤◌, ◌&&◌, if◌then◌else◌,
  arith, bytes_eq, if-keeps, ap, sym, ◌∙◌, ◌⊎◌, inl, inr,
}
use mathlib.Core.Path.{subst}
use mathlib.Core.Option.{some-injective, none-ne-some}
use basingamarket.Store.Key.{Text, Order, text_key, less, equal, greater}
use basingamarket.Store.Map.{BTreeMap, get, values, found_at}
use basingamarket.Store.Rows.Cash.{CashBidRow}
use basingamarket.Store.State.{ProjectionState}
use basingamarket.Store.Bids.{is_open_bid, beats, better, best_from, best_cash_bid}

abbrev pub is_candidate : ℕ → ℕ → Text → CashBidRow → Bool
is_candidate market_id round_id side bid =
    is_open_bid market_id round_id bid && bytes_eq bid.side side

-- A best bid that was found offers at least the price, and is open itself.
abbrev pub Offers : ℕ → ℕ → Text → ℕ → Option CashBidRow → Type 0
Offers market_id round_id side price found =
    (best : CashBidRow) × (found ≡ some best)
    × (price ≤ best.price_per_ticket)
    × (is_candidate market_id round_id side best ≡ true)

-- What a search found is the entry looked at, or is found in the rest.
head_or_rest :
    (order : Order) (row : CashBidRow) (rest : Option CashBidRow) (bid : CashBidRow)
    → found_at order none (some row) rest ≡ some bid
    → (row ≡ bid) ⊎ (rest ≡ some bid)
head_or_rest less row rest bid found = cc
head_or_rest equal row rest bid found = inl (some-injective _ _ found)
head_or_rest greater row rest bid found = inr found

module _ (market_id round_id : ℕ) (side : Text) where
  -- A candidate so far is only replaced by one that offers as much.
  replaced-Offers :
      (price : ℕ) (best bid : CashBidRow) (beaten taken : Bool)
      → beats best bid ≡ beaten
      → is_candidate market_id round_id side bid ≡ taken
      → price ≤ best.price_per_ticket
      → is_candidate market_id round_id side best ≡ true
      → Offers market_id round_id side price
          (if taken then some (if beaten then best else bid) else some best)
  replaced-Offers price best bid beaten false at taken above kept = (best, refl, above, kept)
  replaced-Offers price best bid true true at taken above kept = (best, refl, above, kept)
  replaced-Offers price best bid false true at taken above kept =
      (bid, refl, higher price best bid at above, taken)
    where
      higher :
          (price : ℕ) (best bid : CashBidRow)
          → beats best bid ≡ false
          → price ≤ best.price_per_ticket
          → price ≤ bid.price_per_ticket
      higher price best bid at above = ground (arith, at)

  better-Offers :
      (price : ℕ) (best : Option CashBidRow) (bid : CashBidRow)
      → Offers market_id round_id side price best
      → Offers market_id round_id side price
          (if is_candidate market_id round_id side bid then some (better best bid) else best)
  better-Offers price none bid offers = absurd (none-ne-some _ offers.1)
  better-Offers price (some best) bid (kept, same, above, open_too) =
      let owner = some-injective _ _ same in
      replaced-Offers price best bid (beats best bid) (is_candidate market_id round_id side bid)
        refl refl (subst (λ row. price ≤ row.price_per_ticket) (sym owner) above)
        (ap (is_candidate market_id round_id side) owner ∙ open_too)

  best_from-keeps :
      (bids : List CashBidRow) (price : ℕ) (best : Option CashBidRow)
      → Offers market_id round_id side price best
      → Offers market_id round_id side price (best_from market_id round_id side best bids)
  unfolding best_from
  best_from-keeps [] price best offers = offers
  best_from-keeps (bid ∷ bids) price best offers =
      best_from-keeps bids price _ (better-Offers price best bid offers)

  -- What was found so far is open itself.
  abbrev Sound : Option CashBidRow → Type 0
  Sound none = Unit
  Sound (some best) = is_candidate market_id round_id side best ≡ true

  better-Sound :
      (best : Option CashBidRow) (bid : CashBidRow) (taken : Bool)
      → is_candidate market_id round_id side bid ≡ taken
      → Sound best
      → Sound (if taken then some (better best bid) else best)
  better-Sound best bid false at sound = sound
  better-Sound none bid true at sound = at
  better-Sound (some best) bid true at sound =
      if-keeps (λ row. is_candidate market_id round_id side row ≡ true) (beats best bid) sound at

  -- A candidate is beaten only by one that offers as much.
  taken-Offers :
      (best : Option CashBidRow) (bid : CashBidRow)
      → is_candidate market_id round_id side bid ≡ true
      → Sound best
      → Offers market_id round_id side bid.price_per_ticket (some (better best bid))
  taken-Offers none bid at sound = (bid, refl, omega arith, at)
  taken-Offers (some best) bid at sound = beaten-Offers best bid (beats best bid) refl at sound
    where
      beaten-Offers :
          (best bid : CashBidRow) (beaten : Bool)
          → beats best bid ≡ beaten
          → is_candidate market_id round_id side bid ≡ true
          → is_candidate market_id round_id side best ≡ true
          → Offers market_id round_id side bid.price_per_ticket
              (some (if beaten then best else bid))
      beaten-Offers best bid true h at sound = (best, refl, ground (arith, h), sound)
      beaten-Offers best bid false h at sound = (bid, refl, omega arith, at)

  first_taken :
      (bids : List CashBidRow) (row bid : CashBidRow) (best : Option CashBidRow)
      → row ≡ bid
      → is_candidate market_id round_id side bid ≡ true
      → Sound best
      → Offers market_id round_id side bid.price_per_ticket (
          best_from market_id round_id side
            (if is_candidate market_id round_id side row then some (better best row) else best)
            bids)
  first_taken bids row bid best same opened sound =
      let taken : is_candidate market_id round_id side row ≡ true =
        ap (is_candidate market_id round_id side) same ∙ opened in
      best_from-keeps bids bid.price_per_ticket _ (
        subst
          (λ b.
            Offers market_id round_id side bid.price_per_ticket
              (if b then some (better best row) else best))
          (sym taken)
          (subst (λ r. Offers market_id round_id side r.price_per_ticket (some (better best row)))
            same (taken-Offers best row taken sound)))

  best_from-found :
      (bids : BTreeMap Text CashBidRow) (id : Text) (bid : CashBidRow) (best : Option CashBidRow)
      → get id bids ≡ some bid
      → is_candidate market_id round_id side bid ≡ true
      → Sound best
      → Offers market_id round_id side bid.price_per_ticket
          (best_from market_id round_id side best (values bids))
  unfolding get values best_from
  best_from-found [] id bid best found opened sound = cc
  best_from-found ((key, row) ∷ bids) id bid best found opened sound =
      elim (head_or_rest (text_key.cmp id key) row (get id bids) bid found) [
        | inl same ↦ first_taken (values bids) row bid best same opened sound
        | inr later ↦
            best_from-found bids id bid _ later opened
              (better-Sound best row (is_candidate market_id round_id side row) refl sound)
      ]

-- Where a round has an open bid on a side, the best bid of that side is found, is open itself, and
-- offers at least as much as every open bid.
pub best_cash_bid-Offers :
    (market_id round_id : ℕ) (side id : Text) (bid : CashBidRow) (state : ProjectionState)
    → get id state.cash_bids ≡ some bid
    → is_candidate market_id round_id side bid ≡ true
    → Offers market_id round_id side bid.price_per_ticket
        (best_cash_bid market_id round_id side state)
unfolding best_cash_bid
best_cash_bid-Offers market_id round_id side id bid state found opened =
    best_from-found market_id round_id side state.cash_bids id bid none found opened tt
