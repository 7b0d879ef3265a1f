-- ===== src/Store/Quotes.antt =====
-- A quote of a deposit or of a withdrawal serves one signature.
use basingamarket.Base.{
  Bool, true, false, Option, some, none, ok, err, ◌≡◌, refl, sym, ap, ◌∙◌, bytes_eq, if◌then◌else◌,
}
use mathlib.Core.Option.{some-injective}
use basingamarket.Store.Key.{Text, text_key, text_eq_sound}
use basingamarket.Store.Map.{get}
use basingamarket.Store.Map.Laws.{get-insert}
use basingamarket.Store.Rows.Error.{DbError, projection, cash_withdrawal_quote_already_used}
use basingamarket.Store.Rows.Cash.{CashWithdrawalQuoteRow}
use basingamarket.Store.State.{ProjectionState, Outcome}
use basingamarket.Store.Withdrawals.{reserve_used, reserve_quote, reserve_cash_withdrawal_quote}

-- The quote is held by the signature.
abbrev HeldBy : Text → Option CashWithdrawalQuoteRow → Type 0
HeldBy signature found =
    (quote : CashWithdrawalQuoteRow) × (found ≡ some quote)
    × (quote.used_user_signature ≡ some signature)

test_passed :
    (b : Bool) (state after : ProjectionState) (e : DbError) (answer fresh : Bool)
    → ◌≡◌ {A = Outcome Bool} (if b then (state, ok answer) else (state, err e)) (after, ok fresh)
    → (b ≡ true) × (state ≡ after)
test_passed true state after e answer fresh run = (refl, ap (λ o. o.0) run)
test_passed false state after e answer fresh run = cc

reserve_used-HeldBy :
    (quote_id signature : Text) (quote : CashWithdrawalQuoteRow) (used : Option Text)
    (state after : ProjectionState) (fresh : Bool)
    → get quote_id state.cash_withdrawal_quotes ≡ some quote
    → quote.used_user_signature ≡ used
    → reserve_used quote_id signature quote used state ≡ (after, ok fresh)
    → HeldBy signature (get quote_id after.cash_withdrawal_quotes)
unfolding reserve_used
reserve_used-HeldBy quote_id signature quote none state after fresh found unused run =
    let taken : CashWithdrawalQuoteRow = record quote { used_user_signature = some signature } in
    (
      taken,
      ap (λ quotes. get quote_id quotes) (sym (ap (λ o. o.0.cash_withdrawal_quotes) run))
          ∙ get-insert quote_id taken state.cash_withdrawal_quotes,
      refl,
    )
reserve_used-HeldBy quote_id signature quote (some existing) state after fresh found at run =
    let passed = test_passed (bytes_eq existing signature) state after _ false fresh run in
    let same = text_eq_sound existing signature passed.0 in
    let left = passed.1 in
    (quote, ap (λ s. get quote_id s.cash_withdrawal_quotes) (sym left) ∙ found, at ∙ ap some same)

reserve_quote-HeldBy :
    (quote_id signature : Text) (found : Option CashWithdrawalQuoteRow)
    (state after : ProjectionState) (fresh : Bool)
    → get quote_id state.cash_withdrawal_quotes ≡ found
    → reserve_quote quote_id signature found state ≡ (after, ok fresh)
    → HeldBy signature (get quote_id after.cash_withdrawal_quotes)
unfolding reserve_quote
reserve_quote-HeldBy quote_id signature none state after fresh at run = cc
reserve_quote-HeldBy quote_id signature (some quote) state after fresh at run =
    reserve_used-HeldBy quote_id signature quote quote.used_user_signature state after fresh at refl
      run

-- Asking again for a quote that is held.
held_again :
    (quote_id signature other : Text) (found : Option CashWithdrawalQuoteRow)
    (state : ProjectionState)
    → HeldBy signature found
    → reserve_quote quote_id other found state ≡ (
        if bytes_eq signature other
        then (state, ok false)
        else (state, err (projection cash_withdrawal_quote_already_used)))
unfolding reserve_quote reserve_used
held_again quote_id signature other none state held = cc
held_again quote_id signature other (some quote) state held =
    ap (λ used. reserve_used quote_id other quote used state)
      (ap (λ row. row.used_user_signature) (some-injective _ _ held.1) ∙ held.2)

-- Once a signature has reserved the quote of a withdrawal, the same signature is told that it has it
-- already, every other one gets an error, and neither changes anything.
pub reserve_cash_withdrawal_quote_again :
    (quote_id signature other : Text) (state after : ProjectionState) (fresh : Bool)
    → reserve_cash_withdrawal_quote quote_id signature state ≡ (after, ok fresh)
    → reserve_cash_withdrawal_quote quote_id other after ≡ (
        if bytes_eq signature other
        then (after, ok false)
        else (after, err (projection cash_withdrawal_quote_already_used)))
unfolding reserve_cash_withdrawal_quote
reserve_cash_withdrawal_quote_again quote_id signature other state after fresh run =
    held_again quote_id signature other (get quote_id after.cash_withdrawal_quotes) after (
      reserve_quote-HeldBy quote_id signature (get quote_id state.cash_withdrawal_quotes) state
        after fresh refl run)
