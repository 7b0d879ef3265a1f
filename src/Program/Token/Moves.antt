-- ===== src/Program/Token/Moves.antt =====
-- What `transfer_checked` of ops.rs does to the balances, given the token program's behaviour.
use basingamarket.Base.{ℕ, ◌+◌, ◌≡◌, ◌≢◌, sym, arith, ok}
use basingamarket.Program.State.{Pubkey}
use basingamarket.Program.Token.{Spl, IsSpl, Transfer, transfer_checked}

module _ {Ledger : Type 0} (spl : Spl Ledger) (v : IsSpl spl) where
  open spl use {amount_of}

  pub record Moved (l l' : Ledger) (source destination : Pubkey) (amount : ℕ) : Type 0 where
    pub debit : amount_of l' source + amount ≡ amount_of l source
    pub credit : amount_of l' destination ≡ amount_of l destination + amount
    pub other : (k : Pubkey) → k ≢ source → k ≢ destination → amount_of l' k ≡ amount_of l k

  pub transfer_checked-Moved :
      (l : Ledger) (t : Transfer) {l' : Ledger}
      → t.source ≢ t.destination
      → transfer_checked spl l t ≡ ok l'
      → Moved l l' t.source t.destination t.amount
  unfolding transfer_checked
  transfer_checked-Moved l t {l'} ne h = record {
    debit = ground (arith, v.debit l t l');
    credit = ground (arith, v.credit l t l');
    other = λ k a b. ground (arith, v.other l t l' k);
  }

  -- One payer has paid two other accounts.
  pub record PaidTwo (l l' : Ledger) (payer first second : Pubkey) (n m : ℕ) : Type 0 where
    pub debit : amount_of l' payer + n + m ≡ amount_of l payer
    pub first_credit : amount_of l' first ≡ amount_of l first + n
    pub second_credit : amount_of l' second ≡ amount_of l second + m
    pub other : (k : Pubkey) → k ≢ payer → k ≢ first → k ≢ second → amount_of l' k ≡ amount_of l k

  pub Moved-PaidTwo :
      (l l₁ l' : Ledger) (payer first second : Pubkey) (n m : ℕ)
      → payer ≢ first
      → payer ≢ second
      → first ≢ second
      → Moved l l₁ payer first n
      → Moved l₁ l' payer second m
      → PaidTwo l l' payer first second n m
  Moved-PaidTwo l l₁ l' payer first second n m pf ps fs a b = record {
    debit = omega (arith, a.debit, b.debit);
    first_credit = omega (arith, a.credit, b.other first (λ e. pf (sym e)) fs);
    second_credit = omega (arith, b.credit, a.other second (λ e. ps (sym e)) (λ e. fs (sym e)));
    other = λ k p q r. omega (arith, a.other k p q, b.other k p r);
  }
