-- ===== src/Base/Fallible.antt =====
-- Fallible code: Rust's `Result` with its `?` operator as `do`, and `ok_or` on options.
use mathlib.Core.Path.{◌≡◌, refl}
use mathlib.Core.Logic.{◌⊎◌, inl, inr}
use mathlib.Core.Bool.{Bool, true, false, false≢true}
use mathlib.Core.Option.{Option, none, some}

pub data Result {ℓ} (E : Type 0) (A : Type ℓ) : Type ℓ where
  ok : A → Result E A
  err : E → Result E A

-- Rust's `?`: an error ends the chain.
abbrev pub ◌>>=◌ {ℓ κ} :
    {E : Type 0} {S : Type ℓ} {T : Type κ} → Result E S → (S → Result E T) → Result E T
err failure >>= rest = err failure
ok value >>= rest = rest value

-- `first?;`, where nothing is bound.
abbrev pub ◌>>◌ {κ} : {E : Type 0} {T : Type κ} → Result E (Unit {0}) → Result E T → Result E T
first >> rest = first >>= (λ done. rest)

infixl 5 ◌>>=◌ ◌>>◌
-- Go on if the test holds, and return the error otherwise.
abbrev pub guard : {E : Type 0} → Bool → E → Result E (Unit {0})
guard false failure = err failure
guard true failure = ok tt

-- `o.ok_or(e)`
abbrev pub ok_or {ℓ} : {E : Type 0} {A : Type ℓ} → Option A → E → Result E A
ok_or none e = err e
ok_or (some a) e = ok a

-- `o.and_then(f)`
abbrev pub and_then {ℓ κ} : {A : Type ℓ} {B : Type κ} → Option A → (A → Option B) → Option B
and_then none f = none
and_then (some a) f = f a

-- `r.is_ok()`
abbrev pub is_ok {ℓ} : {E : Type 0} {A : Type ℓ} → Result E A → Bool
is_ok (ok a) = true
is_ok (err e) = false

pub ok-injective {ℓ} :
    {E : Type 0} {A : Type ℓ} {a b : A} → ◌≡◌ {A = Result E A} (ok a) (ok b) → a ≡ b
ok-injective h = cc

pub ok-ne-err {ℓ} :
    {E : Type 0} {A : Type ℓ} {a : A} {e : E} → ◌≡◌ {A = Result E A} (ok a) (err e) → ⊥
ok-ne-err h = cc

-- The value of a result that is known to be one.
abbrev pub value_of {ℓ} : {E : Type 0} {A : Type ℓ} (r : Result E A) → is_ok r ≡ true → A
value_of (ok a) h = a
value_of (err e) h = absurd (false≢true h)

pub value_of-eq {ℓ} :
    {E : Type 0} {A : Type ℓ} (r : Result E A) (h : is_ok r ≡ true) → r ≡ ok (value_of r h)
value_of-eq (ok a) h = refl
value_of-eq (err e) h = cc

-- A chain that ends well: its first part did, with some value, and so did the rest of it.
pub >>=-eq-ok {ℓ κ} :
    {E : Type 0} {S : Type ℓ} {T : Type κ} (first : Result E S) (rest : S → Result E T) {t : T}
    → (first >>= rest) ≡ ok t
    → (s : S) × (first ≡ ok s) × (rest s ≡ ok t)
>>=-eq-ok (err failure) rest chain = cc
>>=-eq-ok (ok s) rest chain = (s, refl, chain)

pub >>-eq-ok {κ} :
    {E : Type 0} {T : Type κ} (first : Result E (Unit {0})) (rest : Result E T) {t : T}
    → (first >> rest) ≡ ok t
    → (first ≡ ok tt) × (rest ≡ ok t)
>>-eq-ok (err failure) rest chain = cc
>>-eq-ok (ok tt) rest chain = (refl, chain)

pub Result-cases {ℓ} :
    {E : Type 0} {A : Type ℓ} (r : Result E A) → ((a : A) × (r ≡ ok a)) ⊎ ((e : E) × (r ≡ err e))
Result-cases (ok a) = inl (a, refl)
Result-cases (err e) = inr (e, refl)

-- `m?` in a function that writes through a reference: an error returns and leaves `state` behind.
abbrev pub or_return {ℓ κ} :
    {E S : Type 0} {A : Type ℓ} {B : Type κ}
    → Result E A
    → S
    → (A → S × Result E B)
    → S × Result E B
or_return (ok value) state rest = rest value
or_return (err failure) state rest = (state, err failure)

-- A property of the state that is left behind, on every path.
unfoldable pub Leaves {κ} : {E S : Type 0} {B : Type κ} (P : S → Type 0) → S × Result E B → Type 0
Leaves P outcome = P outcome.0

pub or_return-Leaves {ℓ κ} :
    {E S : Type 0} {A : Type ℓ} {B : Type κ} (P : S → Type 0) (r : Result E A) (state : S)
    (rest : A → S × Result E B)
    → P state
    → ((a : A) → Leaves P (rest a))
    → Leaves P (or_return r state rest)
unfolding Leaves
or_return-Leaves P (ok a) state rest before after = after a
or_return-Leaves P (err e) state rest before after = before

pub leaves {κ} :
    {E S : Type 0} {B : Type κ} (P : S → Type 0) (outcome : S × Result E B)
    → P outcome.0
    → Leaves P outcome
unfolding Leaves
leaves P outcome holds = holds
