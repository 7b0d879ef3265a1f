-- ===== src/Store/Map.antt =====
-- Rust's `BTreeMap`: its entries in the order of their keys, searched from the smallest on.
pub mod Laws
pub mod Collect
use basingamarket.Base.{
  ℕ, List, [], ◌∷◌, ◌≡◌, Option, some, none, map, ◌+◌, Bool, true, false, if◌then◌else◌,
}
use basingamarket.Store.Key.{Key, Order, less, equal, greater}

abbrev pub BTreeMap : Type 0 → Type 0 → Type 0
BTreeMap K V = List (K × V)

-- A step of a search, which compares the key with that of the first entry left.
abbrev pub found_at {ℓ} : {A : Type ℓ} → Order → A → A → A → A
found_at less before at after = before
found_at equal before at after = at
found_at greater before at after = after

module _ {K V : Type 0} where
  unfoldable pub get : ⦃key : Key K⦄ → K → BTreeMap K V → Option V
  get k [] = none
  get ⦃key⦄ k ((j, v) ∷ m) = found_at (key.cmp k j) none (some v) (get k m)

  unfoldable pub insert : ⦃key : Key K⦄ → K → V → BTreeMap K V → BTreeMap K V
  insert k v [] = (k, v) ∷ []
  insert ⦃key⦄ k v ((j, u) ∷ m) =
      found_at (key.cmp k j) ((k, v) ∷ (j, u) ∷ m) ((k, v) ∷ m) ((j, u) ∷ insert k v m)

  unfoldable pub remove : ⦃key : Key K⦄ → K → BTreeMap K V → BTreeMap K V
  remove k [] = []
  remove ⦃key⦄ k ((j, u) ∷ m) = found_at (key.cmp k j) ((j, u) ∷ m) m ((j, u) ∷ remove k m)

  abbrev pub contains_key : ⦃key : Key K⦄ → K → BTreeMap K V → Bool
  contains_key k m = elim (get k m) [ none ↦ false | some v ↦ true ]

  unfoldable pub values : BTreeMap K V → List V
  values [] = []
  values ((k, v) ∷ m) = v ∷ values m

  -- A loop over `values_mut()`, and `retain`.
  unfoldable pub map_values : (V → V) → BTreeMap K V → BTreeMap K V
  map_values f [] = []
  map_values f ((k, v) ∷ m) = (k, f v) ∷ map_values f m

  unfoldable pub retain : (K → Bool) → BTreeMap K V → BTreeMap K V
  retain p [] = []
  retain p ((k, v) ∷ m) = if p k then (k, v) ∷ retain p m else retain p m

  -- The sum of a measure of the values.
  unfoldable pub total : (V → ℕ) → BTreeMap K V → ℕ
  total f [] = 0
  total f ((k, v) ∷ m) = f v + total f m

-- `.into_iter().map(|row| (key(row), row)).collect()`: a later row replaces an earlier one.
unfoldable pub collect_into :
    {K V : Type 0} → ⦃key : Key K⦄ → (V → K) → List V → BTreeMap K V → BTreeMap K V
collect_into key_of [] m = m
collect_into key_of (row ∷ rows) m = collect_into key_of rows (insert (key_of row) row m)

abbrev pub collect : {K V : Type 0} → ⦃key : Key K⦄ → (V → K) → List V → BTreeMap K V
collect key_of rows = collect_into key_of rows []
