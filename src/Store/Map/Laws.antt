-- ===== src/Store/Map/Laws.antt =====
-- The laws of the maps: what `get` finds after `insert`, and how `insert` moves a total.
use basingamarket.Base.{ℕ, [], ◌∷◌, ◌≡◌, Option, some, none, ◌+◌, arith, ◌≢◌}
use basingamarket.Store.Key.{Key}
use basingamarket.Store.Map.{BTreeMap, get, insert, total}

abbrev pub measure_of : {V : Type 0} → (V → ℕ) → Option V → ℕ
measure_of f none = 0
measure_of f (some v) = f v

module _ {K V : Type 0} ⦃key : Key K⦄ where
  pub get-insert : (k : K) (v : V) (m : BTreeMap K V) → get k (insert k v m) ≡ some v
  unfolding get insert
  get-insert k v [] = ground (arith, key.cmp_refl k)
  get-insert k v ((j, u) ∷ m) = ground (arith, key.cmp_refl k, get-insert k v m)

  pub get-insert_other :
      (i k : K) (v : V) (m : BTreeMap K V) → i ≢ k → get i (insert k v m) ≡ get i m
  unfolding get insert
  get-insert_other i k v [] other = ground (arith, key.cmp_eq i k)
  get-insert_other i k v ((j, u) ∷ m) other =
      ground
        (arith, key.cmp_eq i k, key.cmp_eq k j, key.cmp_trans i k j, get-insert_other i k v m other)

  -- The value that an insertion replaces gives way to the new one in every total.
  pub total-insert :
      (f : V → ℕ) (k : K) (v : V) (m : BTreeMap K V)
      → total f (insert k v m) + measure_of f (get k m) ≡ total f m + f v
  unfolding get insert total
  total-insert f k v [] = omega arith
  total-insert f k v ((j, u) ∷ m) = ground (arith, total-insert f k v m)
