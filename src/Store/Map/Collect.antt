-- ===== src/Store/Map/Collect.antt =====
-- Collecting the values of a map under their own keys gives the map back.
use basingamarket.Base.{[], ◌∷◌, ◌++◌, ◌≡◌, refl, arith, ap, ◌∙◌, sym, some}
use mathlib.Core.Option.{some-injective}
use mathlib.Core.Path.{subst}
use basingamarket.Store.Key.{Key, Order, less, equal, greater, reverse}
use basingamarket.Store.Map.{BTreeMap, found_at, get, insert, values, collect_into, collect}

-- A search by cases of its comparison.
found_at-by {ℓ κ} :
    {A : Type ℓ} (P : A → Type κ) (order : Order) {x y z : A}
    → (order ≡ less → P x)
    → (order ≡ equal → P y)
    → (order ≡ greater → P z)
    → P (found_at order x y z)
found_at-by P less before at after = before refl
found_at-by P equal before at after = at refl
found_at-by P greater before at after = after refl

module _ {K V : Type 0} ⦃key : Key K⦄ where
  -- All keys of the map come after `k`, and the keys rise.
  unfoldable pub After : K → BTreeMap K V → Type 0
  After k [] = Unit
  After k ((j, v) ∷ m) = (key.cmp k j ≡ less) × After k m

  unfoldable pub Rising : BTreeMap K V → Type 0
  Rising [] = Unit
  Rising ((k, v) ∷ m) = After k m × Rising m

  -- Each row stands under its own key.
  unfoldable pub Keyed : (V → K) → BTreeMap K V → Type 0
  Keyed key_of [] = Unit
  Keyed key_of ((k, v) ∷ m) = (k ≡ key_of v) × Keyed key_of m

  -- All keys of `first` come before all of `second`.
  unfoldable pub Before : BTreeMap K V → BTreeMap K V → Type 0
  Before [] second = Unit
  Before ((k, v) ∷ first) second = After k second × Before first second

  insert-last :
      (k : K) (v : V) (first rest : BTreeMap K V)
      → Before first ((k, v) ∷ rest)
      → insert k v first ≡ first ++ (k, v) ∷ []
  unfolding insert Before After
  insert-last k v [] rest before = refl
  insert-last k v ((j, u) ∷ first) rest before =
      ground (arith, key.cmp_flip j k, insert-last k v first rest before.1)

  Before-snoc :
      (first rest : BTreeMap K V) (k : K) (v : V)
      → Before first ((k, v) ∷ rest)
      → After k rest
      → Before (first ++ (k, v) ∷ []) rest
  unfolding Before After
  Before-snoc [] rest k v before after = (after, tt)
  Before-snoc ((j, u) ∷ first) rest k v before after =
      (before.0.1, Before-snoc first rest k v before.1 after)

  ++-nil : (first : BTreeMap K V) → first ++ [] ≡ first
  ++-nil [] = refl
  ++-nil (head ∷ first) = ap (λ tail. head ∷ tail) (++-nil first)

  snoc-++ :
      (first rest : BTreeMap K V) (entry : K × V)
      → (first ++ entry ∷ []) ++ rest ≡ first ++ entry ∷ rest
  snoc-++ [] rest entry = refl
  snoc-++ (head ∷ first) rest entry = ap (λ tail. head ∷ tail) (snoc-++ first rest entry)

  collect_into-values :
      (key_of : V → K) (m first : BTreeMap K V)
      → Before first m
      → Rising m
      → Keyed key_of m
      → collect_into key_of (values m) first ≡ first ++ m
  unfolding collect_into values Rising Keyed
  collect_into-values key_of [] first before rising keyed = sym (++-nil first)
  collect_into-values key_of ((k, v) ∷ m) first before rising keyed =
      ap (λ j. collect_into key_of (values m) (insert j v first)) (sym keyed.0)
      ∙ ap (λ start. collect_into key_of (values m) start) (insert-last k v first m before)
      ∙ collect_into-values key_of m (first ++ (k, v) ∷ [])
          (Before-snoc first m k v before rising.0) rising.1 keyed.1
      ∙ snoc-++ first m (k, v)

  pub collect-values :
      (key_of : V → K) (m : BTreeMap K V)
      → Rising m × Keyed key_of m
      → collect key_of (values m) ≡ m
  unfolding Before
  collect-values key_of m kept = collect_into-values key_of m [] tt kept.0 kept.1

  -- An insertion keeps the keys rising and each row under its own key.
  After-insert :
      (j k : K) (v : V) (m : BTreeMap K V) → key.cmp j k ≡ less → After j m → After j (insert k v m)
  unfolding After insert
  After-insert j k v [] below after = (below, tt)
  After-insert j k v ((i, u) ∷ m) below after =
      found_at-by (After j) (key.cmp k i) (λ h. (below, after)) (λ h. (below, after.1))
        (λ h. (after.0, After-insert j k v m below after.1))

  After-trans : (k j : K) (m : BTreeMap K V) → key.cmp k j ≡ less → After j m → After k m
  unfolding After
  After-trans k j [] below after = tt
  After-trans k j ((i, u) ∷ m) below after =
      (key.cmp_trans k j i below after.0, After-trans k j m below after.1)

  pub insert-Rising : (k : K) (v : V) (m : BTreeMap K V) → Rising m → Rising (insert k v m)
  unfolding Rising insert After
  insert-Rising k v [] rising = (tt, tt)
  insert-Rising k v ((j, u) ∷ m) rising =
      found_at-by Rising (key.cmp k j) (λ h. ((h, After-trans k j m h rising.0), rising))
        (λ h. (subst (λ i. After i m) (sym (key.cmp_eq k j h)) rising.0, rising.1))
        (λ h. (
          After-insert j k v m (key.cmp_flip k j ∙ ap reverse h) rising.0,
          insert-Rising k v m rising.1,
        ))

  pub insert-Keyed :
      (key_of : V → K) (k : K) (v : V) (m : BTreeMap K V)
      → k ≡ key_of v
      → Keyed key_of m
      → Keyed key_of (insert k v m)
  unfolding Keyed insert
  insert-Keyed key_of k v [] own keyed = (own, tt)
  insert-Keyed key_of k v ((j, u) ∷ m) own keyed =
      found_at-by (Keyed key_of) (key.cmp k j) (λ h. (own, keyed)) (λ h. (own, keyed.1))
        (λ h. (keyed.0, insert-Keyed key_of k v m own keyed.1))

  pub insert-Kept :
      (key_of : V → K) (k : K) (v : V) (m : BTreeMap K V)
      → k ≡ key_of v
      → Rising m × Keyed key_of m
      → Rising (insert k v m) × Keyed key_of (insert k v m)
  insert-Kept key_of k v m own kept =
      (insert-Rising k v m kept.0, insert-Keyed key_of k v m own kept.1)

  -- What a search finds stands under its own key.
  pub get-Keyed :
      (key_of : V → K) (k : K) (v : V) (m : BTreeMap K V)
      → Keyed key_of m
      → get k m ≡ some v
      → k ≡ key_of v
  unfolding Keyed get
  get-Keyed key_of k v [] keyed found = cc
  get-Keyed key_of k v ((j, u) ∷ m) keyed found =
      found_at-by (λ o. o ≡ some v → k ≡ key_of v) (key.cmp k j) (λ h at. cc)
        (λ h at. key.cmp_eq k j h ∙ keyed.0 ∙ ap key_of (some-injective u v at))
        (λ h at. get-Keyed key_of k v m keyed.1 at) found
