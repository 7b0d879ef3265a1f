-- ===== src/Store/Key.antt =====
-- The keys of the store's maps: Rust's `Ord` on integers, on pairs of them and on strings, which are
-- lists of bytes in lexicographic order.
use Prim.Native.Nat.{compare, Ordering}
use basingamarket.Base.{ℕ, true, List, [], ◌∷◌, ◌≡◌, refl, bytes_eq, arith}

pub data Order : Type 0 where
  less equal greater : Order

abbrev pub then_with : Order → Order → Order
then_with less second = less
then_with equal second = second
then_with greater second = greater

abbrev pub reverse : Order → Order
reverse less = greater
reverse equal = equal
reverse greater = less

-- What a map asks of its keys: `Ord::cmp`, with the laws that a search relies on.
pub record Key (K : Type 0) : Type 0 where
  pub cmp : K → K → Order
  pub cmp_refl : (a : K) → cmp a a ≡ equal
  pub cmp_eq : (a b : K) → cmp a b ≡ equal → a ≡ b
  pub cmp_flip : (a b : K) → cmp b a ≡ reverse (cmp a b)
  pub cmp_trans : (a b c : K) → cmp a b ≡ less → cmp b c ≡ less → cmp a c ≡ less

abbrev pub nat_cmp : ℕ → ℕ → Order
nat_cmp a b = elim (compare a b) [
  | Ordering.lt ↦ less
  | Ordering.eq ↦ equal
  | Ordering.gt ↦ greater
]

pub nat_cmp_refl : (a : ℕ) → nat_cmp a a ≡ equal
nat_cmp_refl a = ground arith

pub nat_cmp_eq : (a b : ℕ) → nat_cmp a b ≡ equal → a ≡ b
nat_cmp_eq a b h = ground arith

pub nat_cmp_flip : (a b : ℕ) → nat_cmp b a ≡ reverse (nat_cmp a b)
nat_cmp_flip a b = ground arith

pub nat_cmp_trans : (a b c : ℕ) → nat_cmp a b ≡ less → nat_cmp b c ≡ less → nat_cmp a c ≡ less
nat_cmp_trans a b c h k = ground arith

instance abbrev pub nat_key : Key ℕ
nat_key = record {
  cmp = nat_cmp;
  cmp_refl = nat_cmp_refl;
  cmp_eq = nat_cmp_eq;
  cmp_flip = nat_cmp_flip;
  cmp_trans = nat_cmp_trans;
}

-- A pair of integers, such as a market and a ticket in it.
abbrev pub pair_cmp : ℕ × ℕ → ℕ × ℕ → Order
pair_cmp (a, b) (c, d) = then_with (nat_cmp a c) (nat_cmp b d)

pub pair_cmp_refl : (a : ℕ × ℕ) → pair_cmp a a ≡ equal
pair_cmp_refl (a, b) = ground arith

pub pair_cmp_eq : (a b : ℕ × ℕ) → pair_cmp a b ≡ equal → a ≡ b
pair_cmp_eq (a, b) (c, d) h = ground arith

pub pair_cmp_flip : (a b : ℕ × ℕ) → pair_cmp b a ≡ reverse (pair_cmp a b)
pair_cmp_flip (a, b) (c, d) = ground arith

pub pair_cmp_trans :
    (a b c : ℕ × ℕ) → pair_cmp a b ≡ less → pair_cmp b c ≡ less → pair_cmp a c ≡ less
pair_cmp_trans (a, b) (c, d) (e, f) h k = ground arith

instance abbrev pub pair_key : Key (ℕ × ℕ)
pair_key = record {
  cmp = pair_cmp;
  cmp_refl = pair_cmp_refl;
  cmp_eq = pair_cmp_eq;
  cmp_flip = pair_cmp_flip;
  cmp_trans = pair_cmp_trans;
}

-- A string is the list of its bytes.
abbrev pub Text : Type 0
Text = List ℕ

unfoldable pub text_cmp : Text → Text → Order
text_cmp [] [] = equal
text_cmp [] (y ∷ ys) = less
text_cmp (x ∷ xs) [] = greater
text_cmp (x ∷ xs) (y ∷ ys) = then_with (nat_cmp x y) (text_cmp xs ys)

pub text_cmp_refl : (a : Text) → text_cmp a a ≡ equal
unfolding text_cmp
text_cmp_refl [] = refl
text_cmp_refl (x ∷ xs) = ground (arith, text_cmp_refl xs)

pub text_cmp_eq : (a b : Text) → text_cmp a b ≡ equal → a ≡ b
unfolding text_cmp
text_cmp_eq [] [] h = refl
text_cmp_eq [] (y ∷ ys) h = cc
text_cmp_eq (x ∷ xs) [] h = cc
text_cmp_eq (x ∷ xs) (y ∷ ys) h = ground (arith, text_cmp_eq xs ys)

pub text_cmp_flip : (a b : Text) → text_cmp b a ≡ reverse (text_cmp a b)
unfolding text_cmp
text_cmp_flip [] [] = refl
text_cmp_flip [] (y ∷ ys) = refl
text_cmp_flip (x ∷ xs) [] = refl
text_cmp_flip (x ∷ xs) (y ∷ ys) = ground (arith, text_cmp_flip xs ys)

pub text_cmp_trans :
    (a b c : Text) → text_cmp a b ≡ less → text_cmp b c ≡ less → text_cmp a c ≡ less
unfolding text_cmp
text_cmp_trans [] [] c h k = cc
text_cmp_trans [] (y ∷ ys) [] h k = cc
text_cmp_trans [] (y ∷ ys) (z ∷ zs) h k = refl
text_cmp_trans (x ∷ xs) [] c h k = cc
text_cmp_trans (x ∷ xs) (y ∷ ys) [] h k = cc
text_cmp_trans (x ∷ xs) (y ∷ ys) (z ∷ zs) h k = ground (arith, text_cmp_trans xs ys zs)

instance abbrev pub text_key : Key Text
text_key = record {
  cmp = text_cmp;
  cmp_refl = text_cmp_refl;
  cmp_eq = text_cmp_eq;
  cmp_flip = text_cmp_flip;
  cmp_trans = text_cmp_trans;
}

-- `==` on strings
pub text_eq_refl : (a : Text) → bytes_eq a a ≡ true
unfolding bytes_eq
text_eq_refl [] = refl
text_eq_refl (x ∷ xs) = ground (arith, text_eq_refl xs)

pub text_eq_sound : (a b : Text) → bytes_eq a b ≡ true → a ≡ b
unfolding bytes_eq
text_eq_sound [] [] h = refl
text_eq_sound [] (y ∷ ys) h = cc
text_eq_sound (x ∷ xs) [] h = cc
text_eq_sound (x ∷ xs) (y ∷ ys) h = ground (arith, text_eq_sound xs ys)
