-- ===== src/Base/Words.antt =====
-- The machine integers of the source: u64, u128 and i64, with Rust's checked operations on them.
use basingamarket.Base.Tests.{leb, ◌==◌, if◌then◌else◌}
use basingamarket.Base.Int.{ℤ, pos, negsuc, ◌+ℤ◌, ◌-ℤ◌, ◌*ℤ◌, leb_ℤ}
use mathlib.Core.List.{List, [], ◌∷◌}
use Prim.Native.Nat.{ℕ, zero, suc, ◌%◌, ◌+◌, ◌-◌, ◌*◌, ◌/◌, ◌≤◌}
use mathlib.Core.Bool.{◌&&◌, Bool}
use mathlib.Core.Option.{Option, none, some}
use native.Mathlib.Omega.{arith}
use native.Mathlib.Nat.{le_trans, mul-le-mul}

-- u64::MAX, u128::MAX, i64::MIN and i64::MAX
abbrev pub u64_max : ℕ
u64_max = 18446744073709551615

abbrev pub u128_max : ℕ
u128_max = 340282366920938463463374607431768211455

abbrev pub i64_max : ℤ
i64_max = pos 9223372036854775807

abbrev pub i64_min : ℤ
i64_min = negsuc 9223372036854775807

-- `checked_add` and `checked_sub` of u64 and u128, `checked_mul` of u128, and `checked_div`.
abbrev pub u64_checked_add : ℕ → ℕ → Option ℕ
u64_checked_add a b = if leb (a + b) u64_max then some (a + b) else none

abbrev pub u64_checked_sub : ℕ → ℕ → Option ℕ
u64_checked_sub a b = if leb b a then some (a - b) else none

abbrev pub u128_checked_mul : ℕ → ℕ → Option ℕ
u128_checked_mul a b = if leb (a * b) u128_max then some (a * b) else none

abbrev pub u128_checked_add : ℕ → ℕ → Option ℕ
u128_checked_add a b = if leb (a + b) u128_max then some (a + b) else none

abbrev pub u128_checked_sub : ℕ → ℕ → Option ℕ
u128_checked_sub a b = if leb b a then some (a - b) else none

abbrev pub checked_div : ℕ → ℕ → Option ℕ
checked_div a b = if b == 0 then none else some (a / b)

-- `u64::try_from` of a u128
abbrev pub u64_try_from : ℕ → Option ℕ
u64_try_from a = if leb a u64_max then some a else none

-- `u64::checked_mul`, and `i64::try_from` of a u64
abbrev pub u64_checked_mul : ℕ → ℕ → Option ℕ
u64_checked_mul a b = if leb (a * b) u64_max then some (a * b) else none

abbrev pub i64_try_from : ℕ → Option ℤ
i64_try_from a = if leb_ℤ (pos a) i64_max then some (pos a) else none

abbrev pub in_i64 : ℤ → Bool
in_i64 a = leb_ℤ i64_min a && leb_ℤ a i64_max

-- `checked_add`, `checked_mul`, `checked_sub` and `saturating_sub` of i64
abbrev pub i64_checked_add : ℤ → ℤ → Option ℤ
i64_checked_add a b = if in_i64 (a +ℤ b) then some (a +ℤ b) else none

abbrev pub i64_checked_mul : ℤ → ℤ → Option ℤ
i64_checked_mul a b = if in_i64 (a *ℤ b) then some (a *ℤ b) else none

abbrev pub i64_checked_sub : ℤ → ℤ → Option ℤ
i64_checked_sub a b = if in_i64 (a -ℤ b) then some (a -ℤ b) else none

abbrev pub i64_saturating_sub : ℤ → ℤ → ℤ
i64_saturating_sub a b =
    if leb_ℤ (a -ℤ b) i64_min then i64_min else if leb_ℤ i64_max (a -ℤ b) then i64_max else a -ℤ b

-- A product of two u64 values fits a u128.
pub mul-le-u128_max : (a b : ℕ) → a ≤ u64_max → b ≤ u64_max → a * b ≤ u128_max
mul-le-u128_max a b h k = le_trans (mul-le-mul h k) (omega arith)

-- `to_le_bytes` of an integer of `n` bytes
pub le_bytes : ℕ → ℕ → List ℕ
le_bytes zero x = []
le_bytes (suc n) x = (x % 256) ∷ le_bytes n (x / 256)

-- A sum of i64 in a release build, which wraps around at 2 ^ 64: the residue, read as a signed number.
abbrev pub i64_of_residue : ℕ → ℤ
i64_of_residue m = if leb m 9223372036854775807 then pos m else negsuc (18446744073709551615 - m)

abbrev pub i64_residue : ℤ → ℕ
i64_residue (pos n) = n % 18446744073709551616
i64_residue (negsuc n) = 18446744073709551615 - n % 18446744073709551616

abbrev pub i64_wrapping_add : ℤ → ℤ → ℤ
i64_wrapping_add a b = i64_of_residue (i64_residue (a +ℤ b))
