-- ===== src/Base/Div.antt =====
-- Division that rounds down, as the fee, payout and curve code uses it.
use Prim.Native.Nat.{ℕ, zero, suc, ◌+◌, ◌*◌, ◌/◌, ◌≤◌, ◌<◌}
use native.Mathlib.Omega.{arith}
use native.Mathlib.Nat.{
  le_trans, mul-le-mul_left, div-zero, div-mul-le_self, div-le_of_le-mul, le-div_iff_mul-le,
}

-- A share of a whole is at most the whole.
pub mul-div-le_of_le : (a n d : ℕ) → n ≤ d → a * n / d ≤ a
mul-div-le_of_le a n d h = div-le_of_le-mul d (grind arith)

-- Rounding down twice gives at most rounding the sum once.
pub div-add-le : (a b d : ℕ) → a / d + b / d ≤ (a + b) / d
div-add-le a b zero = rw (div-zero a, div-zero b) (omega arith)
div-add-le a b (suc d) =
    (le-div_iff_mul-le (omega arith)).1
      (grind (arith, div-mul-le_self a (suc d), div-mul-le_self b (suc d)))

pub div-le-div_right : (a b d : ℕ) → a ≤ b → a / d ≤ b / d
div-le-div_right a b zero h = rw (div-zero a, div-zero b) (omega arith)
div-le-div_right a b (suc d) h =
    (le-div_iff_mul-le (omega arith)).1 (le_trans (div-mul-le_self a (suc d)) h)

pub div-le-div_left : (a d e : ℕ) → 0 < d → d ≤ e → a / e ≤ a / d
div-le-div_left a d e p h =
    (le-div_iff_mul-le p).1 (le_trans (mul-le-mul_left (a / e) h) (div-mul-le_self a e))
