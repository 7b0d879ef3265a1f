-- ===== src/Program/Curve/Pricing.antt =====
-- The price that a curve quotes: bounds, rounding, and what splitting or enlarging a buy changes.
use native.Mathlib.Nat.{
  add_assoc, div-le_of_le-mul, div-lt_iff_lt-mul, mul-div-le, lt-mul-div-succ,
  mul-lt-mul_of_pos_right,
}
use basingamarket.Base.{ℕ, ◌+◌, ◌-◌, ◌*◌, ◌≤◌, ◌<◌, ◌≡◌, arith, ok}
use basingamarket.Base.Words.{u64_max, mul-le-u128_max}
use basingamarket.Base.Div.{div-le-div_right, div-le-div_left}
use basingamarket.Program.Curve.{quote_buy, apply_buy}
use basingamarket.Program.Curve.Buy.{reserve_after, quote_buy-Quoted, Bought, apply_buy-Bought}
use basingamarket.Program.Math.{checked_add, checked_sub}
use basingamarket.Program.State.{Curve}

pub reserve_after-le : (c : Curve) (net : ℕ) → reserve_after c net ≤ c.virtual_ticket
reserve_after-le c net = div-le_of_le-mul (c.virtual_usdc + net) (grind arith)

reserve_after-lt :
    (c : Curve) (net : ℕ) → 0 < net → 0 < c.virtual_ticket → reserve_after c net < c.virtual_ticket
reserve_after-lt c net h k = (div-lt_iff_lt-mul {k = c.virtual_usdc + net} (omega arith)).1 (
    omega (
      arith,
      mul-lt-mul_of_pos_right {m = c.virtual_usdc} {n = c.virtual_usdc + net} (omega arith) k,
    ))

-- A positive buy on a curve whose reserves stay u64 is always quoted.
pub quote_buy_total :
    (c : Curve) (net : ℕ)
    → 0 < net
    → c.virtual_usdc + net ≤ u64_max
    → c.virtual_ticket ≤ u64_max
    → quote_buy c net ≡ ok (c.virtual_ticket - reserve_after c net)
unfolding quote_buy checked_add checked_sub
quote_buy_total c net h k m =
    ground (
      arith,
      mul-le-u128_max c.virtual_usdc c.virtual_ticket (omega arith) m,
      reserve_after-le c net,
    )

-- A quote is between one ticket and the whole reserve.
pub quote_buy_bounds :
    (c : Curve) (net : ℕ) {t : ℕ}
    → 0 < c.virtual_ticket
    → quote_buy c net ≡ ok t
    → (0 < t) × (t ≤ c.virtual_ticket)
quote_buy_bounds c net h e =
    let q = quote_buy-Quoted c net e in
    (omega (arith, q.reserve, reserve_after-lt c net q.positive h), omega (arith, q.reserve))

-- A larger buy is quoted no fewer tickets.
pub quote_buy_mono :
    (c : Curve) (a b : ℕ) {s t : ℕ} → a ≤ b → quote_buy c a ≡ ok s → quote_buy c b ≡ ok t → s ≤ t
quote_buy_mono c a b h p q =
    let qa = quote_buy-Quoted c a p in
    let qb = quote_buy-Quoted c b q in
    omega (
      arith,
      qa.reserve,
      qb.reserve,
      div-le-div_left (c.virtual_usdc * c.virtual_ticket) (c.virtual_usdc + a) (c.virtual_usdc + b)
          (omega (arith, qa.positive)) (omega arith),
    )

-- The product of the reserves never grows over a buy, and falls by less than the new dollar reserve.
pub apply_buy_product :
    (c : Curve) (net tickets : ℕ) {c' : Curve}
    → 0 < net
    → apply_buy c net tickets ≡ ok c'
    → (c'.virtual_usdc * c'.virtual_ticket ≤ c.virtual_usdc * c.virtual_ticket)
      × (c.virtual_usdc * c.virtual_ticket < c'.virtual_usdc * c'.virtual_ticket + c'.virtual_usdc)
apply_buy_product c net tickets h e =
    let b = apply_buy-Bought c net tickets e in
    rw (b.usdc, b.ticket)
      (
        mul-div-le _ _,
        grind (
          arith,
          lt-mul-div-succ (c.virtual_usdc * c.virtual_ticket) {b = c.virtual_usdc + net}
              (omega arith),
        ),
      )

reserve_after-split :
    (c : Curve) (a b t : ℕ) {c₁ : Curve}
    → Bought c a t c₁
    → reserve_after c₁ b ≤ reserve_after c (a + b)
reserve_after-split c a b t s =
    rw (s.usdc, s.ticket, add_assoc c.virtual_usdc a b)
      (div-le-div_right _ _ (c.virtual_usdc + (a + b)) (mul-div-le _ _))

-- Buying in two steps never yields fewer tickets than buying at once: rounding favours the buyer.
pub quote_buy_split :
    (c : Curve) (a b : ℕ) {t t₁ t₂ : ℕ} {c₁ : Curve}
    → quote_buy c (a + b) ≡ ok t
    → quote_buy c a ≡ ok t₁
    → apply_buy c a t₁ ≡ ok c₁
    → quote_buy c₁ b ≡ ok t₂
    → t ≤ t₁ + t₂
quote_buy_split c a b {t} {t₁} {t₂} {c₁} whole first step second =
    let q = quote_buy-Quoted c (a + b) whole in
    let q₁ = quote_buy-Quoted c a first in
    let q₂ = quote_buy-Quoted c₁ b second in
    let s = apply_buy-Bought c a t₁ step in
    omega (arith, q.reserve, q₁.reserve, q₂.reserve, s.ticket, reserve_after-split c a b t₁ s)
