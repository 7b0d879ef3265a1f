-- ===== src/Program/Curve/Invariant.antt =====
-- The books of a curve: what its virtual reserves owe to the market's starting reserves.
use basingamarket.Base.{ℕ, ◌+◌, ◌-◌, ◌≤◌, ◌<◌, ◌≡◌, arith, ok}
use basingamarket.Base.Words.{u64_max, mul-le-u128_max}
use basingamarket.Program.Curve.{quote_buy, apply_buy}
use basingamarket.Program.Curve.Buy.{reserve_after, quote_buy-Quoted, apply_buy-Bought}
use basingamarket.Program.Curve.Pricing.{reserve_after-le, quote_buy_total}
use basingamarket.Program.Math.{checked_add}
use basingamarket.Program.State.{Curve, new_curve}

-- The tickets sold are exactly those gone from the virtual reserve, and the dollars taken in are
-- exactly those that the virtual reserve has gained.
pub record IsBalanced (usdc_start ticket_start : ℕ) (c : Curve) : Type 0 where
  pub usdc : c.virtual_usdc ≡ usdc_start + c.real_usdc
  pub tickets : c.virtual_ticket + c.ticket_supply ≡ ticket_start

pub new_curve-IsBalanced : (u t : ℕ) → IsBalanced u t (new_curve u t)
new_curve-IsBalanced u t = omega arith

-- A quoted purchase keeps the books of the curve.
pub buy-IsBalanced :
    (u t net tickets : ℕ) (c : Curve) {c' : Curve}
    → IsBalanced u t c
    → quote_buy c net ≡ ok tickets
    → apply_buy c net tickets ≡ ok c'
    → IsBalanced u t c'
buy-IsBalanced u t net tickets c h q b =
    let quoted = quote_buy-Quoted c net q in
    let bought = apply_buy-Bought c net tickets b in
    omega (
      arith, h.usdc, h.tickets, quoted.reserve, bought.usdc, bought.ticket, bought.real,
      bought.supply,
    )

-- On a curve whose books balance, a purchase goes through whenever the new dollar reserve is a u64 and
-- so were the starting tickets.
pub buy_total :
    (u t net : ℕ) (c : Curve)
    → IsBalanced u t c
    → t ≤ u64_max
    → 0 < net
    → c.virtual_usdc + net ≤ u64_max
    → (tickets : ℕ) × (c' : Curve) × (quote_buy c net ≡ ok tickets)
      × (apply_buy c net tickets ≡ ok c')
unfolding apply_buy checked_add
buy_total u t net c v h p q =
    let tickets : ℕ = c.virtual_ticket - reserve_after c net in
    let reserve = reserve_after-le c net in
    (
      tickets,
      record {
        virtual_usdc = c.virtual_usdc + net;
        virtual_ticket = reserve_after c net;
        real_usdc = c.real_usdc + net;
        ticket_supply = c.ticket_supply + tickets;
      },
      quote_buy_total c net p q (omega arith),
      ground (
        arith,
        reserve,
        mul-le-u128_max c.virtual_usdc c.virtual_ticket (omega arith) (omega arith),
      ),
    )
