-- ===== src/Program/Curve/Buy.antt =====
-- What a quote and the purchase that follows it do to a curve.
use basingamarket.Base.{ℕ, ◌+◌, ◌*◌, ◌/◌, ◌≤◌, ◌<◌, ◌≡◌, arith, ok}
use basingamarket.Base.Words.{u64_max}
use basingamarket.Program.Curve.{quote_buy, apply_buy}
use basingamarket.Program.Math.{checked_add, checked_sub}
use basingamarket.Program.State.{Curve}

-- The ticket reserve after `net` dollars have come in.
abbrev pub reserve_after : Curve → ℕ → ℕ
reserve_after c net = c.virtual_usdc * c.virtual_ticket / (c.virtual_usdc + net)

pub record Quoted (c : Curve) (net tickets : ℕ) : Type 0 where
  pub positive : 0 < net
  pub fits : c.virtual_usdc + net ≤ u64_max
  pub reserve : tickets + reserve_after c net ≡ c.virtual_ticket

pub quote_buy-Quoted : (c : Curve) (net : ℕ) {t : ℕ} → quote_buy c net ≡ ok t → Quoted c net t
unfolding quote_buy checked_add checked_sub
quote_buy-Quoted c net h = ground arith

pub record Bought (c : Curve) (net tickets : ℕ) (c' : Curve) : Type 0 where
  pub usdc : c'.virtual_usdc ≡ c.virtual_usdc + net
  pub ticket : c'.virtual_ticket ≡ reserve_after c net
  pub real : c'.real_usdc ≡ c.real_usdc + net
  pub supply : c'.ticket_supply ≡ c.ticket_supply + tickets

pub apply_buy-Bought :
    (c : Curve) (net tickets : ℕ) {c' : Curve}
    → apply_buy c net tickets ≡ ok c'
    → Bought c net tickets c'
unfolding apply_buy checked_add
apply_buy-Bought c net tickets h = ground arith
