-- ===== src/Program/Tests/Curves.antt =====
-- The arithmetic and the curve on small numbers, and their properties there.
use basingamarket.Base.{ℕ, ◌+◌, ◌≤◌, ◌≡◌, refl, arith, ok}
use basingamarket.Base.Int.{pos}
use basingamarket.Program.Curve.{quote_buy, apply_buy}
use basingamarket.Program.Curve.Invariant.{buy_total, new_curve-IsBalanced}
use basingamarket.Program.Curve.Pricing.{quote_buy_split}
use basingamarket.Program.Math.{
  fee_amount, mul_div, early_flip_fee, early_flip_fee_bps, checked_add, checked_sub,
}
use basingamarket.Program.State.{Curve, new_curve}

-- A curve of 100 dollars and 1000 tickets.
abbrev curve : Curve
curve = new_curve 100 1000

quoted_10 : quote_buy curve 10 ≡ ok 91
unfolding quote_buy checked_add checked_sub
quoted_10 = refl

quoted_30 : quote_buy curve 30 ≡ ok 231
unfolding quote_buy checked_add checked_sub
quoted_30 = refl

quoted_40 : quote_buy curve 40 ≡ ok 286
unfolding quote_buy checked_add checked_sub
quoted_40 = refl

abbrev curve_10 : Curve
curve_10 = record { virtual_usdc = 110; virtual_ticket = 909; real_usdc = 10; ticket_supply = 91 }

bought_10 : apply_buy curve 10 91 ≡ ok curve_10
unfolding apply_buy checked_add
bought_10 = refl

quoted_10_30 : quote_buy curve_10 30 ≡ ok 195
unfolding quote_buy checked_add checked_sub
quoted_10_30 = refl

quote_buy_split_example : 286 ≤ 91 + 195
quote_buy_split_example = quote_buy_split curve 10 30 quoted_40 quoted_10 bought_10 quoted_10_30

buy_total_example :
    (tickets : ℕ) × (c' : Curve) × (quote_buy curve 30 ≡ ok tickets)
    × (apply_buy curve 30 tickets ≡ ok c')
buy_total_example =
    buy_total 100 1000 30 curve (new_curve-IsBalanced 100 1000) (omega arith) (omega arith)
      (omega arith)

mul_div_7 : mul_div 7 1000000 3 ≡ ok 2333333
unfolding mul_div
mul_div_7 = refl

fee_of_20000 : fee_amount 20000 50 ≡ ok 100
unfolding fee_amount
fee_of_20000 = refl

early_flip_fees :
    (early_flip_fee 2000 (pos 9) ≡ ok 100)
    × (early_flip_fee 2000 (pos 10) ≡ ok 60)
    × (early_flip_fee 2000 (pos 59) ≡ ok 20)
    × (early_flip_fee 2000 (pos 60) ≡ ok 0)
unfolding early_flip_fee early_flip_fee_bps fee_amount
early_flip_fees = (refl, refl, refl, refl)
