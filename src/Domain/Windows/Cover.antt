-- ===== src/Domain/Windows/Cover.antt =====
-- The window of the current round.
use native.Mathlib.Nat.{div-mul-le_self, lt-mul-div-succ}
use basingamarket.Base.{ℕ, ◌+◌, ◌*◌, ◌/◌, ◌<◌, ◌≡◌, arith, ok}
use basingamarket.Base.Int.{ℤ, pos, pos_part, ◌≤ℤ◌, ◌<ℤ◌, ◌+ℤ◌}
use basingamarket.Domain.Windows.{current_round_id, round_window}

parts :
    (now : ℤ) (d : ℕ) {id : ℕ} {start end : ℤ}
    → current_round_id now d ≡ ok id
    → round_window id d ≡ ok (start, end)
    → (now ≡ pos (pos_part now))
      × (0 < d)
      × (id ≡ pos_part now / d)
      × (start ≡ pos (id * d))
      × (end ≡ pos (id * d + d))
unfolding current_round_id round_window
parts now d h k = ground arith

-- The window of the current round holds the current time.
pub round_window_holds :
    (now : ℤ) (d : ℕ) {id : ℕ} {start end : ℤ}
    → current_round_id now d ≡ ok id
    → round_window id d ≡ ok (start, end)
    → (start ≤ℤ now) × (now <ℤ end)
round_window_holds now d h k =
    let (n_eq, positive, id_eq, start_eq, end_eq) = parts now d h k in
    let below = div-mul-le_self (pos_part now) d in
    let above = lt-mul-div-succ (pos_part now) {b = d} positive in
    (ground (arith, n_eq, id_eq, start_eq, below), ground (arith, n_eq, id_eq, end_eq, above))

-- The window of the current round holds the current time, its length is the duration, and the window
-- of the next round begins where it ends.
pub round_window_covers :
    (now : ℤ) (d : ℕ) {id : ℕ} {start end next_start next_end : ℤ}
    → current_round_id now d ≡ ok id
    → round_window id d ≡ ok (start, end)
    → round_window (id + 1) d ≡ ok (next_start, next_end)
    → (start ≤ℤ now) × (now <ℤ end) × (end ≡ start +ℤ pos d) × (next_start ≡ end)
unfolding round_window ◌+ℤ◌
round_window_covers now d {id} h k n =
    let (n_eq, positive, id_eq, start_eq, end_eq) = parts now d h k in
    let (begun, running) = round_window_holds now d h k in
    (begun, running, ground (arith, start_eq, end_eq), ground (arith, end_eq, n))
