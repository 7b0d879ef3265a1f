-- ===== src/Domain/Windows.antt =====
-- The times of rounds: crates/domain/src/crypto_rounds/automation.rs.
pub mod Cover
use basingamarket.Base.{ℕ, ◌/◌, ◌||◌, ◌==◌, ok, err, ok_or, if◌then◌else◌, ◌>>=◌, ◌>>◌}
use basingamarket.Base.Int.{ℤ, pos, pos_part, ltb_ℤ}
use basingamarket.Base.Words.{u64_checked_mul, u64_checked_add, i64_try_from, i64_checked_add}
use basingamarket.Domain.State.{
  CryptoResult, invalid_timestamp, invalid_duration, overflow, round_open_window_not_started,
  round_open_window_expired, resolve_too_early,
}

-- A time that is not negative is its u64.
unfoldable pub current_round_id : ℤ → ℕ → CryptoResult ℕ
current_round_id now_ts duration_seconds = do
  if ltb_ℤ now_ts (pos 0) then err invalid_timestamp else ok tt
  if duration_seconds == 0 then err invalid_duration else ok tt
  ok (pos_part now_ts / duration_seconds)

unfoldable pub round_window : ℕ → ℕ → CryptoResult (ℤ × ℤ)
round_window round_id duration_seconds = do
  if duration_seconds == 0 then err invalid_duration else ok tt
  start ← ok_or (u64_checked_mul round_id duration_seconds) overflow
  end ← ok_or (u64_checked_add start duration_seconds) overflow
  start_at ← ok_or (i64_try_from start) overflow
  end_at ← ok_or (i64_try_from end) overflow
  ok (start_at, end_at)

unfoldable pub validate_lazy_open_window : ℤ → ℤ → ℤ → CryptoResult (Unit {0})
validate_lazy_open_window now_ts start_at activation_grace_seconds = do
  if ltb_ℤ now_ts (pos 0) || ltb_ℤ start_at (pos 0) || ltb_ℤ activation_grace_seconds (pos 0)
      then err invalid_timestamp
      else ok tt
  if ltb_ℤ now_ts start_at then err (round_open_window_not_started now_ts start_at) else ok tt
  latest_open_ts ← ok_or (i64_checked_add start_at activation_grace_seconds) overflow
  if ltb_ℤ latest_open_ts now_ts
      then err (round_open_window_expired now_ts latest_open_ts)
      else ok tt

unfoldable pub validate_resolve_time : ℤ → ℤ → ℤ → CryptoResult (Unit {0})
validate_resolve_time now_ts end_at close_lag_seconds = do
  if ltb_ℤ now_ts (pos 0) || ltb_ℤ end_at (pos 0) || ltb_ℤ close_lag_seconds (pos 0)
      then err invalid_timestamp
      else ok tt
  earliest_resolve_ts ← ok_or (i64_checked_add end_at close_lag_seconds) overflow
  if ltb_ℤ now_ts earliest_resolve_ts
      then err (resolve_too_early now_ts earliest_resolve_ts)
      else ok tt
