-- ===== src/Session/Backoff.antt =====
-- libel/libel.c: `backoff_violation` and `sky_close`.
use embedded_client.Types.{
  auth_retry_8h, error, auth_needs_time, auth_retry_1d, success, error_none, error_never_open,
  auth_retry_16h, Errno, Session, Status, time_unavailable,
}
use embedded_client.Common.{ℕ, false, pos, Bool, ltb_ℤ, ◌==◌, ◌-ℤ◌, if◌then◌else◌, ◌*◌, not}

-- `BACKOFF_UNITS_PER_HR`
abbrev pub backoff_units_per_hr : ℕ
backoff_units_per_hr = 3600

-- The pause that an error demands before the next request, in hours.
abbrev pub pause_hours : Errno → ℕ
pause_hours auth_retry_8h = 8
pause_hours auth_retry_16h = 16
pause_hours auth_retry_1d = 24
pause_hours _ = 0

-- `duration < hours * BACKOFF_UNITS_PER_HR`, with the duration from `last` to `now`
abbrev too_soon : ℕ → ℕ → ℕ → Bool
too_soon hours last now = ltb_ℤ (pos now -ℤ pos last) (pos (hours * backoff_units_per_hr))

abbrev violates : Errno → ℕ → ℕ → Bool
violates auth_retry_8h last now = too_soon 8 last now
violates auth_retry_16h last now = too_soon 16 last now
violates auth_retry_1d last now = too_soon 24 last now
violates auth_needs_time last now = now == time_unavailable
violates _ last now = false

unfoldable pub backoff_violation : Session → ℕ → Bool
backoff_violation s now = violates s.backoff s.header.time now

unfoldable pub sky_close : Session → Session × Errno × Status
sky_close s =
    if not s.open_flag
    then (s, error_never_open, error)
    else (record s { open_flag = false }, error_none, success)
