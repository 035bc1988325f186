-- ===== src/QuietHours/Clocks.antt =====
-- lib/quietHours.ts: the clock that a moment shows at an offset from UTC.
use aimail.Base.{ℕ, ◌+◌, ◌-◌, ◌*◌, ◌/◌, ◌%◌, ◌==◌, if◌then◌else◌}

-- Minutes ahead of UTC, or behind it.
pub data Offset : Type 0 where
  ahead behind : ℕ → Offset

abbrev pub day_ms : ℕ
day_ms = 86400000

-- Shifts a moment so that its UTC fields read as the local clock at that offset.
unfoldable pub shifted : ℕ → Offset → ℕ
shifted at (ahead m) = at + m * 60000
shifted at (behind m) = at - m * 60000

-- `getUTCDay`: Sunday is 0. The earliest date is a Tuesday.
unfoldable pub utc_day : ℕ → ℕ
utc_day at = (at / day_ms + 2) % 7

unfoldable pub iso_weekday : ℕ → ℕ
iso_weekday js_day = if js_day == 0 then 7 else js_day

pub record Clock : Type 0 where
  pub weekday : ℕ
  pub minutes : ℕ

unfoldable pub clock_at : ℕ → Offset → Clock
clock_at at offset =
    let local = shifted at offset in
    record {
      weekday = iso_weekday (utc_day local);
      minutes = local / 3600000 % 24 * 60 + local / 60000 % 60;
    }
